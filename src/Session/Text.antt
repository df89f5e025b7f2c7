-- ===== src/Session/Text.antt =====
-- A way to write sessions and login states as text and read them back, as `Codec` asks for.
use buchi_maker.Common.{
  eqb, if◌then◌else◌, Bool-cases, ℕ, zero, suc, String, ◌≡◌, refl, ap, inl, inr, false, Option,
  none, some, ◌==◌, eq_iff,
}
use Prim.Native.Char.{Char, code}
use buchi_maker.Session.{SessionData, FlowData, Codec}

-- A text: each character after a `+`, then a `-`. A number: its unary text.
abbrev write : String → String → String
write String.[] rest = String.◌∷◌ "-" rest
write (String.◌∷◌ c s) rest = String.◌∷◌ "+" (String.◌∷◌ c (write s rest))

abbrev unary : ℕ → String
unary zero = ""
unary (suc n) = String.◌∷◌ "i" (unary n)

abbrev write_option : Option String → String → String
write_option none rest = String.◌∷◌ "-" rest
write_option (some s) rest = String.◌∷◌ "+" (write s rest)

abbrev push : Char → Option (String × String) → Option (String × String)
push c none = none
push c (some (s, rest)) = some (String.◌∷◌ c s, rest)

unfoldable pub read : String → Option (String × String)
read String.[] = none
read (String.◌∷◌ m String.[]) = if eqb (code m) b'+' then none else some ("", "")
read (String.◌∷◌ m (String.◌∷◌ c s)) =
    let more = push c (read s) in if eqb (code m) b'+' then more else some ("", String.◌∷◌ c s)

abbrev count : String → ℕ
count String.[] = zero
count (String.◌∷◌ c s) = suc (count s)

read-write : (s rest : String) → read (write s rest) ≡ some (s, rest)
unfolding read
read-write String.[] String.[] = refl
read-write String.[] (String.◌∷◌ c rest) = refl
read-write (String.◌∷◌ c s) rest = ap (push c) (read-write s rest)

count-unary : (n : ℕ) → count (unary n) ≡ n
count-unary zero = refl
count-unary (suc n) = ap suc (count-unary n)

abbrev bind {ℓ κ} : {A : Type ℓ} {B : Type κ} → Option A → (A → Option B) → Option B
bind none f = none
bind (some a) f = f a

abbrev flow_text : FlowData → String
flow_text d = write d.code_verifier (write d.nonce (write d.next_path ""))

abbrev flow_of : String → Option FlowData
flow_of s = bind (read s) λ v.
    bind (read v.1)
      λ n. bind (read n.1) λ p. some (record { code_verifier = v.0; nonce = n.0; next_path = p.0 })

pub flow_of-flow_text : (d : FlowData) → flow_of (flow_text d) ≡ some d
flow_of-flow_text d =
    rw (read-write d.code_verifier (write d.nonce (write d.next_path "")))
      (rw (read-write d.nonce (write d.next_path "")) (rw (read-write d.next_path "") refl))

cons-ne-empty : (c : Char) (s : String) → (String.◌∷◌ c s == "") ≡ false
cons-ne-empty c s = elim (Bool-cases (String.◌∷◌ c s == "")) [
  | inl e ↦ absurd (cc (ap count ((eq_iff (String.◌∷◌ c s) "").0 e)))
  | inr e ↦ e
]

pub write-ne-empty : (s rest : String) → (write s rest == "") ≡ false
write-ne-empty String.[] rest = cons-ne-empty "-" rest
write-ne-empty (String.◌∷◌ c s) rest = cons-ne-empty "+" (String.◌∷◌ c (write s rest))

abbrev pub flows : Codec FlowData
flows = record {
  dumps = flow_text;
  loads = flow_of;
  loads-dumps = flow_of-flow_text;
  dumps-ne-empty = λ d. write-ne-empty d.code_verifier (write d.nonce (write d.next_path ""));
}

-- an address that is there or not, and the rest of the text
unfoldable pub read_option : String → Option (Option String × String)
read_option String.[] = none
read_option (String.◌∷◌ m rest) =
    if eqb (code m) b'+' then bind (read rest) (λ v. some (some v.0, v.1)) else some (none, rest)

read_option-write_option :
    (o : Option String) (rest : String) → read_option (write_option o rest) ≡ some (o, rest)
unfolding read_option
read_option-write_option none rest = refl
read_option-write_option (some s) rest = rw (read-write s rest) refl

abbrev session_text : SessionData → String
session_text d =
    write d.subject (write_option d.email (write d.name (write d.role (unary d.issued_at))))

abbrev session_of : String → Option SessionData
session_of s = bind (read s) λ i. bind (read_option i.1) λ e. bind (read e.1) λ n.
    bind (read n.1) λ r.
      some (record { subject = i.0; email = e.0; name = n.0; role = r.0; issued_at = count r.1 })

pub session_of-session_text : (d : SessionData) → session_of (session_text d) ≡ some d
session_of-session_text d =
    rw
      (read-write d.subject
        (write_option d.email (write d.name (write d.role (unary d.issued_at)))))
      (rw (read_option-write_option d.email (write d.name (write d.role (unary d.issued_at)))) (
        rw (read-write d.name (write d.role (unary d.issued_at)))
          (rw (read-write d.role (unary d.issued_at)) (rw (count-unary d.issued_at) refl))))

abbrev pub sessions : Codec SessionData
sessions = record {
  dumps = session_text;
  loads = session_of;
  loads-dumps = session_of-session_text;
  dumps-ne-empty = λ d.
      write-ne-empty d.subject
        (write_option d.email (write d.name (write d.role (unary d.issued_at))));
}
