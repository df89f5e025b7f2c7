-- ===== src/Redis.antt =====
-- Redis, as the backend uses it: an interface, since the server is not part of the program.
-- A key holds a text or a set of texts, perhaps with a deadline.
pub mod Memory
use buchi_maker.Common.{
  leb, if◌then◌else◌, is_some, elem, ℕ, ◌+◌, ◌<◌, String, ◌≡◌, ◌↔◌, Bool, true, false, ◌&&◌, ◌||◌,
  Option, none, some, List, [], ◌∷◌, ◌==◌,
}
use buchi_maker.Python.Replace.{starts}

pub data Command : Type 0 where
  setex : (key : String) (ttl : ℕ) (text : String) → Command
  set_plain : (key text : String) → Command
  sadd : (key text : String) → Command
  expire : (key : String) (ttl : ℕ) → Command
  delete : List String → Command
  flushdb : Command

-- has the deadline come?
abbrev pub lapsed : Option ℕ → ℕ → Bool
lapsed none t = false
lapsed (some d) t = leb d t

abbrev pub is_nil {ℓ} : {A : Type ℓ} → List A → Bool
is_nil [] = true
is_nil (x ∷ xs) = false

-- `value` is GET, `members` SMEMBERS, `matching` SCAN for a key prefix; a key past its deadline
-- is no longer there.
pub record Redis : Type 1 where
  pub State : Type 0
  pub value : State → String → Option String
  pub members : State → String → List String
  pub deadline : State → String → Option ℕ
  pub now : State → ℕ
  pub matching : State → String → List String
  pub apply : Command → State → State
  pub tick : ℕ → State → State
  pub value-setex :
      (s : State) (k : String) (t : ℕ) (v j : String)
      → value (apply (setex k t v) s) j ≡ (if k == j then some v else value s j)
  pub value-set_plain :
      (s : State) (k v j : String)
      → value (apply (set_plain k v) s) j ≡ (if k == j then some v else value s j)
  pub value-sadd : (s : State) (k m j : String) → value (apply (sadd k m) s) j ≡ value s j
  pub value-expire :
      (s : State) (k : String) (t : ℕ) (j : String)
      → 0 < t
      → value (apply (expire k t) s) j ≡ value s j
  pub value-delete :
      (s : State) (ks : List String) (j : String)
      → value (apply (delete ks) s) j ≡ (if elem j ks then none else value s j)
  pub value-flushdb : (s : State) (j : String) → value (apply flushdb s) j ≡ none
  pub value-tick :
      (s : State) (n : ℕ) (j : String)
      → value (tick n s) j ≡ (if lapsed (deadline s j) (now s + n) then none else value s j)
  pub members-setex :
      (s : State) (k : String) (t : ℕ) (v j : String)
      → members (apply (setex k t v) s) j ≡ (if k == j then [] else members s j)
  pub elem-sadd :
      (s : State) (k m j x : String)
      → elem x (members (apply (sadd k m) s) j) ≡ (k == j && m == x || elem x (members s j))
  pub members-expire :
      (s : State) (k : String) (t : ℕ) (j : String)
      → 0 < t
      → members (apply (expire k t) s) j ≡ members s j
  pub members-delete :
      (s : State) (ks : List String) (j : String)
      → members (apply (delete ks) s) j ≡ (if elem j ks then [] else members s j)
  pub members-tick :
      (s : State) (n : ℕ) (j : String)
      → members (tick n s) j ≡ (if lapsed (deadline s j) (now s + n) then [] else members s j)
  pub deadline-setex :
      (s : State) (k : String) (t : ℕ) (v j : String)
      → deadline (apply (setex k t v) s) j ≡ (if k == j then some (now s + t) else deadline s j)
  pub deadline-sadd :
      (s : State) (k m j : String)
      → deadline (apply (sadd k m) s) j
        ≡ (if k == j && is_nil (members s j) then none else deadline s j)
  pub deadline-expire :
      (s : State) (k : String) (t : ℕ) (j : String)
      → is_nil (members s k) ≡ false
      → deadline (apply (expire k t) s) j ≡ (if k == j then some (now s + t) else deadline s j)
  pub deadline-delete :
      (s : State) (ks : List String) (j : String)
      → elem j ks ≡ false
      → deadline (apply (delete ks) s) j ≡ deadline s j
  pub deadline-tick :
      (s : State) (n : ℕ) (j : String)
      → lapsed (deadline s j) (now s + n) ≡ false
      → deadline (tick n s) j ≡ deadline s j
  pub now-apply : (c : Command) (s : State) → now (apply c s) ≡ now s
  pub now-tick : (s : State) (n : ℕ) → now (tick n s) ≡ now s + n
  pub matching_iff :
      (s : State) (start k : String)
      → (elem k (matching s start) ≡ true)
        ↔ ((starts start k ≡ true) × (is_some (value s k) ≡ true))
