-- ===== src/Cache/Keys.antt =====
-- Keys of payloads and of indexes are told apart by their second character.
use buchi_maker.Common.{
  Bool-cases, codes, codes-append, ℕ, String, ◌≡◌, sym, ap, ◌∙◌, inl, inr, false, List, [], ◌∷◌,
  arith, ◌==◌, eq_iff, eq_refl,
}
use text.Mathlib.TextLemmas.{append_cancel_left, append_cancel_right}
use buchi_maker.Cache.{data_key, index_key}

second : List ℕ → ℕ
second [] = 0
second (c ∷ []) = 0
second (c ∷ d ∷ s) = d

second-data_key : (d h : String) → second (codes (data_key d h)) ≡ b'b'
unfolding data_key second
second-data_key d h = rw codes-append

second-index_key : (n : String) → second (codes (index_key n)) ≡ b's'
unfolding index_key second
second-index_key n = rw codes-append

-- No index has the key of a payload.
pub data_key-ne-index_key : (d h n : String) → (data_key d h == index_key n) ≡ false
data_key-ne-index_key d h n = elim (Bool-cases (data_key d h == index_key n)) [
  | inl e ↦
      let same = ap (λ s. second (codes s)) ((eq_iff (data_key d h) (index_key n)).0 e) in
      absurd (omega (arith, same, second-data_key d h, second-index_key n))
  | inr e ↦ e
]

-- Each data source has an index of its own.
pub index_key_injective : (m n : String) → index_key m ≡ index_key n → m ≡ n
unfolding index_key
index_key_injective m n e = append_cancel_right m n _ (append_cancel_left "ds:" _ _ e)

pub index_key-eq : (m n : String) → (index_key m == index_key n) ≡ (m == n)
index_key-eq m n = elim (Bool-cases (m == n)) [
  | inl e ↦ rw ((eq_iff m n).0 e) (eq_refl (index_key n) ∙ sym (eq_refl n))
  | inr e ↦ elim (Bool-cases (index_key m == index_key n)) [
    | inl f ↦ absurd (
        cc (e, (eq_iff m n).1 (index_key_injective m n ((eq_iff (index_key m) (index_key n)).0 f))))
    | inr f ↦ f ∙ sym e
  ]
]

pub index_key-ne-data_key : (n d h : String) → (index_key n == data_key d h) ≡ false
index_key-ne-data_key n d h = elim (Bool-cases (index_key n == data_key d h)) [
  | inl e ↦
      let same = ap (λ s. second (codes s)) ((eq_iff (index_key n) (data_key d h)).0 e) in
      absurd (omega (arith, same, second-data_key d h, second-index_key n))
  | inr e ↦ e
]
