-- ===== src/Validator/Paths.antt =====
-- The data directory is a jail for file paths.
use buchi_maker.Common.{
  &&-eq-true, ok, String, ◌≡◌, refl, ap₂, ◌↔◌, true, List, [], ◌∷◌, ◌++◌, arith, ◌==◌, eq_iff,
}
use buchi_maker.Validator.{FileSystem, is_relative_to, validate_path_within_base}

is_relative_to_iff :
    (path base : List String)
    → (is_relative_to path base ≡ true) ↔ ((rest : List String) × (path ≡ base ++ rest))
unfolding is_relative_to
is_relative_to_iff path [] = (λ _. (path, refl), λ _. refl)
is_relative_to_iff [] (b ∷ base) = (λ h. cc, λ (rest, e). cc)
is_relative_to_iff (p ∷ path) (b ∷ base) = (
  λ h.
      let (same, more) = &&-eq-true (p == b) (is_relative_to path base) h in
      let (rest, e) = (is_relative_to_iff path base).0 more in
      (rest, ap₂ (λ x xs. x ∷ xs) ((eq_iff p b).0 same) e),
  λ (rest, e). ground (arith, eq_iff p b, (is_relative_to_iff path base).1 (rest, cc)),
)

-- A path is accepted, and returned as it is, exactly if it resolves to the data directory or to a
-- path whose leading parts are those of the data directory.
pub validate_path_iff :
    (fs : FileSystem) (filepath base_dir field : String)
    → (validate_path_within_base fs filepath base_dir field ≡ ok filepath)
      ↔ ((rest : List String) × (fs.resolve filepath ≡ fs.resolve base_dir ++ rest))
unfolding validate_path_within_base
validate_path_iff fs filepath base_dir field =
    let iff = is_relative_to_iff (fs.resolve filepath) (fs.resolve base_dir) in
    (λ h. iff.0 (ground arith), λ w. ground (arith, iff.1 w))
