-- ===== src/Validator/Examples.antt =====
-- The theorems on names and paths at concrete inputs, and tests of the validator.
use buchi_maker.Common.{if◌then◌else◌, codes, ok, err, ◌≡◌, refl, ◌↔◌, some, [], ◌∷◌, ◌==◌}
use buchi_maker.Validator.{
  FileSystem, too_large, call_next, bad_header, dispatch, max_body_bytes, sanitize_name,
  validate_identifier, validate_path_within_base, raise_if_invalid_name,
}
use buchi_maker.Validator.Names.{IsSafeName, sanitize_name_iff}

sanitize_name_iff_example :
    (sanitize_name "Sales 2024" "name" ≡ ok "Sales 2024") ↔ IsSafeName (codes "Sales 2024")
sanitize_name_iff_example = sanitize_name_iff "Sales 2024" "name"

-- a file system in which paths are absolute already
abbrev plain : FileSystem
plain = record {
  resolve = λ p.
      if p == "/data"
      then "data" ∷ []
      else if p == "/data/sales/x.csv"
      then "data" ∷ "sales" ∷ "x.csv" ∷ []
      else "database" ∷ "x.csv" ∷ [];
  show = λ p. "/data";
}

-- a directory whose name begins like the data directory's is outside
outside :
    validate_path_within_base plain "/database/x.csv" "/data" "file"
    ≡ err
        "file '/database/x.csv' must be an absolute path inside the configured data directory (/data)."
unfolding validate_path_within_base
outside = refl

newline_accepted : sanitize_name "name\n" "name" ≡ ok "name\n"
unfolding sanitize_name
newline_accepted = refl

identifier_newline_accepted : validate_identifier "a-b_1\n" ≡ ok "a-b_1\n"
unfolding validate_identifier
identifier_newline_accepted = refl

blank_refused :
    raise_if_invalid_name "  " "id"
    ≡ err (record { status = 422; detail = "id must not be empty." })
unfolding raise_if_invalid_name
blank_refused = refl

body_too_large : dispatch max_body_bytes (some " 3_000_000 ") ≡ too_large 2
unfolding dispatch buchi_maker.Python.Number.int_of_text buchi_maker.Python.Number.exceeds
body_too_large = refl

negative_length : dispatch max_body_bytes (some "-1") ≡ call_next
unfolding dispatch buchi_maker.Python.Number.int_of_text buchi_maker.Python.Number.exceeds
negative_length = refl

header_no_number : dispatch max_body_bytes (some "many") ≡ bad_header
unfolding dispatch buchi_maker.Python.Number.int_of_text
header_no_number = refl
