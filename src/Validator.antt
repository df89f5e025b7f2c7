-- ===== src/Validator.antt =====
-- backend/app/core/validator.py: what a name, an identifier, a path and a request must be.
pub mod Names
pub mod Paths
mod Examples
use buchi_maker.Common.{
  ℕ, ◌+◌, ◌*◌, ◌/◌, Bool, true, false, not, ◌&&◌, ◌||◌, String, Option, none, some, List, [], ◌∷◌,
  all, eqb, codes, format, ◌==◌, Result, ok, err, map_err, if◌then◌else◌,
}
use buchi_maker.Python.Chars.{is_space, is_letter, is_ascii_digit}
use buchi_maker.Python.Number.{int_of_text, exceeds}

-- [a-zA-Z0-9_\-], and the same with the space
unfoldable pub is_id_char : ℕ → Bool
unfolding is_letter is_ascii_digit
is_id_char c = is_letter c || is_ascii_digit c || eqb c b'_' || eqb c b'-'

unfoldable pub is_name_char : ℕ → Bool
unfolding is_id_char
is_name_char c = is_id_char c || eqb c b' '

-- `p*$` from here: `$` holds at the end of the text and before a newline that ends it
rest_matches : (ℕ → Bool) → List ℕ → Bool
rest_matches p [] = true
rest_matches p (c ∷ []) = eqb c 10 || p c
rest_matches p (c ∷ d ∷ s) = p c && rest_matches p (d ∷ s)

-- re.compile("^p+$").match
matches : (ℕ → Bool) → List ℕ → Bool
unfolding rest_matches
matches p [] = false
matches p (c ∷ s) = p c && rest_matches p s

-- `not value.strip()`: the text is empty, or white space throughout
unfoldable pub is_blank : String → Bool
unfolding is_space
is_blank v = all is_space (codes v)

-- The error is the message of the ValueError.
unfoldable pub sanitize_name : String → String → Result String String
unfolding matches is_name_char is_blank
sanitize_name value field =
    if is_blank value
    then err (format (field ∷ " must not be empty." ∷ []))
    else if matches is_name_char (codes value)
    then ok value
    else err (
        format (
          field ∷ " '" ∷ value
          ∷ "' contains invalid characters. Only alphanumeric characters, spaces, dashes (-), and underscores (_) are allowed."
          ∷ []))

unfoldable pub validate_safe_name : String → Result String String
unfolding sanitize_name
validate_safe_name value = sanitize_name value "name"

unfoldable pub validate_identifier : String → Result String String
unfolding matches is_id_char
validate_identifier value =
    if matches is_id_char (codes value)
    then ok value
    else err (
        format (
          "Identifier '" ∷ value
          ∷ "' is invalid. Only alphanumeric characters, dashes, and underscores are allowed."
          ∷ []))

-- What the file system does: `Path(text).resolve()` as the path's parts, and `str` of a path.
pub record FileSystem : Type 0 where
  pub resolve : String → List String
  pub show : List String → String

-- Path.is_relative_to: the base's parts come first, part by part
unfoldable pub is_relative_to : List String → List String → Bool
is_relative_to path [] = true
is_relative_to [] (b ∷ base) = false
is_relative_to (p ∷ path) (b ∷ base) = p == b && is_relative_to path base

unfoldable pub validate_path_within_base :
    FileSystem → String → String → String → Result String String
unfolding is_relative_to
validate_path_within_base fs filepath base_dir field =
    let resolved_base = fs.resolve base_dir in
    if is_relative_to (fs.resolve filepath) resolved_base
    then ok filepath
    else err (
        format (
          field
          ∷ " '"
          ∷ filepath
          ∷ "' must be an absolute path inside the configured data directory ("
          ∷ fs.show resolved_base
          ∷ ")."
          ∷ []))

-- What the middleware does with a request: a response of its own, the next handler, or the
-- ValueError of `int` on a header that is no number.
pub data Dispatch : Type 0 where
  too_large : ℕ → Dispatch
  call_next : Dispatch
  bad_header : Dispatch

abbrev pub max_body_bytes : ℕ
max_body_bytes = 2 * 1024 * 1024

unfoldable pub dispatch : ℕ → Option String → Dispatch
dispatch limit none = call_next
dispatch limit (some content_length) =
    if content_length == "" then call_next else elim (int_of_text content_length) [
      | none ↦ bad_header
      | some n ↦ if exceeds n limit then too_large (limit / (1024 * 1024)) else call_next
    ]

-- An HTTPException: the status and the detail.
pub record HttpError : Type 0 where
  pub status : ℕ
  pub detail : String

unfoldable pub raise_if_invalid_name : String → String → Result HttpError String
unfolding sanitize_name
raise_if_invalid_name value field =
    map_err (λ e. record { status = 422; detail = e }) (sanitize_name value field)
