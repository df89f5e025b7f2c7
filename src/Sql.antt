-- ===== src/Sql.antt =====
-- execute_sql of backend/app/api/system.py: a SELECT that is sent straight to DuckDB.
pub mod Guarded
mod Examples
use buchi_maker.Common.{
  eqb, if◌then◌else◌, all, any, codes, format, join, Result, ok, err, ℕ, ◌-◌, ◌*◌, ◌/◌, String, ap,
  Bool, true, false, not, ◌&&◌, ◌||◌, Option, none, some, List, [], ◌∷◌, map,
}
use Prim.Native.Char.{code}
use Prim.Native.String
use buchi_maker.Python.Chars.{strip}
use buchi_maker.Validator.{HttpError}
use buchi_maker.Dashboard.Load.Text.{after_word, skip_spaces}

-- the names that _SQL_FILE_READ_FUNCTIONS lists, with every optional ending written out
abbrev pub file_read_functions : List String
file_read_functions =
    "read_csv" ∷ "read_csv_auto" ∷ "read_json" ∷ "read_json_auto" ∷ "read_json_objects"
    ∷ "read_json_objects_auto" ∷ "read_parquet" ∷ "read_ndjson" ∷ "read_ndjson_auto"
    ∷ "read_ndjson_objects" ∷ "read_text" ∷ "read_blob" ∷ "read_xlsx" ∷ "glob" ∷ "sniff_csv"
    ∷ "st_read" ∷ []

-- `\(` after `\s*`
abbrev pub opens : String → Bool
opens String.[] = false
opens (String.◌∷◌ c s) = eqb (code c) b'('

-- one of the alternatives, then `\s*\(`
abbrev pub is_call : String → String → Bool
is_call s name = elim (after_word name s) [ none ↦ false | some t ↦ opens (skip_spaces t) ]

unfoldable pub call_here : String → Bool
call_here s = any (is_call s) file_read_functions

-- What DuckDB and Python answer: the statements of a text, or the text of the exception; the columns and rows of
-- a statement that is run, each cell by its `str`, `none` for None; and the class `\w`.
pub record Statement : Type 0 where
  pub is_select : Bool
  pub query : String

pub record Table : Type 0 where
  pub columns : List String
  pub rows : List (List (Option String))

pub record Duck : Type 0 where
  pub extract_statements : List ℕ → Result String (List Statement)
  pub execute : String → Result String Table
  pub is_word : ℕ → Bool

-- `answered` carries the text that is compressed
pub data Reply : Type 0 where
  answered : String → Reply
  refused : HttpError → Reply

abbrev pub http : ℕ → String → Reply
http status detail = refused (record { status = status; detail = detail })

abbrev pub cell : Option String → String
cell none = ""
cell (some x) = x

unfoldable pub tsv : Table → String
tsv t =
    format
      (join "\n" (join "\t" t.columns ∷ map (λ row. join "\t" (map cell row)) t.rows) ∷ "\n" ∷ [])

module _ (duck : Duck) where
  -- _SQL_FILE_READ_FUNCTIONS.search. A name begins with a word character, so that `\b` holds in front of it where the
  -- character before, if there is one, is none: `word` says that it is one.
  unfoldable pub search : (word : Bool) → String → Bool
  search word String.[] = false
  search word (String.◌∷◌ c s) =
      let later = search (duck.is_word (code c)) s in
      not word && call_here (String.◌∷◌ c s) || later

  -- the reply and the statements that were run
  unfoldable pub run : Statement → Reply × List String
  run statement = elim (duck.execute statement.query) [
    | err e ↦ (http 400 e, statement.query ∷ [])
    | ok table ↦ (answered (tsv table), statement.query ∷ [])
  ]

  unfoldable pub checked_run : List Statement → Reply × List String
  checked_run (statement ∷ []) =
      if not statement.is_select
      then (http 400 "Only SELECT queries are allowed.", [])
      else if search false statement.query
      then (http 400 "Query references a disallowed file-reading function.", [])
      else run statement
  checked_run _ =
      (http 400 "Exactly one SQL statement is allowed (no stacked/chained statements).", [])

  -- `enabled` is general_settings.sql_api_enabled
  unfoldable pub execute_sql : (enabled : Bool) → String → Reply × List String
  execute_sql false query = (http 403 "SQL API is disabled.", [])
  execute_sql true query = elim (duck.extract_statements (strip (codes query))) [
    | err e ↦ (http 400 (format ("Invalid SQL: " ∷ e ∷ [])), [])
    | ok statements ↦ checked_run statements
  ]
