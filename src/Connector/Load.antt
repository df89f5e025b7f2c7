-- ===== src/Connector/Load.antt =====
-- The `load` methods of backend/app/connectors/base.py: the statements that a connector sends to DuckDB.
use buchi_maker.Common.{
  if◌then◌else◌, format, ℕ, String, Bool, true, false, not, Option, none, some, List, [], ◌∷◌, ◌++◌,
}
use buchi_maker.Json.{Json, truthy}
use buchi_maker.Python.Replace.{replace}
use buchi_maker.Connector.{BaseConnector, csv_file, json_file, parquet_files, bigquery_table}

-- `_con.execute(text, parameters)` and `_con.register(name, df)`
pub data Statement : Type 0 where
  execute : String → List String → Statement
  register_frame : String → Statement

-- a statement whose exception ends the loading, and one inside `try: ... except Exception: pass`
pub data Step : Type 0 where
  must may : Statement → Step

-- What is outside: the files, DuckDB, which may refuse a statement after those sent before it, and BigQuery.
pub record Engine : Type 0 where
  pub exists : String → Bool
  pub as_posix : String → String
  pub accepts : List Statement → Statement → Bool
  pub has_bigquery : Bool
  pub fetches : (project_id credentials_path query : Json) → Bool

pub data LoadFailure : Type 0 where
  file_not_found : String → LoadFailure
  import_error fetch_error database_error : LoadFailure

-- `sent` are the statements in order, the last of which may have been refused
pub record Loading : Type 0 where
  pub sent : List Statement
  pub failure : Option LoadFailure
  pub connector : BaseConnector

abbrev pub plain : List String → Statement
plain text = execute (format text) []

unfoldable pub csv_steps : String → String → List Step
csv_steps name path =
    must (plain ("DROP TABLE IF EXISTS " ∷ name ∷ []))
    ∷ must (
        execute
          (format ("CREATE TABLE " ∷ name ∷ " AS SELECT * FROM read_csv_auto(?, header=true)" ∷ []))
          (path ∷ []))
    ∷ []

unfoldable pub json_steps : String → String → List Step
json_steps name path =
    must (plain ("DROP TABLE IF EXISTS " ∷ name ∷ []))
    ∷ must (
        execute (format ("CREATE TABLE " ∷ name ∷ " AS SELECT * FROM read_json_auto(?)" ∷ []))
          (path ∷ []))
    ∷ []

-- self.filepath.replace("'", "''")
unfoldable pub escaped : String → String
escaped path = replace "'" "''" path

abbrev pub hive_text : Bool → String
hive_text true = "true"
hive_text false = "false"

unfoldable pub view_text : String → String → Bool → String
view_text name path hive = format (
    "CREATE OR REPLACE VIEW "
    ∷ name
    ∷ " AS SELECT * FROM read_parquet('"
    ∷ escaped path
    ∷ "', hive_partitioning="
    ∷ hive_text hive
    ∷ ")"
    ∷ [])

unfoldable pub parquet_steps : String → String → Bool → List Step
parquet_steps name path hive =
    may (plain ("DROP VIEW IF EXISTS " ∷ name ∷ []))
    ∷ may (plain ("DROP TABLE IF EXISTS " ∷ name ∷ []))
    ∷ must (execute (view_text name path hive) [])
    ∷ []

unfoldable pub bigquery_steps : String → List Step
bigquery_steps name =
    must (plain ("DROP VIEW IF EXISTS " ∷ name ∷ []))
    ∷ must (plain ("DROP TABLE IF EXISTS " ∷ name ∷ []))
    ∷ must (register_frame (format ("__" ∷ name ∷ "_df" ∷ [])))
    ∷ must (plain ("CREATE TABLE " ∷ name ∷ " AS SELECT * FROM __" ∷ name ∷ "_df" ∷ []))
    ∷ must (plain ("DROP VIEW IF EXISTS __" ∷ name ∷ "_df" ∷ []))
    ∷ []

module _ (engine : Engine) where
  unfoldable pub run : List Step → List Statement → List Statement × Bool
  run [] sent = (sent, true)
  run (may s ∷ steps) sent = run steps (sent ++ s ∷ [])
  run (must s ∷ steps) sent =
      let rest = run steps (sent ++ s ∷ []) in
      if engine.accepts sent s then rest else (sent ++ s ∷ [], false)

  -- self.last_updated is set when nothing was raised
  unfoldable pub finish : ℕ → BaseConnector → List Statement × Bool → Loading
  finish now c (sent, false) = record { sent = sent; failure = some database_error; connector = c }
  finish now c (sent, true) = record {
    sent = sent;
    failure = none;
    connector = record c { last_updated = now };
  }

  abbrev pub stopped : LoadFailure → BaseConnector → Loading
  stopped e c = record { sent = []; failure = some e; connector = c }

  -- connector.load(con), at the second `now`
  unfoldable pub load : ℕ → BaseConnector → Loading
  load now c = elim c.source [
    | csv_file path ↦
        if engine.exists path
        then finish now c (run (csv_steps c.name (engine.as_posix path)) [])
        else stopped (file_not_found (format ("CSV file not found: " ∷ path ∷ []))) c
    | json_file path ↦
        if engine.exists path
        then finish now c (run (json_steps c.name (engine.as_posix path)) [])
        else stopped (file_not_found (format ("JSON file not found: " ∷ path ∷ []))) c
    | parquet_files path hive ↦ finish now c (run (parquet_steps c.name path (truthy hive)) [])
    | bigquery_table project dataset table credentials query ↦
        if not engine.has_bigquery
        then stopped import_error c
        else if engine.fetches project credentials query
        then finish now c (run (bigquery_steps c.name) [])
        else stopped fetch_error c
  ]
