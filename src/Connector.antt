-- ===== src/Connector.antt =====
-- backend/app/connectors/base.py: the connectors, their arguments and what is saved of them, and the part of
-- SystemManager that writes the list of them and reads it again.
-- The class of a connector is the constructor of its `Source`; what Python does not check is any value.
pub mod Registry
pub mod Load
pub mod Literal
pub mod Restart
mod Examples
use buchi_maker.Common.{
  if◌then◌else◌, all, any, format, elem, Dict, lookup, keys, Result, ◌>>=◌, ◌>>◌, guard, map_err,
  ok, err, ℕ, ◌-◌, ◌*◌, ◌/◌, String, ap, not, none, some, List, [], ◌∷◌, map,
}
use buchi_maker.Json.{Json, null, bool, num, str, arr, obj, items, fields, truthy, str_of}
use buchi_maker.Python.Replace.{show_nat}
use buchi_maker.Validator.{FileSystem, sanitize_name, validate_path_within_base}

-- `key_error` and `type_error` are raised by Python, `missing_attribute` is an AttributeError.
pub data Failure : Type 0 where
  value_error : String → Failure
  key_error type_error missing_attribute : Failure

pub data Source : Type 0 where
  csv_file json_file : (filepath : String) → Source
  parquet_files : (filepath : String) (hive_partitioning : Json) → Source
  bigquery_table : (project_id dataset_id table_id credentials_path query : Json) → Source

pub record BaseConnector : Type 0 where
  pub id : String
  pub name : String
  pub title : Json
  pub description : Json
  pub source : Source
  pub last_updated : ℕ

-- `data_dir` is a setting; `repr` is the text of a list or a dict.
pub record Setup : Type 0 where
  pub fs : FileSystem
  pub data_dir : String
  pub repr : Json → String

-- a value on which the code calls a method of `str`
unfoldable pub text_of : Failure → Json → Result Failure String
text_of e (str s) = ok s
text_of e v = err e

-- BaseConnector.__init__
unfoldable pub init : String → Json → Json → Json → Source → Result Failure BaseConnector
init id name title description source = do
  name ← text_of missing_attribute name
  name ← map_err value_error (sanitize_name name "name")
  ok (record {
    id = id;
    name = name;
    title = title;
    description = description;
    source = source;
    last_updated = 0;
  })

module _ (setup : Setup) where
  -- validate_path_within_base(filepath, get_settings().data_dir), with its default label
  unfoldable pub within_data_dir : Json → Result Failure String
  within_data_dir filepath = do
    path ← text_of type_error filepath
    map_err value_error (validate_path_within_base setup.fs path setup.data_dir "filepath")

  unfoldable pub new_csv :
      String → (name title filepath description : Json) → Result Failure BaseConnector
  new_csv id name title filepath description = do
    c ← init id name title description (csv_file "")
    path ← within_data_dir filepath
    ok (record c { source = csv_file path })

  unfoldable pub new_json :
      String → (name title filepath description : Json) → Result Failure BaseConnector
  new_json id name title filepath description = do
    c ← init id name title description (json_file "")
    path ← within_data_dir filepath
    ok (record c { source = json_file path })

  unfoldable pub new_parquet :
      String
      → (name title filepath description hive_partitioning : Json) → Result Failure BaseConnector
  new_parquet id name title filepath description hive = do
    c ← init id name title description (parquet_files "" hive)
    path ← within_data_dir filepath
    ok (record c { source = parquet_files path hive })

  -- `query or f"SELECT * FROM ..."`
  unfoldable pub query_or_all : (project_id dataset_id table_id query : Json) → Json
  query_or_all project dataset table query =
      if truthy query
      then query
      else str (
          format (
            "SELECT * FROM `"
            ∷ str_of setup.repr project
            ∷ "."
            ∷ str_of setup.repr dataset
            ∷ "."
            ∷ str_of setup.repr table
            ∷ "`"
            ∷ []))

  unfoldable pub new_bigquery :
      String
      → (name title project_id dataset_id table_id credentials_path query description : Json)
      → Result Failure BaseConnector
  new_bigquery id name title project dataset table credentials query description =
      init id name title description (
        bigquery_table project dataset table credentials (query_or_all project dataset table query))

-- the arguments of a call by keywords: a missing or an unknown one is a TypeError
unfoldable pub required : String → Dict Json → Result Failure Json
required key args = elim (lookup key args) [ none ↦ err type_error | some v ↦ ok v ]

unfoldable pub optional : String → Json → Dict Json → Json
optional key default args = elim (lookup key args) [ none ↦ default | some v ↦ v ]

unfoldable pub only_knows : List String → Dict Json → Result Failure (Unit {0})
only_knows names args = guard (all (λ k. elem k names) (keys args)) type_error

-- to_config
unfoldable pub file_config : BaseConnector → String → String → Dict Json → Dict Json
file_config c filepath source_type more =
    ("name", str c.name)
    ∷ ("title", c.title)
    ∷ ("filepath", str filepath)
    ∷ ("description", c.description)
    ∷ ("source_type", str source_type)
    ∷ more

-- The configuration of a BigQuery connector reads `self.auto_refresh`, which no class sets.
unfoldable pub to_config : BaseConnector → Result Failure (Dict Json)
to_config c = elim c.source [
  | csv_file path ↦ ok (file_config c path "csv" [])
  | json_file path ↦ ok (file_config c path "json" [])
  | parquet_files path hive ↦ ok (file_config c path "parquet" (("hive_partitioning", hive) ∷ []))
  | bigquery_table project dataset table credentials query ↦ err missing_attribute
]

abbrev pub source_type : Source → String
source_type (csv_file path) = "csv"
source_type (json_file path) = "json"
source_type (parquet_files path hive) = "parquet"
source_type (bigquery_table project dataset table credentials query) = "bigquery"

abbrev pub filepath : Source → Json
filepath (csv_file path) = str path
filepath (json_file path) = str path
filepath (parquet_files path hive) = str path
filepath (bigquery_table project dataset table credentials query) = null

unfoldable pub to_info : BaseConnector → Dict Json
to_info c =
    ("id", str c.id)
    ∷ ("name", str c.name)
    ∷ ("title", c.title)
    ∷ ("description", c.description)
    ∷ ("source_type", str (source_type c.source))
    ∷ ("filepath", filepath c.source)
    ∷ ("last_updated", num (show_nat c.last_updated))
    ∷ []
