-- ===== src/Connector/Registry.antt =====
-- ConnectorRegistry, and the persisted list of data sources: _save_data_sources and the first part of
-- load_persisted_state of backend/app/models/system_manager.py.
use buchi_maker.Common.{
  if◌then◌else◌, Dict, lookup, insert, erase, keys, Result, ◌>>=◌, ◌>>◌, ok, err, ℕ, ◌+◌, String,
  Bool, true, false, Option, none, some, List, [], ◌∷◌,
}
use buchi_maker.Json.{Json, null, bool, str, arr, obj, items, fields, truthy}
use buchi_maker.Connector.{
  Failure, key_error, type_error, missing_attribute, BaseConnector, Setup, new_csv, new_json,
  new_parquet, new_bigquery, required, optional, only_knows, to_config,
}

-- the four classes that register themselves on import
pub data Class : Type 0 where
  csv json parquet bigquery : Class

abbrev pub registry : Dict Class
registry = ("csv", csv) ∷ ("json", json) ∷ ("parquet", parquet) ∷ ("bigquery", bigquery) ∷ []

unfoldable pub list_types : List String
list_types = keys registry

-- ConnectorRegistry.get; a list or a dict cannot be looked up
unfoldable pub get : Json → Result Failure (Option Class)
get (str tag) = ok (lookup tag registry)
get (arr vs) = err type_error
get (obj fs) = err type_error
get v = ok none

module _ (setup : Setup) (id : String) where
  -- connector_cls(**cfg)
  unfoldable pub construct : Class → Dict Json → Result Failure BaseConnector
  construct csv cfg = do
    only_knows ("name" ∷ "title" ∷ "filepath" ∷ "description" ∷ []) cfg
    name ← required "name" cfg
    title ← required "title" cfg
    filepath ← required "filepath" cfg
    new_csv setup id name title filepath (optional "description" null cfg)
  construct json cfg = do
    only_knows ("name" ∷ "title" ∷ "filepath" ∷ "description" ∷ []) cfg
    name ← required "name" cfg
    title ← required "title" cfg
    filepath ← required "filepath" cfg
    new_json setup id name title filepath (optional "description" null cfg)
  construct parquet cfg = do
    only_knows ("name" ∷ "title" ∷ "filepath" ∷ "description" ∷ "hive_partitioning" ∷ []) cfg
    name ← required "name" cfg
    title ← required "title" cfg
    filepath ← required "filepath" cfg
    new_parquet setup id name title filepath (optional "description" null cfg)
        (optional "hive_partitioning" (bool false) cfg)
  construct bigquery cfg = do
    only_knows
        ("name" ∷ "title" ∷ "project_id" ∷ "dataset_id" ∷ "table_id" ∷ "credentials_path" ∷ "query"
          ∷ "description" ∷ [])
        cfg
    name ← required "name" cfg
    title ← required "title" cfg
    project ← required "project_id" cfg
    dataset ← required "dataset_id" cfg
    table ← required "table_id" cfg
    credentials ← required "credentials_path" cfg
    new_bigquery setup id name title project dataset table credentials (optional "query" null cfg)
        (optional "description" null cfg)

  -- one entry of the list: an unknown type is passed over
  unfoldable pub built : Dict Json → Option Class → Result Failure (Option BaseConnector)
  built cfg none = ok none
  built cfg (some cls) = do c ← construct cls (erase "source_type" cfg); ok (some c)

  unfoldable pub from_config : Json → Result Failure (Option BaseConnector)
  from_config (obj fs) = elim (lookup "source_type" (fields fs)) [
    | none ↦ err key_error
    | some tag ↦ get tag >>= built (fields fs)
  ]
  from_config (arr vs) = err type_error
  from_config v = err missing_attribute

-- data = [c.to_config() for c in self.data_sources.values()], which is written to the file
unfoldable pub save_data_sources : List BaseConnector → Result Failure (List (Dict Json))
save_data_sources [] = ok []
save_data_sources (c ∷ cs) = do cfg ← to_config c; rest ← save_data_sources cs; ok (cfg ∷ rest)

unfoldable pub keep_source : Option BaseConnector → Dict BaseConnector → Dict BaseConnector
keep_source none sources = sources
keep_source (some c) sources = insert c.name c sources

module _ (setup : Setup) (fresh : ℕ → String) where
  -- the loop over the entries; an exception ends it, and what was registered stays. `n` counts the entries.
  unfoldable pub load_each :
      ℕ → List Json → Dict BaseConnector → Dict BaseConnector × Option Failure
  load_each n [] sources = (sources, none)
  load_each n (cfg ∷ cfgs) sources = elim (from_config setup (fresh n) cfg) [
    | err e ↦ (sources, some e)
    | ok c ↦ load_each (n + 1) cfgs (keep_source c sources)
  ]

  -- `for cfg in yaml.safe_load(f) or []`: a key of a dict and a character of a text are no dicts
  unfoldable pub load_data_sources : Json → Dict BaseConnector × Option Failure
  load_data_sources (arr vs) = load_each 0 (items vs) []
  load_data_sources (obj fs) = if truthy (obj fs) then ([], some missing_attribute) else ([], none)
  load_data_sources (str s) = if truthy (str s) then ([], some missing_attribute) else ([], none)
  load_data_sources v = if truthy v then ([], some type_error) else ([], none)

-- whether a global refresh follows
unfoldable pub refresh_follows : Dict BaseConnector × Option Failure → Bool
refresh_follows ([], none) = false
refresh_follows (c ∷ cs, none) = true
refresh_follows (cs, some e) = false
