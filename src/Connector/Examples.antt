-- ===== src/Connector/Examples.antt =====
-- Two connectors in a data directory.
use buchi_maker.Common.{
  eqb, if◌then◌else◌, Dict, lookup, values, OnOk, ok, ℕ, String, ◌≡◌, refl, subst, true, false,
  none, some, List, [], ◌∷◌, ◌==◌,
}
use buchi_maker.Json.{Json, null, bool, str}
use buchi_maker.Validator.{sanitize_name, validate_path_within_base}
use buchi_maker.Connector.{
  BaseConnector, Setup, csv_file, parquet_files, bigquery_table, missing_attribute, new_csv,
  value_error,
}
use buchi_maker.Connector.Registry.{save_data_sources, load_data_sources, list_types}
use buchi_maker.Connector.Load.{
  Engine, load, plain, execute, view_text, file_not_found, database_error,
}
use buchi_maker.Connector.Literal.{load-literal, head_text, tail_text, first_literal, all_plain}
use buchi_maker.Connector.Restart.{
  IsBuilt, IsKeyed, IsSaving, file_of, all_renewed, load_data_sources-saved,
  save_data_sources-IsSaving,
}

abbrev setup : Setup
setup = record {
  fs = record {
    resolve = λ p.
        if p == "/etc/passwd"
        then "etc" ∷ []
        else if p == "/data"
        then "data" ∷ []
        else "data" ∷ p ∷ [];
    show = λ p. "/data";
  };
  data_dir = "/data";
  repr = λ v. "[]";
}

abbrev orders : BaseConnector
orders = record {
  id = "1";
  name = "orders";
  title = str "Orders";
  description = null;
  source = csv_file "/data/orders.csv";
  last_updated = 12;
}

abbrev sales : BaseConnector
sales = record {
  id = "2";
  name = "sales";
  title = str "Sales";
  description = null;
  source = parquet_files "/data/o'neil.parquet" (bool true);
  last_updated = 30;
}

abbrev stream : BaseConnector
stream = record sales { name = "stream"; source = bigquery_table null null null null null }

abbrev engine : Engine
engine = record {
  exists = λ p. p == "/data/orders.csv";
  as_posix = λ p. p;
  accepts = λ sent s. true;
  has_bigquery = false;
  fetches = λ p c q. false;
}

-- a name that is no identifier is accepted
accepts_comment :
    OnOk
      (λ (c : BaseConnector). c.name ≡ "t AS SELECT 1 --")
      (new_csv setup "3" (str "t AS SELECT 1 --") null (str "/data/orders.csv") null)
unfolding new_csv buchi_maker.Connector.init buchi_maker.Connector.text_of
    buchi_maker.Validator.sanitize_name buchi_maker.Connector.within_data_dir
    buchi_maker.Validator.validate_path_within_base
accepts_comment = refl

outside :
    OnOk (λ (c : BaseConnector). ⊥) (new_csv setup "3" (str "orders") null (str "/etc/passwd") null)
unfolding new_csv buchi_maker.Connector.init buchi_maker.Connector.text_of
    buchi_maker.Validator.sanitize_name buchi_maker.Connector.within_data_dir
    buchi_maker.Validator.validate_path_within_base
outside = tt

quotes_doubled :
    view_text "sales" "/data/o'neil.parquet" true
    ≡ "CREATE OR REPLACE VIEW sales AS SELECT * FROM read_parquet('/data/o''neil.parquet', hive_partitioning=true)"
unfolding view_text buchi_maker.Connector.Load.escaped buchi_maker.Python.Replace.replace
quotes_doubled = refl

csv_loads : (load engine 50 orders).connector.last_updated ≡ 50
unfolding load buchi_maker.Connector.Load.finish buchi_maker.Connector.Load.run
    buchi_maker.Connector.Load.csv_steps
csv_loads = refl

csv_missing :
    (load engine 50 (record orders { source = csv_file "/data/x.csv" })).failure
    ≡ some (file_not_found "CSV file not found: /data/x.csv")
unfolding load
csv_missing = refl

refused_keeps : (load (record engine { accepts = λ sent s. false }) 50 orders).connector ≡ orders
unfolding load buchi_maker.Connector.Load.finish buchi_maker.Connector.Load.run
    buchi_maker.Connector.Load.csv_steps
refused_keeps = refl

types : list_types ≡ "csv" ∷ "json" ∷ "parquet" ∷ "bigquery" ∷ []
unfolding list_types
types = refl

abbrev both : Dict BaseConnector
both = ("orders", orders) ∷ ("sales", sales) ∷ []

data_files :
    (file path : String)
    → validate_path_within_base setup.fs file "/data" "filepath" ≡ ok file
    → str file ≡ str path
    → validate_path_within_base setup.fs path "/data" "filepath" ≡ ok path
data_files file path h e =
    subst (λ p. validate_path_within_base setup.fs p "/data" "filepath" ≡ ok p) (cc) h

orders-IsBuilt : IsBuilt setup orders
unfolding sanitize_name validate_path_within_base
orders-IsBuilt = record {
  named = refl;
  placed = λ path e. data_files "/data/orders.csv" path refl e;
}

sales-IsBuilt : IsBuilt setup sales
unfolding sanitize_name validate_path_within_base
sales-IsBuilt = record {
  named = refl;
  placed = λ path e. data_files "/data/o'neil.parquet" path refl e;
}

both-IsKeyed : IsKeyed setup both
unfolding lookup
both-IsKeyed = (refl, (orders-IsBuilt, (refl, (refl, (refl, (sales-IsBuilt, (refl, (refl, tt))))))))

abbrev ids : ℕ → String
ids n = if eqb n 0 then "3" else "4"

load_data_sources-saved_example :
    (saved : List (Dict Json)) × ((save_data_sources (values both) ≡ ok saved)
      × (load_data_sources setup ids (file_of saved) ≡ (all_renewed ids 0 both, none)))
load_data_sources-saved_example = load_data_sources-saved setup ids both both-IsKeyed

save_data_sources-IsSaving_example : IsSaving (orders ∷ stream ∷ []) false
save_data_sources-IsSaving_example = save_data_sources-IsSaving (orders ∷ stream ∷ [])

load-literal_example :
    (text : String) × (((load engine 50 sales).sent
        ≡ plain ("DROP VIEW IF EXISTS " ∷ "sales" ∷ [])
          ∷ plain ("DROP TABLE IF EXISTS " ∷ "sales" ∷ [])
          ∷ execute text []
          ∷ [])
      × (first_literal text ≡ some (head_text "sales", ("/data/o'neil.parquet", tail_text true))))
unfolding buchi_maker.Json.truthy all_plain buchi_maker.Connector.Literal.is_plain
load-literal_example = load-literal engine 50 sales "/data/o'neil.parquet" (bool true) refl refl
