-- ===== src/Connector/Restart.antt =====
-- Data sources across a restart. The YAML file is carried as the value that it stands for: safe_load gives back
-- what dump has written, up to the order of the keys in an entry, on which no call depends.
use buchi_maker.Common.{
  Bool-cases, length, all, Dict, lookup, insert, erase, values, ok, err, ℕ, suc, ◌+◌, String, ◌≡◌,
  refl, sym, ap, ◌∙◌, inl, inr, Bool, true, false, none, some, List, [], ◌∷◌, ◌++◌, arith, ◌==◌,
  eq_iff,
}
use mathlib.Core.List.{append_assoc, append-nil}
use buchi_maker.Json.{Json, str, arr, obj, Items, nil, cons, Fields, end, field}
use buchi_maker.Validator.{sanitize_name, validate_path_within_base}
use buchi_maker.Connector.{
  Source, csv_file, json_file, parquet_files, bigquery_table, BaseConnector, Setup, filepath,
  to_config, file_config, new_csv, new_json, new_parquet, init, text_of, only_knows, required,
  optional, within_data_dir, items, missing_attribute,
}
use buchi_maker.Connector.Registry.{
  from_config, built, construct, get, save_data_sources, load_each, keep_source, load_data_sources,
}

abbrev pub to_fields : Dict Json → Fields
to_fields [] = end
to_fields ((k, v) ∷ d) = field k v (to_fields d)

abbrev pub to_items : List (Dict Json) → Items
to_items [] = nil
to_items (d ∷ ds) = cons (obj (to_fields d)) (to_items ds)

-- the value of the file
abbrev pub file_of : List (Dict Json) → Json
file_of ds = arr (to_items ds)

abbrev pub is_file : Source → Bool
is_file (bigquery_table project dataset table credentials query) = false
is_file s = true

-- What the constructors have checked.
pub record IsBuilt (setup : Setup) (c : BaseConnector) : Type 0 where
  pub named : sanitize_name c.name "name" ≡ ok c.name
  pub placed :
      (path : String)
      → filepath c.source ≡ str path
      → validate_path_within_base setup.fs path setup.data_dir "filepath" ≡ ok path

-- the same connector in a new process, before its data is loaded
abbrev pub renewed : String → BaseConnector → BaseConnector
renewed id c = record c { id = id; last_updated = 0 }

abbrev pub all_renewed : (ℕ → String) → ℕ → Dict BaseConnector → Dict BaseConnector
all_renewed fresh n [] = []
all_renewed fresh n ((k, c) ∷ ds) = (k, renewed (fresh n) c) ∷ all_renewed fresh (n + 1) ds

-- Each file connector stands once, under its name.
abbrev pub IsKeyed : Setup → Dict BaseConnector → Type 0
IsKeyed setup [] = Unit
IsKeyed setup ((k, c) ∷ ds) =
    (k ≡ c.name)
    × (IsBuilt setup c × ((is_file c.source ≡ true) × ((lookup k ds ≡ none) × IsKeyed setup ds)))

module _ (setup : Setup) where
  config-reloaded :
      (id : String) (c : BaseConnector) (s : Source)
      → is_file s ≡ true
      → IsBuilt setup (record c { source = s })
      → (cfg : Dict Json) × ((to_config (record c { source = s }) ≡ ok cfg)
          × (from_config setup id (obj (to_fields cfg))
              ≡ ok (some (renewed id (record c { source = s })))))
  unfolding to_config file_config from_config built construct get lookup erase new_csv new_json
      new_parquet init text_of only_knows required optional within_data_dir
  config-reloaded id c (csv_file path) f h = (_, (refl, rw (h.named, h.placed path refl) refl))
  config-reloaded id c (json_file path) f h = (_, (refl, rw (h.named, h.placed path refl) refl))
  config-reloaded id c (parquet_files path hive) f h =
      (_, (refl, rw (h.named, h.placed path refl) refl))
  config-reloaded id c (bigquery_table project dataset table credentials query) f h = absurd (cc)

  insert-new :
      (k : String) (c : BaseConnector) (ds : Dict BaseConnector)
      → lookup k ds ≡ none
      → insert k c ds ≡ ds ++ (k, c) ∷ []
  unfolding insert lookup
  insert-new k c [] h = refl
  insert-new k c ((j, d) ∷ ds) h = ground (arith, insert-new k c ds)

  lookup-last :
      (j k : String) (c : BaseConnector) (ds : Dict BaseConnector)
      → lookup j ds ≡ none
      → (k == j) ≡ false
      → lookup j (ds ++ (k, c) ∷ []) ≡ none
  unfolding lookup
  lookup-last j k c [] h e = rw e refl
  lookup-last j k c ((i, d) ∷ ds) h e = ground (arith, lookup-last j k c ds)

  -- no key of `ds` is one of `sources`
  abbrev IsApart : Dict BaseConnector → Dict BaseConnector → Type 0
  IsApart sources [] = Unit
  IsApart sources ((k, c) ∷ ds) = (lookup k sources ≡ none) × IsApart sources ds

  insert-IsApart :
      (k : String) (c : BaseConnector) (sources ds : Dict BaseConnector)
      → lookup k ds ≡ none
      → IsApart sources ds
      → IsApart (sources ++ (k, c) ∷ []) ds
  unfolding lookup
  insert-IsApart k c sources [] h a = tt
  insert-IsApart k c sources ((j, d) ∷ ds) h (free, a) = elim (Bool-cases (j == k)) [
    | inl e ↦ absurd (cc (rw e at h))
    | inr e ↦ (
      lookup-last j k c sources free (ground (arith, eq_iff j k, eq_iff k j)),
      insert-IsApart k c sources ds (rw e at h) a,
    )
  ]

  IsApart-nil : (ds : Dict BaseConnector) → IsApart [] ds
  unfolding lookup
  IsApart-nil [] = tt
  IsApart-nil ((k, c) ∷ ds) = (refl, IsApart-nil ds)

  module _ (fresh : ℕ → String) where
    load_each-step :
        (n : ℕ) (cfg : Json) (cfgs : List Json) (sources : Dict BaseConnector) (c : BaseConnector)
        → from_config setup (fresh n) cfg ≡ ok (some c)
        → load_each setup fresh n (cfg ∷ cfgs) sources
          ≡ load_each setup fresh (n + 1) cfgs (insert c.name c sources)
    unfolding load_each keep_source
    load_each-step n cfg cfgs sources c h = rw (h, load_each) refl

    load_each-saved :
        (n : ℕ) (ds sources : Dict BaseConnector)
        → IsKeyed setup ds
        → IsApart sources ds
        → (saved : List (Dict Json)) × ((save_data_sources (values ds) ≡ ok saved)
            × (load_each setup fresh n (items (to_items saved)) sources
                ≡ (sources ++ all_renewed fresh n ds, none)))
    unfolding save_data_sources load_each keep_source
    load_each-saved n [] sources h a =
        ([], (refl, ap (λ (x : Dict BaseConnector). (x, none)) (sym (append-nil sources))))
    load_each-saved n ((k, c) ∷ ds) sources (same, (ready, (file, (once, h)))) (free, a) =
        let (cfg, (saves, reloads)) = config-reloaded (fresh n) c c.source file ready in
        let (rest, (rest_saves, rest_reloads)) =
          load_each-saved (n + 1) ds (sources ++ (k, renewed (fresh n) c) ∷ []) h
            (insert-IsApart k _ sources ds once a) in
        let kept : insert c.name (renewed (fresh n) c) sources
            ≡ sources ++ (k, renewed (fresh n) c) ∷ [] =
          ap (λ (x : String). insert x (renewed (fresh n) c) sources) (sym same)
          ∙ insert-new k (renewed (fresh n) c) sources free in
        (
          cfg ∷ rest,
          (
            rw (saves, rest_saves) refl,
            load_each-step n (obj (to_fields cfg)) (items (to_items rest)) sources _ reloads
                ∙ ap (load_each setup fresh (n + 1) (items (to_items rest))) kept
                ∙ rest_reloads
                ∙ ap (λ (x : Dict BaseConnector). (x, none)) (append_assoc sources _ _),
          ),
        )

    -- File connectors that were built and stand under their names are all written to the file, and a process that reads
    -- the file has the same connectors under the same names, in the same order, with new ids and no data loaded yet.
    pub load_data_sources-saved :
        (ds : Dict BaseConnector)
        → IsKeyed setup ds
        → (saved : List (Dict Json)) × ((save_data_sources (values ds) ≡ ok saved)
            × (load_data_sources setup fresh (file_of saved) ≡ (all_renewed fresh 0 ds, none)))
    unfolding load_data_sources
    load_data_sources-saved ds h = load_each-saved 0 ds [] h (IsApart-nil ds)

to_config-file :
    (c : BaseConnector) (s : Source)
    → is_file s ≡ true
    → (cfg : Dict Json) × (to_config (record c { source = s }) ≡ ok cfg)
unfolding to_config
to_config-file c (csv_file path) h = (_, refl)
to_config-file c (json_file path) h = (_, refl)
to_config-file c (parquet_files path hive) h = (_, refl)
to_config-file c (bigquery_table project dataset table credentials query) h = absurd (cc)

to_config-bigquery :
    (c : BaseConnector) (s : Source)
    → is_file s ≡ false
    → to_config (record c { source = s }) ≡ err missing_attribute
unfolding to_config
to_config-bigquery c (csv_file path) h = absurd (cc)
to_config-bigquery c (json_file path) h = absurd (cc)
to_config-bigquery c (parquet_files path hive) h = absurd (cc)
to_config-bigquery c (bigquery_table project dataset table credentials query) h = refl

-- How the writing of a list ends, by whether it holds file connectors only.
abbrev pub IsSaving : List BaseConnector → Bool → Type 0
IsSaving cs true =
    (saved : List (Dict Json)) × ((save_data_sources cs ≡ ok saved) × (length saved ≡ length cs))
IsSaving cs false = save_data_sources cs ≡ err missing_attribute

save_cons-IsSaving :
    (c : BaseConnector) (cs : List BaseConnector) (rest : Bool)
    → is_file c.source ≡ true
    → IsSaving cs rest
    → IsSaving (c ∷ cs) rest
unfolding save_data_sources
save_cons-IsSaving c cs true file (saved, (e, same)) =
    let (cfg, p) = to_config-file c c.source file in (cfg ∷ saved, (rw (p, e) refl, ap suc same))
save_cons-IsSaving c cs false file e =
    let (cfg, p) = to_config-file c c.source file in rw (p, e) refl

-- Without a BigQuery connector, the list is written with one entry for each connector. One BigQuery
-- connector is enough that nothing is written, whichever the others are: its configuration raises an AttributeError.
pub save_data_sources-IsSaving :
    (cs : List BaseConnector) → IsSaving cs (all (λ c. is_file c.source) cs)
unfolding save_data_sources
save_data_sources-IsSaving [] = ([], (refl, refl))
save_data_sources-IsSaving (c ∷ cs) = elim (Bool-cases (is_file c.source)) [
  | inl file ↦ rw file (save_cons-IsSaving c cs _ file (save_data_sources-IsSaving cs))
  | inr bigquery ↦ rw (bigquery, to_config-bigquery c c.source bigquery) refl
]
