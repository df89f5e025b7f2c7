-- ===== src/System/Files.antt =====
-- SystemManager: which dashboards are registered, each from a file of its own.
pub mod Unique
use buchi_maker.Common.{
  if◌then◌else◌, all, keep, drop, format, Dict, lookup, insert, erase, values, Result, ok, err, ◌+◌,
  ◌-◌, String, ap, Bool, true, false, not, ◌&&◌, Option, none, some, List, [], ◌∷◌, ◌++◌, map, ◌==◌,
}

-- A registered dashboard, as far as the registry uses it: `views` are the tables of its filters.
pub record Dash : Type 0 where
  pub id : String
  pub yaml_path : String
  pub source_table : String
  pub views : List String

-- What is done on the way: statements for the active database, and the cached answers that are dropped.
pub data Effect : Type 0 where
  executed : String → Effect
  busted : String → Effect

-- `saved` is what the file of the registry lists
pub record Registry : Type 0 where
  pub dashboards : Dict Dash
  pub saved : List String
  pub effects : List Effect

-- _save_dashboards
unfoldable pub save_dashboards : Registry → Registry
save_dashboards s = record s {
  saved = keep (λ p. not (p == "")) (map (λ (d : Dash). d.yaml_path) (values s.dashboards));
}

abbrev pub drop_table : String → Effect
drop_table view = executed (format ("DROP TABLE IF EXISTS " ∷ view ∷ []))

-- _drop_all_filters
unfoldable pub drop_all_filters : Dash → List Effect
drop_all_filters d = map drop_table d.views

-- drop_base_view
unfoldable pub drop_base_view : Dash → List Effect
drop_base_view d =
    if d.source_table == ""
    then []
    else executed (format ("DROP VIEW IF EXISTS " ∷ d.source_table ∷ [])) ∷ []

module _ (resolve : String → String) where
  -- the first dashboard that the file belongs to already, under another id
  unfoldable pub other_id : (path id : String) → Dict Dash → Option String
  other_id path id [] = none
  other_id path id ((k, d) ∷ ds) =
      let rest = other_id path id ds in
      if not (d.yaml_path == "") && resolve d.yaml_path == resolve path && not (k == id)
      then some k
      else rest

  -- the file that the id belongs to already
  unfoldable pub other_file : String → Option Dash → Option String
  other_file path none = none
  other_file path (some old) =
      if not (old.yaml_path == "") && not (resolve old.yaml_path == resolve path)
      then some old.yaml_path
      else none

  -- what a reload does away with: the filters, and a base view that has another name now
  unfoldable pub leave_old : Dash → Option Dash → List Effect
  leave_old dash none = []
  leave_old dash (some old) =
      drop_all_filters old
      ++ (if old.source_table == dash.source_table then [] else drop_base_view old)

  abbrev pub keep_saved : Bool → Registry → Registry
  keep_saved save s = if save then save_dashboards s else s

  unfoldable pub register : Bool → Dash → Registry → Registry
  register save dash s =
      let kept = keep_saved save (record s {
        dashboards = insert dash.id dash s.dashboards;
        effects = s.effects ++ leave_old dash (lookup dash.id s.dashboards);
      }) in
      record kept { effects = kept.effects ++ busted dash.id ∷ [] }

  -- the checks on files and identifiers
  unfoldable pub checked : (path : String) → Dash → Registry → Result String (Unit {0})
  checked path dash s = elim (other_id path dash.id s.dashboards) [
    | some id ↦ err (
        format (
          "Validation error: File '" ∷ path ∷ "' is already registered under Dashboard ID '" ∷ id
          ∷ "'. Unregister it first." ∷ []))
    | none ↦ elim (other_file path (lookup dash.id s.dashboards)) [
      | some file ↦ err (
          format (
            "Validation error: Dashboard ID '" ∷ dash.id
            ∷ "' is already registered by another file: " ∷ file ∷ []))
      | none ↦ ok tt
    ]
  ]

  unfoldable pub registered : Bool → Dash → Registry → Result String (Unit {0}) → Registry × String
  registered save dash s (err e) = (s, e)
  registered save dash s (ok u) = (register save dash s, "")

  -- `loaded` is the answer of Dashboard.load_yaml, whose dashboard keeps the path that it was read from
  unfoldable pub load_dashboard :
      (path : String) → Bool → Result String Dash → Registry → Registry × String
  load_dashboard path save (err e) s = (s, e)
  load_dashboard path save (ok loaded) s =
      let dash = record loaded { yaml_path = path } in registered save dash s (checked path dash s)

unfoldable pub drop_dashboard : String → Option Dash → Registry → Registry × Bool
drop_dashboard id none s = (s, false)
drop_dashboard id (some dash) s = (
  save_dashboards (record s {
    dashboards = erase id s.dashboards;
    effects = s.effects ++ (drop_all_filters dash ++ drop_base_view dash);
  }),
  true,
)

unfoldable pub remove_dashboard : String → Registry → Registry × Bool
remove_dashboard id s = drop_dashboard id (lookup id s.dashboards) s
