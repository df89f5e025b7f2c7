-- ===== src/Dashboard/Load/Queries.antt =====
-- Dashboard.load_yaml: totals, aggregates and mappings.
use buchi_maker.Common.{
  if◌then◌else◌, format, Dict, lookup, insert, Result, ◌>>=◌, ok, err, String, Bool, false, Option,
  none, some, List, [], ◌∷◌,
}
use buchi_maker.Json.{Json, str, obj, fields, truthy, str_of}
use buchi_maker.Validator.{sanitize_name}
use buchi_maker.Dashboard.{Summary, Aggregate}
use buchi_maker.Dashboard.Load.Base.{Python, Refusal, raised, iterate, validation}
use buchi_maker.Dashboard.Load.Text.{mentions, rstrip_semicolons}

-- One item of `totals` or `aggregates` that is kept.
pub record Item : Type 0 where
  pub name : String
  pub query : String
  pub entries : Dict Json

-- item["name"], sanitized; `none` is a KeyError or a ValueError, which skips the item
unfoldable pub name_of : String → Option Json → Result Refusal (Option String)
unfolding sanitize_name truthy
name_of field none = ok none
name_of field (some (str s)) = elim (sanitize_name s field) [ ok n ↦ ok (some n) | err e ↦ ok none ]
name_of field (some v) = if truthy v then err raised else ok none

-- item["query"], which the search takes as a text
unfoldable pub query_of : Option Json → Result Refusal (Option String)
query_of none = ok none
query_of (some (str q)) = ok (some q)
query_of (some v) = err raised

module _ (py : Python) (view_name kind : String) where
  wrong_source : String → Refusal
  wrong_source name = validation (
      format (
        kind ∷ " '" ∷ name ∷ "' must query the base_view '" ∷ view_name
        ∷ "', not the original data source." ∷ []))

  unfoldable pub checked_query : String → Dict Json → Option String → Result Refusal (Option Item)
  unfolding mentions wrong_source
  checked_query name entries none = ok none
  checked_query name entries (some query) =
      if mentions py.is_word view_name query
      then ok (some (record { name = name; query = query; entries = entries }))
      else err (wrong_source name)

  unfoldable pub checked_item : Dict Json → Option String → Result Refusal (Option Item)
  unfolding query_of checked_query
  checked_item entries none = ok none
  checked_item entries (some name) = do
    query ← query_of (lookup "query" entries)
    checked_query name entries query

  unfoldable pub item_of : Json → Result Refusal (Option Item)
  unfolding name_of checked_item
  item_of (obj fs) = do
    name ← name_of (format (kind ∷ " name" ∷ [])) (lookup "name" (fields fs))
    checked_item (fields fs) name
  item_of _ = err raised

  abbrev pub add_item : Option Item → List Item → List Item
  add_item none is = is
  add_item (some i) is = i ∷ is

  unfoldable pub items_of : List Json → Result Refusal (List Item)
  unfolding item_of
  items_of [] = ok []
  items_of (v ∷ vs) = do i ← item_of v; is ← items_of vs; ok (add_item i is)

-- data.get(key, []), ready to be iterated over
unfoldable pub listed : String → Dict Json → Result Refusal (List Json)
unfolding iterate
listed key definition = elim (lookup key definition) [
  | none ↦ ok []
  | some v ↦ elim (iterate v) [ none ↦ err raised | some vs ↦ ok vs ]
]

-- bool(item.get("unfiltered", False))
abbrev pub is_unfiltered : Item → Bool
is_unfiltered i = elim (lookup "unfiltered" i.entries) [ none ↦ false | some v ↦ truthy v ]

abbrev pub texts_of : (Json → String) → Dict Json → Dict String
texts_of repr [] = []
texts_of repr ((k, v) ∷ d) = (k, str_of repr v) ∷ texts_of repr d

-- item.get("column_aliases", {}) or {}: taken to be a dict of texts
abbrev pub aliases_of : (Json → String) → Option Json → Dict String
aliases_of repr (some (obj fs)) = texts_of repr (fields fs)
aliases_of repr _ = []

unfoldable pub summary_of : Item → Summary
unfolding rstrip_semicolons truthy
summary_of i = record {
  name = i.name;
  query = rstrip_semicolons i.query;
  unfiltered = is_unfiltered i;
}

unfoldable pub aggregate_from : (Json → String) → Item → Aggregate
unfolding rstrip_semicolons truthy str_of
aggregate_from repr i = record {
  name = i.name;
  query = rstrip_semicolons i.query;
  column_aliases = aliases_of repr (lookup "column_aliases" i.entries);
  unfiltered = is_unfiltered i;
}

-- self.mappings[k] = str(v), entry by entry
unfoldable pub add_entries : (Json → String) → Dict String → Dict Json → Dict String
unfolding str_of
add_entries repr found [] = found
add_entries repr found ((k, v) ∷ d) = add_entries repr (insert k (str_of repr v) found) d

abbrev pub add_mapping : (Json → String) → Dict String → Json → Dict String
add_mapping repr found (obj fs) = add_entries repr found (fields fs)
add_mapping repr found _ = found

unfoldable pub mappings_of : (Json → String) → Dict String → List Json → Dict String
unfolding add_entries
mappings_of repr found [] = found
mappings_of repr found (v ∷ vs) = mappings_of repr (add_mapping repr found v) vs
