-- ===== src/Dashboard/Filters/Examples.antt =====
-- The filter cache at concrete inputs: one filter is set, queried never, and trimmed.
use buchi_maker.Common.{
  if◌then◌else◌, all, drop, join, lookup, insert, ok, ◌+◌, ◌-◌, ◌*◌, String, ◌≡◌, refl, ap, Bool,
  true, false, not, some, List, [], ◌∷◌, map, ◌==◌,
}
use buchi_maker.Dashboard.Filters.Data.{Reader, FilterData, read_rows}
use buchi_maker.Dashboard.Filters.{
  RawCondition, State, set_filters, trim_filters, refresh_filters, list_virtual_tables,
  where_clause,
}
use buchi_maker.Dashboard.Filters.Owned.{
  IsOwned, start, applied, all_refreshed, empty, Reachable-IsOwned,
}

abbrev north : List RawCondition
north = record { field = "orders.region"; operator = "="; value = "north" } ∷ []

abbrev hash : List RawCondition → String
hash cs = join "," (map (λ (c : RawCondition). c.value) cs)

abbrev accepts : String → Bool
accepts sql = true

abbrev refuses : String → Bool
refuses sql = false

abbrev after_set : State
after_set = (set_filters accepts hash 1700000000000 north (empty "orders_view" 10 30)).0

created : after_set.tables ≡ "__filter_north" ∷ []
unfolding set_filters buchi_maker.Common.lookup buchi_maker.Dashboard.Filters.refresh
    buchi_maker.Dashboard.Filters.new_filter buchi_maker.Dashboard.Filters.drop_table
created = refl

-- a new filter counts as never queried, so that the next trim removes it
gone_at_once : (trim_filters accepts hash 1700000001000 after_set).0.tables ≡ []
unfolding trim_filters buchi_maker.Dashboard.Filters.forget_all
    buchi_maker.Dashboard.Filters.stale_hashes set_filters buchi_maker.Common.lookup
    buchi_maker.Dashboard.Filters.refresh buchi_maker.Common.insert
    buchi_maker.Dashboard.Filters.new_filter buchi_maker.Dashboard.Filters.drop_table
gone_at_once = refl

-- a table that DuckDB refuses to create again stays listed
listed_but_gone :
    ((refresh_filters refuses hash 1700000002000 after_set).0.tables ≡ [])
    × (list_virtual_tables (refresh_filters refuses hash 1700000002000 after_set).0
        ≡ "__filter_north" ∷ [])
unfolding refresh_filters buchi_maker.Dashboard.Filters.refresh_each set_filters
    buchi_maker.Common.lookup buchi_maker.Dashboard.Filters.refresh buchi_maker.Common.insert
    buchi_maker.Dashboard.Filters.drop_table buchi_maker.Dashboard.Filters.new_filter
    list_virtual_tables
listed_but_gone = (refl, refl)

-- a quote ends the text that it stands in
not_escaped :
    where_clause (record { field = "region"; operator = "="; value = "x' OR '1'='1" } ∷ [])
    ≡ "region = 'x' OR '1'='1'"
unfolding where_clause buchi_maker.Dashboard.Filters.clause_text buchi_maker.Python.Float.is_float
    buchi_maker.Python.Replace.split
not_escaped = refl

Reachable-IsOwned_example : IsOwned (refresh_filters accepts hash 1700000002000 after_set).0
Reachable-IsOwned_example =
    Reachable-IsOwned accepts hash (refresh_filters accepts hash 1700000002000 after_set).0
      (all_refreshed 1700000002000 (applied 1700000000000 north (start "orders_view" 10 30)))

-- rows of one byte each, but for the long one
abbrev reader : Reader String
reader = record {
  select = λ table. some ("a" ∷ "long" ∷ "b" ∷ []);
  bytes = λ row. if row == "long" then some (1024 * 1024) else some 1;
  payload_bytes = λ rows. some (1024 * 1024 + 8);
}

cut_off :
    read_rows reader 1 (some ("a" ∷ "long" ∷ "b" ∷ []))
    ≡ record { rows = "a" ∷ []; truncated = true; truncated_at_mb = some 1 }
unfolding read_rows buchi_maker.Dashboard.Filters.Data.sized
    buchi_maker.Dashboard.Filters.Data.fitting
cut_off = refl
