-- ===== src/Cache/Examples.antt =====
-- The theorem on invalidation at a concrete history, and runs of the cache on a store in memory.
use buchi_maker.Common.{
  All, lookup, insert, ok, ◌-◌, String, ◌≡◌, refl, true, false, not, none, some, List, [], ◌∷◌,
  arith, ◌==◌,
}
use buchi_maker.Redis.Memory.{memory, empty}
use buchi_maker.Cache.{Client, data_key, get, set, invalidate_datasource, invalidate_dashboard}
use buchi_maker.Cache.Index.{Sources}
use buchi_maker.Cache.Evicts.{
  Event, stored, passed, reloaded, after, IsComplete, invalidate_datasource-evicts,
}

abbrev cache : Client memory
cache = record { available = true; store = empty }

-- every payload uses the orders
abbrev uses : Sources
uses key name = "orders" == name

abbrev history : List Event
history =
    stored "sales" "h1" "{}" ("orders" ∷ "regions" ∷ [])
    ∷ passed 100
    ∷ stored "sales" "h2" "[]" ("orders" ∷ [])
    ∷ reloaded "regions"
    ∷ []

history-IsComplete : All (IsComplete uses) history
history-IsComplete = (λ n h. ground arith, (tt, (λ n h. ground arith, (tt, tt))))

nothing_yet : (k : String) → memory.value cache.store k ≡ none
unfolding lookup
nothing_yet k = refl

invalidate_datasource-evicts_example :
    get memory false
      (invalidate_datasource memory false (after memory 300 cache history) "orders")
      "sales"
      "h2"
    ≡ none
invalidate_datasource-evicts_example =
    invalidate_datasource-evicts memory 300 uses cache history "sales" "h2" "orders" (omega arith)
      nothing_yet (λ k. refl) history-IsComplete refl

-- before the orders are reloaded, the second payload is there, and the first went with the regions
second_served : get memory false (after memory 300 cache history) "sales" "h2" ≡ some "[]"
unfolding get after invalidate_datasource set lookup buchi_maker.Cache.index_key data_key
    buchi_maker.Common.insert
second_served = refl

first_gone : get memory false (after memory 300 cache history) "sales" "h1" ≡ none
unfolding get after invalidate_datasource set lookup buchi_maker.Cache.index_key data_key
    buchi_maker.Common.insert
first_gone = refl

-- an exception after the first command leaves a payload that no index lists
unindexed :
    get memory false
      (invalidate_datasource memory false
        (set memory (some 1) cache "sales" "h1" "{}" ("orders" ∷ []) 300)
        "orders")
      "sales"
      "h1"
    ≡ some "{}"
unfolding get invalidate_datasource set lookup data_key buchi_maker.Cache.index_key
    buchi_maker.Common.insert
unindexed = refl

dashboard_invalidated :
    get memory false
      (invalidate_dashboard memory false (after memory 300 cache history) "sales")
      "sales"
      "h2"
    ≡ none
unfolding get invalidate_dashboard after invalidate_datasource set lookup
    buchi_maker.Cache.index_key data_key buchi_maker.Common.insert buchi_maker.Python.Replace.starts
dashboard_invalidated = refl
