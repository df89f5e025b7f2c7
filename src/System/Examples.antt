-- ===== src/System/Examples.antt =====
-- The theorems on the registries and on refreshes at concrete inputs.
use buchi_maker.Common.{
  if◌then◌else◌, all, lookup, insert, erase, ok, err, ℕ, ◌-◌, ◌*◌, ◌/◌, String, ◌≡◌, refl, true,
  false, not, none, some, List, [], ◌∷◌, ◌==◌,
}
use buchi_maker.Redis.Memory.{memory, empty}
use buchi_maker.Db.{a, b, Con}
use buchi_maker.Db.Paired.{IsPaired}
use buchi_maker.Db.Promotion.{slot_of}
use buchi_maker.Json.{Json, null, num, str, arr, nil, cons}
use buchi_maker.System.Schedule.{Scheduler, interval, cron, sync_scheduler, validate_auto_refresh}
use buchi_maker.System.Rate.{calls}
use buchi_maker.System.Sets.{
  Sets, done, activated, loaded as set_loaded, start as set_start, IsActive, Reachable-IsActive,
  load_widget_set, activate_widget_set,
}
use buchi_maker.System.Files.{Dash, Registry, load_dashboard}
use buchi_maker.System.Files.Unique.{
  loaded as file_loaded, start as file_start, IsUnique, Reachable-IsUnique,
}
use buchi_maker.System.Refresh.{World, System, content, global_refresh, register_data_source}
use buchi_maker.System.Refresh.Visible.{IsOutcome, global_refresh-IsOutcome}
use buchi_maker.System.Refresh.Register.{IsRegistration, register-IsRegistration}

-- three calls within a minute, and one after it: the third is refused
abbrev times : List ℕ
times = 1000 ∷ 2000 ∷ 3000 ∷ 61500 ∷ []

third_refused : calls [] [] times ≡ 1000 ∷ 2000 ∷ 61500 ∷ []
unfolding calls
third_refused = refl

abbrev two_sets : Sets
two_sets =
    (activate_widget_set "dark"
      (load_widget_set true done (ok (record { id = "dark"; folder_path = "sets/dark" }))
        (load_widget_set true done (ok (record { id = "default"; folder_path = "default" }))
          (record { registered = []; active = ""; saved = [] })).0).0).0

Reachable-IsActive_example : IsActive two_sets
unfolding load_widget_set
Reachable-IsActive_example =
    Reachable-IsActive false two_sets
      (activated "dark" (
        set_loaded true done (ok (record { id = "dark"; folder_path = "sets/dark" })) (
          set_loaded true done (ok (record { id = "default"; folder_path = "default" }))
            (set_start ""))))
      refl

abbrev loaded_dash : String → Dash
loaded_dash id = record { id = id; yaml_path = ""; source_table = "orders_view"; views = [] }

abbrev registered_dash : Registry
registered_dash =
    (load_dashboard (λ p. p) "sales.yaml" true (ok (loaded_dash "sales"))
      (record { dashboards = []; saved = []; effects = [] })).0

Reachable-IsUnique_example : IsUnique (λ p. p) registered_dash.dashboards
Reachable-IsUnique_example =
    Reachable-IsUnique (λ p. p) registered_dash
      (file_loaded "sales.yaml" true (ok (loaded_dash "sales")) file_start)

-- the same file under another identifier
refused_text :
    (load_dashboard (λ p. p) "sales.yaml" true (ok (loaded_dash "stock")) registered_dash).1
    ≡ "Validation error: File 'sales.yaml' is already registered under Dashboard ID 'sales'. Unregister it first."
unfolding load_dashboard buchi_maker.System.Files.registered buchi_maker.System.Files.checked
    buchi_maker.System.Files.other_id buchi_maker.System.Files.other_file buchi_maker.Common.lookup
    buchi_maker.System.Files.register buchi_maker.System.Files.save_dashboards
    buchi_maker.Common.insert
refused_text = refl

abbrev world : World
world = record {
  now = 100000;
  disk = record { connects = λ slot read_only. true; writes = true };
  read = λ name source. if source == "" then none else some source;
  broken = λ name source c. c;
  redis_fails = false;
  accepts = λ sql. true;
}

abbrev active : Con
active = record { id = 0; slot = a }

abbrev system : System memory
system = record {
  sources = ("orders", "orders.csv") ∷ [];
  bases =
      (
        "sales",
        record {
          source_table = "orders_view";
          base_view_sql = "CREATE VIEW orders_view AS SELECT * FROM orders";
          filters =
              ("h1", record { view_name = "__filter_h1"; query = "CREATE TABLE"; is_loaded = true })
              ∷ [];
        },
      )
      ∷ [];
  history = [];
  db = record {
    active = some active;
    standby = none;
    active_slot = some a;
    marker = none;
    opened = 1;
    closed = [];
  };
  store = record {
    in_a = record { tables = []; views = []; cached = [] };
    in_b = record { tables = []; views = []; cached = [] };
  };
  cache = record { available = true; store = empty };
  saved = [];
}

paired : IsPaired system.db
paired = (refl, tt)

refreshed :
    (slot_of (global_refresh world memory true system).0.db.active ≡ some b)
    × ((content b (global_refresh world memory true system).0.store).tables
        ≡ ("orders", "orders.csv") ∷ [])
unfolding global_refresh buchi_maker.System.Rate.admit buchi_maker.System.Refresh.do_refresh
    buchi_maker.System.Refresh.with_standby buchi_maker.Db.get_standby_db
    buchi_maker.System.Refresh.with_tables buchi_maker.System.Refresh.load_all
    buchi_maker.System.Refresh.with_views buchi_maker.System.Refresh.create_views
    buchi_maker.System.Refresh.promote buchi_maker.Db.promote_standby
    buchi_maker.System.Refresh.refill buchi_maker.System.Refresh.refresh_bases
    buchi_maker.System.Refresh.refresh_filters buchi_maker.System.Refresh.refresh_filter
    buchi_maker.Common.insert
refreshed = (refl, refl)

-- a source that cannot be read
register_refused :
    (register_data_source world memory true done "stock" "" system).0.sources ≡ system.sources
unfolding register_data_source buchi_maker.System.Refresh.settle global_refresh
    buchi_maker.System.Rate.admit buchi_maker.System.Refresh.do_refresh
    buchi_maker.System.Refresh.with_standby buchi_maker.Db.get_standby_db
    buchi_maker.System.Refresh.with_tables buchi_maker.System.Refresh.load_all insert
    buchi_maker.System.Refresh.roll_back lookup buchi_maker.Common.erase
register_refused = refl

global_refresh-IsOutcome_example :
    IsOutcome world memory active system (global_refresh world memory true system)
unfolding lookup
global_refresh-IsOutcome_example =
    global_refresh-IsOutcome world memory true active system refl paired (refl, tt)

register-IsRegistration_example :
    IsRegistration world memory active system "stock" "stock.csv"
      (register_data_source world memory true done "stock" "stock.csv" system)
unfolding lookup
register-IsRegistration_example =
    register-IsRegistration world memory true done active system "stock" "stock.csv" refl paired
      (refl, tt)

abbrev scheduler : Scheduler
scheduler = record {
  same = λ a b. false;
  accepts = λ job. elim job [ interval z id ↦ true | cron s id ↦ s == "0 * * * *" ];
}

abbrev hourly : Json
hourly = arr (cons (str "0 * * * *") (cons (str "@daily") nil))

-- the second job is refused
half_scheduled :
    (sync_scheduler scheduler hourly (record { last_auto_refresh = null; jobs = [] })).jobs
    ≡ cron "0 * * * *" "auto_refresh_0" ∷ []
unfolding sync_scheduler buchi_maker.Json.truthy buchi_maker.System.Schedule.add_each
    buchi_maker.System.Schedule.wanted buchi_maker.System.Schedule.cron_jobs
    buchi_maker.Python.Replace.show_nat
half_scheduled = refl

interval_as_text : validate_auto_refresh (λ s. false) (str "060") ≡ ok (num "60")
unfolding validate_auto_refresh buchi_maker.System.Schedule.interval_text
    buchi_maker.Python.Chars.is_decimal buchi_maker.Python.Number.int_of_text
    buchi_maker.Python.Replace.show_nat
interval_as_text = refl
