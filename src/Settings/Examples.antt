-- ===== src/Settings/Examples.antt =====
-- Settings with a small file, and a request that changes some of them.
use buchi_maker.Common.{
  if◌then◌else◌, OnSome, Dict, lookup, insert, OnOk, err, ◌≡◌, refl, true, false, Option, none,
  some, [], ◌∷◌, ◌==◌,
}
use mathlib.Core.Option
use buchi_maker.Json.{Json, null, bool, num, str, obj, fields}
use buchi_maker.Python.Number.{ℤ, pos}
use buchi_maker.Dashboard.Load.Base.{Python, whole, refused}
use buchi_maker.Settings.{
  assign, load, save, below, defaults, of_dict, World, Saving, written, unchanged, cut_off,
  GeneralSettings, started, set_redis_host, set_row_limit, update, row_limit, sso, setting_of,
}
use buchi_maker.Settings.Reachable.{starts, redis_host_set}
use buchi_maker.Settings.Restart.{IsReread, save-restarted}
use buchi_maker.Settings.Api.{
  all_set, answered, missing_file, with_redis, with_row_limit, SystemSettings, Update,
  update_settings, raised, value_error,
}

abbrev python : Python
python = record {
  repr = λ v. "[]";
  quoted = λ v. "''";
  truncate = λ n. refused;
  is_word = λ c. true;
  exceeds = λ a b n. false;
  sum_text = λ a b. "0";
  fresh = λ n. "w";
}

abbrev changed : Dict Json
changed = insert "redis_host" (str "redis") defaults

-- PyYAML, for one text
abbrev world : World
world = record {
  python = python;
  dump = λ d. "redis_host: redis";
  safe_load = λ text. if text == "redis_host: redis" then some (obj (of_dict changed)) else none;
  as_pairs = λ v. none;
  getenv = λ name. if name == "OIDC_CLIENT_ID" then some "buchi" else none;
  anonymous_user = none;
}

abbrev first : GeneralSettings
first = started world true none

abbrev second : GeneralSettings
second = set_redis_host world (some "redis") written first

host_kept : setting_of "redis_host" (started world true second.file) ≡ str "redis"
unfolding setting_of lookup started buchi_maker.Settings.load set_redis_host
    buchi_maker.Settings.assign buchi_maker.Settings.save buchi_maker.Settings.read_file
    buchi_maker.Settings.loaded_dict buchi_maker.Settings.apply_syslog buchi_maker.Settings.dict_of
    buchi_maker.Settings.fill defaults insert
host_kept = refl

not_written : (set_redis_host world (some "redis") unchanged first).file ≡ none
unfolding set_redis_host buchi_maker.Settings.assign buchi_maker.Settings.save started
    buchi_maker.Settings.load
not_written = refl

no_limit : set_row_limit world (pos 0) written first ≡ err "row_limit must be >= 1."
unfolding set_row_limit buchi_maker.Settings.below
no_limit = refl

limit_set :
    OnOk (λ s. row_limit world s ≡ whole (pos 20)) (set_row_limit world (pos 20) written first)
unfolding set_row_limit buchi_maker.Settings.below row_limit buchi_maker.Dashboard.Load.Base.int_of
    setting_of lookup buchi_maker.Settings.assign buchi_maker.Settings.save insert started
    buchi_maker.Settings.load defaults buchi_maker.Python.Number.int_of_text
    buchi_maker.Dashboard.Load.Base.show_int buchi_maker.Python.Replace.show_nat
limit_set = refl

-- a batch is not checked
batch_unchecked :
    OnOk
      (λ s. setting_of "row_limit" s ≡ num "-5")
      (update world (("row_limit", num "-5") ∷ []) written first)
unfolding update lookup defaults setting_of buchi_maker.Settings.save
    buchi_maker.Settings.update_dict insert started buchi_maker.Settings.load
batch_unchecked = refl

batch_unknown : update world (("rows", num "5") ∷ []) written first ≡ err "Unknown setting keys: "
unfolding update lookup defaults
batch_unknown = refl

environment_used : OnSome (λ d. lookup "client_id" d ≡ some (str "buchi")) (sso world first)
unfolding sso buchi_maker.Settings.dict_of setting_of lookup started buchi_maker.Settings.load
    defaults insert buchi_maker.Settings.from_environment buchi_maker.Json.truthy
environment_used = refl

abbrev request : SystemSettings
request = record {
  new_auto_refresh = none;
  new_redis_host = some "other";
  new_redis_port = none;
  new_redis_password = none;
  new_redis_user = none;
  new_redis_tls_enabled = none;
  new_row_limit = some (pos 0);
  new_redis_ttl_seconds = none;
  new_sql_api_enabled = none;
  new_syslog = none;
}

abbrev answer : Update
answer =
    update_settings world (λ p. false) "main.duckdb" (λ k. written) (λ shown. true) request second

-- the host is changed and the request fails
half_done :
    (setting_of "redis_host" answer.settings ≡ str "other")
    × ((answer.answer ≡ raised (value_error "row_limit must be >= 1."))
        × (answer.reconnected ≡ false))
unfolding update_settings all_set answered missing_file with_redis with_row_limit set_redis_host
    set_row_limit assign started load save insert defaults setting_of lookup below
half_done = (refl, (refl, refl))

map_same : (o : Option Json) → o ≡ Option.map (λ v. v) o
map_same none = refl
map_same (some v) = refl

second-IsReread : IsReread world (λ v. v) second.current
unfolding set_redis_host assign started load save insert defaults
second-IsReread = record {
  reread = of_dict changed;
  reads = refl;
  same = λ k. map_same (lookup k changed);
}

save-restarted_example :
    lookup "redis_host" (started world true (save world written second).file).current
    ≡ Option.map (λ v. v) (lookup "redis_host" second.current)
save-restarted_example =
    save-restarted world (λ v. v) (redis_host_set (some "redis") written (starts true none))
      second-IsReread "redis_host"
