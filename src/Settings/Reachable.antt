-- ===== src/Settings/Reachable.antt =====
-- The settings that a process can reach.
use buchi_maker.Common.{Dict, ok, String, ◌≡◌, Bool, Option, some}
use buchi_maker.Json.{Json, Items}
use buchi_maker.Python.Number.{ℤ}
use buchi_maker.Settings.{
  World, Saving, GeneralSettings, started, set_row_limit, set_redis_ttl_seconds, set_auto_refresh,
  set_active_widget_set, set_redis_host, set_redis_port, set_redis_password, set_redis_user,
  set_redis_tls_enabled, set_sql_api_enabled, set_anonymous_access, set_role_mappings, set_syslog,
  set_sso, update,
}

module _ (w : World) where
  -- The settings of a process, after any changes since its start, with files that may fail to be written.
  pub data Reachable : GeneralSettings → Type 0 where
    starts : (readable : Bool) (file : Option String) → Reachable (started w readable file)
    row_limit_set :
        {s t : GeneralSettings} (v : ℤ) (how : Saving)
        → Reachable s
        → set_row_limit w v how s ≡ ok t
        → Reachable t
    redis_ttl_set :
        {s t : GeneralSettings} (v : ℤ) (how : Saving)
        → Reachable s
        → set_redis_ttl_seconds w v how s ≡ ok t
        → Reachable t
    widget_set_set :
        {s t : GeneralSettings} (v : String) (how : Saving)
        → Reachable s
        → set_active_widget_set w v how s ≡ ok t
        → Reachable t
    auto_refresh_set :
        {s : GeneralSettings} (v : Json) (how : Saving)
        → Reachable s
        → Reachable (set_auto_refresh w v how s)
    redis_host_set :
        {s : GeneralSettings} (v : Option String) (how : Saving)
        → Reachable s
        → Reachable (set_redis_host w v how s)
    redis_port_set :
        {s : GeneralSettings} (v : Option ℤ) (how : Saving)
        → Reachable s
        → Reachable (set_redis_port w v how s)
    redis_password_set :
        {s : GeneralSettings} (v : Option String) (how : Saving)
        → Reachable s
        → Reachable (set_redis_password w v how s)
    redis_user_set :
        {s : GeneralSettings} (v : Option String) (how : Saving)
        → Reachable s
        → Reachable (set_redis_user w v how s)
    redis_tls_set :
        {s : GeneralSettings} (v : Option Bool) (how : Saving)
        → Reachable s
        → Reachable (set_redis_tls_enabled w v how s)
    sql_api_set :
        {s : GeneralSettings} (v : Bool) (how : Saving)
        → Reachable s
        → Reachable (set_sql_api_enabled w v how s)
    anonymous_set :
        {s : GeneralSettings} (v : Bool) (how : Saving)
        → Reachable s
        → Reachable (set_anonymous_access w v how s)
    role_mappings_set :
        {s : GeneralSettings} (v : Items) (how : Saving)
        → Reachable s
        → Reachable (set_role_mappings w v how s)
    syslog_set :
        {s t : GeneralSettings} (v : Dict Json) (how : Saving)
        → Reachable s
        → set_syslog w v how s ≡ some t
        → Reachable t
    sso_set :
        {s t : GeneralSettings} (v : Dict Json) (how : Saving)
        → Reachable s
        → set_sso w v how s ≡ some t
        → Reachable t
    updated :
        {s t : GeneralSettings} (v : Dict Json) (how : Saving)
        → Reachable s
        → update w v how s ≡ ok t
        → Reachable t
