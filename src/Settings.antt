-- ===== src/Settings.antt =====
-- backend/app/core/general_settings.py: the settings that live in ./settings/general.yaml.
pub mod Defaults
pub mod Reachable
pub mod Complete
pub mod Restart
pub mod Api
mod Examples
use buchi_maker.Common.{
  if◌then◌else◌, all, Dict, lookup, insert, keys, has_key, Result, ok, err, suc, ◌+◌, ◌-◌, ◌*◌, ◌/◌,
  String, ap, Bool, not, ◌||◌, Option, none, some, List, [], ◌∷◌, ◌++◌, map, ◌==◌,
}
unfoldable pub use Defaults.*
use buchi_maker.Json.{
  Json, null, bool, num, str, arr, obj, Items, nil, cons, Fields, end, field, items, fields, truthy,
  str_of,
}
use buchi_maker.Python.Number.{ℤ, pos, negsuc}
use buchi_maker.Dashboard.Load.Base.{Python, Conversion, whole, show_int, int_of, iterate}
use buchi_maker.Validator.{is_blank}

-- the getters that only look up; `list` of a value that cannot be iterated raises
unfoldable pub auto_refresh : GeneralSettings → Json
auto_refresh s = setting_of "auto_refresh" s

unfoldable pub redis_host : GeneralSettings → Json
redis_host s = setting_of "redis_host" s

unfoldable pub redis_password : GeneralSettings → Json
redis_password s = setting_of "redis_password" s

unfoldable pub redis_user : GeneralSettings → Json
redis_user s = setting_of "redis_user" s

unfoldable pub redis_tls_enabled : GeneralSettings → Json
redis_tls_enabled s = setting_of "redis_tls_enabled" s

unfoldable pub role_mappings : GeneralSettings → Option (List Json)
role_mappings s = iterate (setting_of "role_mappings" s)

unfoldable pub as_dict : GeneralSettings → Dict Json
as_dict s = s.current

module _ (w : World) where
  -- dict(value)
  unfoldable pub dict_of : Json → Option (Dict Json)
  dict_of (obj fs) = some (fields fs)
  dict_of v = w.as_pairs v

  -- _save: an exception is logged
  unfoldable pub save : Saving → GeneralSettings → GeneralSettings
  save written s = record s { file = some (w.dump s.current) }
  save unchanged s = s
  save (cut_off text) s = record s { file = some text }

  -- _apply_syslog; `none` is the exception of `dict`
  unfoldable pub apply_syslog : GeneralSettings → GeneralSettings
  apply_syslog s = elim (dict_of (setting_of "syslog" s)) [
    | none ↦ s
    | some d ↦ record s { configured = s.configured ++ syslog_call d ∷ [] }
  ]

  -- self._data[key] = value; self._save()
  unfoldable pub assign : String → Json → Saving → GeneralSettings → GeneralSettings
  assign key v how s = save how (record s { current = insert key v s.current })

  -- the setters; the error is the message of the ValueError
  unfoldable pub set_row_limit : ℤ → Saving → GeneralSettings → Result String GeneralSettings
  set_row_limit v how s =
      if below 1 v
      then err "row_limit must be >= 1."
      else ok (assign "row_limit" (num (show_int v)) how s)

  unfoldable pub set_redis_ttl_seconds :
      ℤ → Saving → GeneralSettings → Result String GeneralSettings
  set_redis_ttl_seconds v how s =
      if below 0 v
      then err "redis_ttl_seconds must be >= 0."
      else ok (assign "redis_ttl_seconds" (num (show_int v)) how s)

  unfoldable pub set_auto_refresh : Json → Saving → GeneralSettings → GeneralSettings
  set_auto_refresh v how s = assign "auto_refresh" v how s

  unfoldable pub set_active_widget_set :
      String → Saving → GeneralSettings → Result String GeneralSettings
  set_active_widget_set v how s =
      if v == "" || is_blank v
      then err "active_widget_set must not be empty."
      else ok (assign "active_widget_set" (str v) how s)

  unfoldable pub set_redis_host : Option String → Saving → GeneralSettings → GeneralSettings
  set_redis_host v how s = assign "redis_host" (text_or_none v) how s

  unfoldable pub set_redis_port : Option ℤ → Saving → GeneralSettings → GeneralSettings
  set_redis_port v how s = assign "redis_port" (whole_or_none v) how s

  unfoldable pub set_redis_password : Option String → Saving → GeneralSettings → GeneralSettings
  set_redis_password v how s = assign "redis_password" (text_or_none v) how s

  unfoldable pub set_redis_user : Option String → Saving → GeneralSettings → GeneralSettings
  set_redis_user v how s = assign "redis_user" (text_or_none v) how s

  unfoldable pub set_redis_tls_enabled : Option Bool → Saving → GeneralSettings → GeneralSettings
  set_redis_tls_enabled v how s = assign "redis_tls_enabled" (flag_or_none v) how s

  unfoldable pub set_sql_api_enabled : Bool → Saving → GeneralSettings → GeneralSettings
  set_sql_api_enabled v how s = assign "sql_api_enabled" (bool v) how s

  unfoldable pub set_anonymous_access : Bool → Saving → GeneralSettings → GeneralSettings
  set_anonymous_access v how s = assign "anonymous_access" (bool v) how s

  unfoldable pub set_role_mappings : Items → Saving → GeneralSettings → GeneralSettings
  set_role_mappings v how s = assign "role_mappings" (arr v) how s

  unfoldable pub set_syslog : Dict Json → Saving → GeneralSettings → Option GeneralSettings
  set_syslog v how s = elim (copied (setting_of "syslog" s)) [
    | none ↦ none
    | some d ↦ some (apply_syslog (assign "syslog" (obj (of_dict (update_dict v d))) how s))
  ]

  unfoldable pub set_sso : Dict Json → Saving → GeneralSettings → Option GeneralSettings
  set_sso v how s = elim (dict_of (setting_of "sso" s)) [
    | none ↦ none
    | some d ↦ some (assign "sso" (obj (of_dict (update_dict v d))) how s)
  ]

  -- `update`, whose error is the message without the list of unknown keys
  unfoldable pub update : Dict Json → Saving → GeneralSettings → Result String GeneralSettings
  update updates how s =
      if all (λ k. has_key k defaults) (keys updates)
      then ok (save how (record s { current = update_dict updates s.current }))
      else err "Unknown setting keys: "

  -- data.get("issuer_url") or os.getenv("OIDC_ISSUER_URL") or None
  unfoldable pub from_environment : (key variable : String) → Dict Json → Json
  from_environment key variable d =
      let v = or_default null (lookup key d) in
      if truthy v then v else elim (w.getenv variable) [
        | none ↦ null
        | some text ↦ if text == "" then null else str text
      ]

  -- the property `sso`
  unfoldable pub sso : GeneralSettings → Option (Dict Json)
  sso s = elim (dict_of (setting_of "sso" s)) [
    | none ↦ none
    | some d0 ↦
        let d1 = insert "issuer_url" (from_environment "issuer_url" "OIDC_ISSUER_URL" d0) d0 in
        let d2 = insert "client_id" (from_environment "client_id" "OIDC_CLIENT_ID" d1) d1 in
        let d3 =
          insert "client_secret" (from_environment "client_secret" "OIDC_CLIENT_SECRET" d2) d2 in
        let d4 =
          insert "redirect_uri" (from_environment "redirect_uri" "OIDC_REDIRECT_URI" d3) d3 in
        some (if has_key "scopes" d4 then d4 else insert "scopes" scopes_default d4)
  ]

  -- the other getters that convert
  unfoldable pub row_limit : GeneralSettings → Conversion
  row_limit s = int_of w.python (setting_of "row_limit" s)

  unfoldable pub syslog : GeneralSettings → Option (Dict Json)
  syslog s = dict_of (setting_of "syslog" s)

  unfoldable pub redis_ttl_seconds : GeneralSettings → Conversion
  redis_ttl_seconds s = int_of w.python (setting_of "redis_ttl_seconds" s)

  unfoldable pub redis_port : GeneralSettings → Option Conversion
  redis_port s = elim (setting_of "redis_port" s) [ null ↦ none | v ↦ some (int_of w.python v) ]

  unfoldable pub sql_api_enabled : GeneralSettings → Bool
  sql_api_enabled s = truthy (setting_of "sql_api_enabled" s)

  unfoldable pub anonymous_access : GeneralSettings → Bool
  anonymous_access s = truthy (setting_of "anonymous_access" s)

  unfoldable pub active_widget_set : GeneralSettings → String
  active_widget_set s = str_of w.python.repr (setting_of "active_widget_set" s)

  unfoldable pub read_file : Option Json → GeneralSettings → GeneralSettings
  read_file none s = s
  read_file (some v) s = elim (loaded_dict v) [
    | none ↦ s
    | some loaded ↦ apply_syslog (record s { current = fill defaults loaded s.current })
  ]

  -- _load: `readable` says whether the file can be opened
  unfoldable pub load : (readable : Bool) → GeneralSettings → GeneralSettings
  load readable s = elim s.file [
    | none ↦ elim w.anonymous_user [
      | none ↦ s
      | some user ↦ record s {
        current = insert "anonymous_access" (bool (user == "ALLOW")) s.current;
      }
    ]
    | some text ↦ if readable then read_file (w.safe_load text) s else s
  ]

  -- GeneralSettings() in a process that finds this file
  unfoldable pub started : (readable : Bool) → Option String → GeneralSettings
  started readable file =
      load readable (record { current = defaults; file = file; configured = [] })
