-- ===== src/Settings/Api.antt =====
-- The settings endpoints of backend/app/api/system.py. What they return is given before pydantic checks it against
-- the response's types.
pub mod Same
pub mod Kept
use buchi_maker.Common.{
  if◌then◌else◌, is_some, all, take, format, Dict, lookup, Result, ◌>>=◌, ◌>>◌, ok, err, ◌+◌, ◌-◌,
  ◌/◌, String, ap, Bool, true, false, not, ◌&&◌, ◌||◌, Option, none, some, List, [], ◌∷◌, ◌++◌, map,
  ◌==◌,
}
use buchi_maker.Json.{Json, null, bool, num, str, Items, truthy}
use buchi_maker.Python.Number.{ℤ}
use buchi_maker.Validator.{HttpError}
use buchi_maker.Dashboard.Load.Base.{Conversion, whole, refused as not_whole, infinite, show_int}
use buchi_maker.Settings.{
  auto_refresh, redis_host, redis_user, redis_password, redis_tls_enabled, syslog, role_mappings,
  or_default, whole_or_none, text_or_none, setting_of, dict_of, World, Saving, GeneralSettings,
  set_row_limit, set_redis_ttl_seconds, set_auto_refresh, set_redis_host, set_redis_port,
  set_redis_password, set_redis_user, set_redis_tls_enabled, set_sql_api_enabled,
  set_anonymous_access, set_role_mappings, set_syslog, set_sso, sso, row_limit, redis_ttl_seconds,
  redis_port, sql_api_enabled, anonymous_access,
}

pub record SyslogSettings : Type 0 where
  pub enabled : Bool
  pub host : Option String
  pub port : Option ℤ
  pub tls_enabled : Bool
  pub cert_path : Option String
  pub key_path : Option String
  pub ca_cert_path : Option String

-- model_dump
unfoldable pub dump_syslog : SyslogSettings → Dict Json
dump_syslog b =
    ("enabled", bool b.enabled)
    ∷ ("host", text_or_none b.host)
    ∷ ("port", whole_or_none b.port)
    ∷ ("tls_enabled", bool b.tls_enabled)
    ∷ ("cert_path", text_or_none b.cert_path)
    ∷ ("key_path", text_or_none b.key_path)
    ∷ ("ca_cert_path", text_or_none b.ca_cert_path)
    ∷ []

pub record SystemSettings : Type 0 where
  pub new_auto_refresh : Option Json
  pub new_redis_host : Option String
  pub new_redis_port : Option ℤ
  pub new_redis_password : Option String
  pub new_redis_user : Option String
  pub new_redis_tls_enabled : Option Bool
  pub new_row_limit : Option ℤ
  pub new_redis_ttl_seconds : Option ℤ
  pub new_sql_api_enabled : Option Bool
  pub new_syslog : Option SyslogSettings

pub record SystemSettingsResponse : Type 0 where
  pub auto_refresh : Json
  pub redis_host : Json
  pub redis_port : Option Conversion
  pub redis_password_set : Bool
  pub redis_user : Json
  pub redis_tls_enabled : Json
  pub duckdb_active_file : String
  pub syslog : Option (Dict Json)
  pub row_limit : Conversion
  pub redis_ttl_seconds : Conversion
  pub sql_api_enabled : Bool

-- `if value is not None: assign`
abbrev pub given :
    {A : Type 0}
    → Option A
    → (A → GeneralSettings → GeneralSettings)
    → GeneralSettings
    → GeneralSettings
given none f s = s
given (some v) f s = f v s

-- the getters of the answer do not raise: `int` takes each number, and `dict` takes syslog
abbrev is_whole : Conversion → Bool
is_whole (whole n) = true
is_whole not_whole = false
is_whole infinite = false

abbrev is_port : Option Conversion → Bool
is_port none = true
is_port (some c) = is_whole c

unfoldable pub can_be_read : SystemSettingsResponse → Bool
can_be_read shown =
    is_port shown.redis_port
    && is_some shown.syslog
    && is_whole shown.row_limit
    && is_whole shown.redis_ttl_seconds

-- What a request that raises has changed before stays changed: `err` carries what was raised, and the settings then.
pub data Trouble : Type 0 where
  value_error : String → Trouble
  attribute_error : Trouble
  unanswerable : Trouble

abbrev pub Progress : Type 0
Progress = GeneralSettings × Option Trouble

abbrev pub and_then : Progress → (GeneralSettings → Progress) → Progress
and_then (s, none) f = f s
and_then (s, some e) f = (s, some e)

abbrev pub checked : GeneralSettings → Result String GeneralSettings → Progress
checked s (ok t) = (t, none)
checked s (err e) = (s, some (value_error e))

abbrev pub copied_or : GeneralSettings → Option GeneralSettings → Progress
copied_or s (some t) = (t, none)
copied_or s none = (s, some attribute_error)

abbrev pub given_or_raise :
    {A : Type 0} → Option A → (A → GeneralSettings → Progress) → GeneralSettings → Progress
given_or_raise none f s = (s, none)
given_or_raise (some v) f s = f v s

pub data Answer : Type 0 where
  updated : SystemSettingsResponse → Answer
  refused : HttpError → Answer
  raised : Trouble → Answer

-- `reconnected` says whether redis_cache.reconnect was called
pub record Update : Type 0 where
  pub settings : GeneralSettings
  pub reconnected : Bool
  pub answer : Answer

-- one of the three files of syslog's TLS
unfoldable pub lacks_file : (String → Bool) → String → Option String → Option String
lacks_file is_file name none = none
lacks_file is_file name (some path) =
    if path == "" || is_file path
    then none
    else some (format ("Syslog " ∷ name ∷ " not found: " ∷ path ∷ []))

abbrev pub first_of : Option String → Option String → Option String
first_of none o = o
first_of (some e) o = some e

unfoldable pub missing_file : (String → Bool) → Option SyslogSettings → Option String
missing_file is_file none = none
missing_file is_file (some b) =
    if b.tls_enabled
    then first_of (lacks_file is_file "cert_path" b.cert_path) (
        first_of (lacks_file is_file "key_path" b.key_path)
          (lacks_file is_file "ca_cert_path" b.ca_cert_path))
    else none

-- redis_changed
unfoldable pub redis_changed : SystemSettings → Bool
redis_changed body =
    is_some body.new_redis_host
    || is_some body.new_redis_port
    || is_some body.new_redis_password
    || is_some body.new_redis_user
    || is_some body.new_redis_tls_enabled

-- `is_file` is os.path.isfile, `database` the setting duckdb_database, and `how` says for each key how the file is written
module _ (w : World) (is_file : String → Bool) (database : String) (how : String → Saving) where
  -- get_settings_endpoint
  unfoldable pub view : GeneralSettings → SystemSettingsResponse
  view s = record {
    auto_refresh = auto_refresh s;
    redis_host = redis_host s;
    redis_port = redis_port w s;
    redis_password_set = truthy (redis_password s);
    redis_user = redis_user s;
    redis_tls_enabled = redis_tls_enabled s;
    duckdb_active_file = database;
    syslog = syslog w s;
    row_limit = row_limit w s;
    redis_ttl_seconds = redis_ttl_seconds w s;
    sql_api_enabled = sql_api_enabled w s;
  }

  -- the settings without a check
  unfoldable pub with_redis : SystemSettings → GeneralSettings → GeneralSettings
  with_redis body s0 =
      let s1 = given body.new_auto_refresh (λ v. set_auto_refresh w v (how "auto_refresh")) s0 in
      let s2 = given body.new_redis_host (λ v. set_redis_host w (some v) (how "redis_host")) s1 in
      let s3 = given body.new_redis_port (λ v. set_redis_port w (some v) (how "redis_port")) s2 in
      let s4 =
        given body.new_redis_password (λ v. set_redis_password w (some v) (how "redis_password"))
          s3 in
      let s5 = given body.new_redis_user (λ v. set_redis_user w (some v) (how "redis_user")) s4 in
      given body.new_redis_tls_enabled
        (λ v. set_redis_tls_enabled w (some v) (how "redis_tls_enabled")) s5

  unfoldable pub with_row_limit : SystemSettings → GeneralSettings → Progress
  with_row_limit body =
      given_or_raise body.new_row_limit λ v s. checked s (set_row_limit w v (how "row_limit") s)

  unfoldable pub with_ttl : SystemSettings → GeneralSettings → Progress
  with_ttl body =
      given_or_raise body.new_redis_ttl_seconds
        λ v s. checked s (set_redis_ttl_seconds w v (how "redis_ttl_seconds") s)

  unfoldable pub with_sql_api : SystemSettings → GeneralSettings → Progress
  with_sql_api body s = (
    given body.new_sql_api_enabled (λ v. set_sql_api_enabled w v (how "sql_api_enabled")) s,
    none,
  )

  unfoldable pub with_syslog : SystemSettings → GeneralSettings → Progress
  with_syslog body =
      given_or_raise body.new_syslog
        λ v s. copied_or s (set_syslog w (dump_syslog v) (how "syslog") s)

  unfoldable pub all_set : SystemSettings → GeneralSettings → Progress
  all_set body s =
      and_then
        (and_then (and_then (with_row_limit body (with_redis body s)) (with_ttl body))
          (with_sql_api body))
        (with_syslog body)

  -- Redis is connected again before the answer is built, where a getter may raise, and so may pydantic, which
  -- `accepts` stands for
  unfoldable pub answered : (SystemSettingsResponse → Bool) → SystemSettings → Progress → Update
  answered accepts body (s, some e) = record {
    settings = s;
    reconnected = false;
    answer = raised e;
  }
  answered accepts body (s, none) = record {
    settings = s;
    reconnected = redis_changed body;
    answer =
        if can_be_read (view s) && accepts (view s) then updated (view s) else raised unanswerable;
  }

  unfoldable pub update_settings :
      (SystemSettingsResponse → Bool) → SystemSettings → GeneralSettings → Update
  update_settings accepts body s = elim (missing_file is_file body.new_syslog) [
    | some e ↦ record {
      settings = s;
      reconnected = false;
      answer = refused (record { status = 422; detail = e });
    }
    | none ↦ answered accepts body (all_set body s)
  ]

  -- update_access_settings
  unfoldable pub update_access_settings :
      Option Bool → Option Items → GeneralSettings → GeneralSettings
  update_access_settings anonymous mappings s0 =
      let s1 = given anonymous (λ v. set_anonymous_access w v (how "anonymous_access")) s0 in
      given mappings (λ v. set_role_mappings w v (how "role_mappings")) s1

  -- AccessSettingsResponse, before pydantic checks the mappings
  unfoldable pub access_view : GeneralSettings → Bool × Option (List Json)
  access_view s = (anonymous_access w s, role_mappings s)

-- update_sso_settings: the entries that the request changes; a blank secret changes nothing
pub record SsoSettings : Type 0 where
  pub issuer_url : Option String
  pub client_id : Option String
  pub client_secret : Option String
  pub scopes : Option String
  pub redirect_uri : Option String

abbrev pub entry : String → Option String → Dict Json
entry key none = []
entry key (some v) = (key, str v) ∷ []

abbrev pub secret_entry : Option String → Dict Json
secret_entry none = []
secret_entry (some v) = if v == "" then [] else ("client_secret", str v) ∷ []

unfoldable pub sso_update : SsoSettings → Dict Json
sso_update b =
    entry "issuer_url" b.issuer_url
    ++ entry "client_id" b.client_id
    ++ secret_entry b.client_secret
    ++ entry "scopes" b.scopes
    ++ entry "redirect_uri" b.redirect_uri

pub record SsoResponse : Type 0 where
  pub shown_issuer_url : Json
  pub shown_client_id : Json
  pub client_secret_set : Bool
  pub shown_scopes : Json
  pub shown_redirect_uri : Json

unfoldable pub sso_response : Dict Json → SsoResponse
sso_response d = record {
  shown_issuer_url = or_default null (lookup "issuer_url" d);
  shown_client_id = or_default null (lookup "client_id" d);
  client_secret_set = truthy (or_default null (lookup "client_secret" d));
  shown_scopes = or_default null (lookup "scopes" d);
  shown_redirect_uri = or_default null (lookup "redirect_uri" d);
}

module _ (w : World) where
  -- get_sso_settings; `none` is the exception of `dict`
  unfoldable pub get_sso_settings : GeneralSettings → Option SsoResponse
  get_sso_settings s = elim (sso w s) [ none ↦ none | some d ↦ some (sso_response d) ]

  unfoldable pub stored_sso : Dict Json → Saving → GeneralSettings → Option GeneralSettings
  stored_sso [] how s = some s
  stored_sso (e ∷ es) how s = set_sso w (e ∷ es) how s

  -- update_sso_settings
  unfoldable pub update_sso_settings :
      SsoSettings → Saving → GeneralSettings → Option (GeneralSettings × Option SsoResponse)
  update_sso_settings body how s = elim (stored_sso (sso_update body) how s) [
    | none ↦ none
    | some t ↦ some (t, get_sso_settings t)
  ]
