-- ===== src/Settings/Defaults.antt =====
-- _DEFAULTS, the state of GeneralSettings, what is outside, and small helpers on values.
use buchi_maker.Common.{
  ltb, if◌then◌else◌, Dict, lookup, insert, ℕ, String, Bool, true, false, Option, none, some, List,
  [], ◌∷◌,
}
use buchi_maker.Json.{Json, null, bool, num, str, arr, obj, nil, Fields, end, field, fields, truthy}
use buchi_maker.Python.Number.{ℤ, pos, negsuc}
use buchi_maker.Dashboard.Load.Base.{Python, show_int}

abbrev pub syslog_defaults : Fields
syslog_defaults = field "enabled" (bool false) (
    field "host" null (
      field "port" null (
        field "tls_enabled" (bool false)
          (field "cert_path" null (field "key_path" null (field "ca_cert_path" null end))))))

abbrev pub scopes_default : Json
scopes_default = str "openid profile email"

abbrev pub sso_defaults : Fields
sso_defaults = field "issuer_url" null (
    field "client_id" null
      (field "client_secret" null (field "scopes" scopes_default (field "redirect_uri" null end))))

-- _DEFAULTS
unfoldable pub defaults : Dict Json
defaults =
    ("row_limit", num "1000")
    ∷ ("redis_ttl_seconds", num "1800")
    ∷ ("auto_refresh", null)
    ∷ ("active_widget_set", str "default")
    ∷ ("redis_host", null)
    ∷ ("redis_port", null)
    ∷ ("redis_password", null)
    ∷ ("redis_user", null)
    ∷ ("redis_tls_enabled", null)
    ∷ ("syslog", obj syslog_defaults)
    ∷ ("sql_api_enabled", bool false)
    ∷ ("anonymous_access", bool true)
    ∷ ("sso", obj sso_defaults)
    ∷ ("role_mappings", arr nil)
    ∷ []

-- What is outside: PyYAML (`none` is an exception), `dict` of a value that is no dict, the environment
-- (`none` for a variable that is not set), and ANONYMOUS_USER as get_settings gives it (`none` if that fails).
pub record World : Type 0 where
  pub python : Python
  pub dump : Dict Json → String
  pub safe_load : String → Option Json
  pub as_pairs : Json → Option (Dict Json)
  pub getenv : String → Option String
  pub anonymous_user : Option String

-- How the writing of the file ends: an exception leaves the file as it was, or cuts it off.
pub data Saving : Type 0 where
  written unchanged : Saving
  cut_off : String → Saving

-- `configured` lists the keyword arguments of the calls of configure_syslog that were started.
pub record GeneralSettings : Type 0 where
  pub current : Dict Json
  pub file : Option String
  pub configured : List (Dict Json)

-- self._data.get(key, _DEFAULTS[key])
unfoldable pub setting_of : String → GeneralSettings → Json
setting_of key s = elim (lookup key s.current) [
  | some v ↦ v
  | none ↦ elim (lookup key defaults) [ some v ↦ v | none ↦ null ]
]

-- d.get(key, default)
abbrev pub or_default : Json → Option Json → Json
or_default v none = v
or_default v (some w) = w

abbrev pub text_or_none : Option String → Json
text_or_none none = null
text_or_none (some s) = str s

-- value < n
unfoldable pub below : ℕ → ℤ → Bool
below n (pos m) = ltb m n
below n (negsuc m) = true

-- the keyword arguments of configure_syslog
unfoldable pub syslog_call : Dict Json → Dict Json
syslog_call d =
    ("enabled", or_default (bool false) (lookup "enabled" d))
    ∷ ("host", or_default null (lookup "host" d))
    ∷ ("port", or_default null (lookup "port" d))
    ∷ ("tls_enabled", or_default (bool false) (lookup "tls_enabled" d))
    ∷ ("cert_path", or_default null (lookup "cert_path" d))
    ∷ ("key_path", or_default null (lookup "key_path" d))
    ∷ ("ca_cert_path", or_default null (lookup "ca_cert_path" d))
    ∷ []

abbrev pub whole_or_none : Option ℤ → Json
whole_or_none none = null
whole_or_none (some z) = num (show_int z)

abbrev pub flag_or_none : Option Bool → Json
flag_or_none none = null
flag_or_none (some b) = bool b

abbrev pub of_dict : Dict Json → Fields
of_dict [] = end
of_dict ((k, v) ∷ d) = field k v (of_dict d)

-- d.update(more)
unfoldable pub update_dict : Dict Json → Dict Json → Dict Json
update_dict [] d = d
update_dict ((k, v) ∷ more) d = update_dict more (insert k v d)

-- for key, default in _DEFAULTS.items(): self._data[key] = data.get(key, default)
unfoldable pub fill : Dict Json → Dict Json → Dict Json → Dict Json
fill [] loaded d = d
fill ((k, v) ∷ ds) loaded d = fill ds loaded (insert k (or_default v (lookup k loaded)) d)

-- `yaml.safe_load(f) or {}`; `none` is a value without `get`
unfoldable pub loaded_dict : Json → Option (Dict Json)
loaded_dict (obj fs) = some (fields fs)
loaded_dict v = if truthy v then none else some []

-- `.copy()`, on whose result `.update` is called: only a dict has both
abbrev pub copied : Json → Option (Dict Json)
copied (obj fs) = some (fields fs)
copied v = none
