-- ===== src/Settings/Complete.antt =====
-- Every change of the settings keeps the keys that the defaults have.
use buchi_maker.Common.{
  Bool-cases, Option-cases, &&-eq-true, OnSome, all, Dict, lookup, insert, keys, lookup-insert,
  has_key, OnOk, OnOk-at, String, ◌≡◌, refl, sym, subst, inl, inr, Bool, true, false, ◌||◌, Option,
  none, some, [], ◌∷◌, arith, ◌==◌, eq_iff,
}
use buchi_maker.Json.{Json}
use buchi_maker.Python.Number.{ℤ}
use buchi_maker.Validator.{is_blank}
use buchi_maker.Settings.Reachable.{
  Reachable, starts, row_limit_set, redis_ttl_set, widget_set_set, auto_refresh_set, redis_host_set,
  redis_port_set, redis_password_set, redis_user_set, redis_tls_set, sql_api_set, anonymous_set,
  role_mappings_set, syslog_set, sso_set, updated,
}
use buchi_maker.Settings.{
  below, loaded_dict, defaults, World, Saving, written, unchanged, cut_off, GeneralSettings, save,
  assign, copied, dict_of, setting_of, apply_syslog, fill, read_file, load, started, update_dict,
  set_row_limit, set_redis_ttl_seconds, set_auto_refresh, set_active_widget_set, set_redis_host,
  set_redis_port, set_redis_password, set_redis_user, set_redis_tls_enabled, set_sql_api_enabled,
  set_anonymous_access, set_role_mappings, set_syslog, set_sso, update, cut_off,
}

abbrev pub IsComplete : Dict Json → Type 0
IsComplete d = (k : String) → has_key k d ≡ has_key k defaults

abbrev HasAll : GeneralSettings → Type 0
HasAll s = IsComplete s.current

insert-IsComplete :
    (k : String) (v : Json) (d : Dict Json)
    → has_key k defaults ≡ true
    → IsComplete d
    → IsComplete (insert k v d)
insert-IsComplete k v d known h j = elim (Bool-cases (k == j)) [
  | inl e ↦ rw (lookup-insert k j v d, e) ground (arith, eq_iff k j, known)
  | inr e ↦ rw (lookup-insert k j v d, e) (h j)
]

update_dict-IsComplete :
    (more d : Dict Json)
    → all (λ k. has_key k defaults) (keys more) ≡ true
    → IsComplete d
    → IsComplete (update_dict more d)
unfolding update_dict
update_dict-IsComplete [] d known h = h
update_dict-IsComplete ((k, v) ∷ more) d known h =
    let (here, rest) =
      &&-eq-true (has_key k defaults) (all (λ k. has_key k defaults) (keys more)) known in
    update_dict-IsComplete more (insert k v d) rest (insert-IsComplete k v d here h)

fill-IsComplete :
    (ds loaded d : Dict Json)
    → all (λ k. has_key k defaults) (keys ds) ≡ true
    → IsComplete d
    → IsComplete (fill ds loaded d)
unfolding fill
fill-IsComplete [] loaded d known h = h
fill-IsComplete ((k, v) ∷ ds) loaded d known h =
    let (here, rest) =
      &&-eq-true (has_key k defaults) (all (λ k. has_key k defaults) (keys ds)) known in
    fill-IsComplete ds loaded _ rest (insert-IsComplete k _ d here h)

known_syslog : has_key "syslog" defaults ≡ true
unfolding lookup defaults
known_syslog = refl

known_sso : has_key "sso" defaults ≡ true
unfolding lookup defaults
known_sso = refl

known_anonymous : has_key "anonymous_access" defaults ≡ true
unfolding lookup defaults
known_anonymous = refl

known_row_limit : has_key "row_limit" defaults ≡ true
unfolding lookup defaults
known_row_limit = refl

known_ttl : has_key "redis_ttl_seconds" defaults ≡ true
unfolding lookup defaults
known_ttl = refl

known_widget_set : has_key "active_widget_set" defaults ≡ true
unfolding lookup defaults
known_widget_set = refl

known_all : all (λ k. has_key k defaults) (keys defaults) ≡ true
unfolding lookup defaults
known_all = refl

module _ (w : World) where
  pub save-current : (how : Saving) (s : GeneralSettings) → (save w how s).current ≡ s.current
  unfolding save
  save-current written s = refl
  save-current unchanged s = refl
  save-current (cut_off text) s = refl

  pub apply_syslog-current : (s : GeneralSettings) → (apply_syslog w s).current ≡ s.current
  unfolding apply_syslog
  apply_syslog-current s = elim (Option-cases (dict_of w (setting_of "syslog" s))) [
    | inl e ↦ rw (e, apply_syslog) refl
    | inr (d, e) ↦ rw (e, apply_syslog) refl
  ]

  pub assign-IsComplete :
      (key : String) (v : Json) (how : Saving) (s : GeneralSettings)
      → has_key key defaults ≡ true
      → HasAll s
      → HasAll (assign w key v how s)
  unfolding assign
  assign-IsComplete key v how s known h =
      subst IsComplete (sym (save-current how _)) (insert-IsComplete key v s.current known h)

  set_syslog-HasAll :
      (v : Dict Json) (how : Saving) (s : GeneralSettings)
      → HasAll s
      → OnSome HasAll (set_syslog w v how s)
  unfolding set_syslog
  set_syslog-HasAll v how s h = elim (Option-cases (copied (setting_of "syslog" s))) [
    | inl e ↦ rw (e, set_syslog) tt
    | inr (d, e) ↦
        rw (e, set_syslog)
          (subst IsComplete (sym (apply_syslog-current _))
            (assign-IsComplete "syslog" _ how s known_syslog h))
  ]

  set_sso-HasAll :
      (v : Dict Json) (how : Saving) (s : GeneralSettings)
      → HasAll s
      → OnSome HasAll (set_sso w v how s)
  unfolding set_sso
  set_sso-HasAll v how s h = elim (Option-cases (dict_of w (setting_of "sso" s))) [
    | inl e ↦ rw (e, set_sso) tt
    | inr (d, e) ↦ rw (e, set_sso) (assign-IsComplete "sso" _ how s known_sso h)
  ]

  update-HasAll :
      (v : Dict Json) (how : Saving) (s : GeneralSettings)
      → HasAll s
      → OnOk HasAll (update w v how s)
  unfolding update
  update-HasAll v how s h = elim (Bool-cases (all (λ k. has_key k defaults) (keys v))) [
    | inl e ↦
        rw (e, update)
          (subst IsComplete (sym (save-current how _)) (update_dict-IsComplete v s.current e h))
    | inr e ↦ rw (e, update) tt
  ]

  read_file-HasAll : (v : Option Json) (s : GeneralSettings) → HasAll s → HasAll (read_file w v s)
  unfolding read_file
  read_file-HasAll none s h = h
  read_file-HasAll (some v) s h = elim (Option-cases (loaded_dict v)) [
    | inl e ↦ rw (e, read_file) h
    | inr (d, e) ↦
        rw (e, read_file)
          (subst IsComplete (sym (apply_syslog-current _))
            (fill-IsComplete defaults d s.current known_all h))
  ]

  started-HasAll : (readable : Bool) (file : Option String) → HasAll (started w readable file)
  unfolding started load
  started-HasAll true (some text) = read_file-HasAll (w.safe_load text) _ (λ k. refl)
  started-HasAll false (some text) = λ k. refl
  started-HasAll readable none = elim (Option-cases w.anonymous_user) [
    | inl e ↦ rw e (λ k. refl)
    | inr (user, e) ↦
        rw e (insert-IsComplete "anonymous_access" _ defaults known_anonymous (λ k. refl))
  ]

  module _ (P : GeneralSettings → Type 0) where
    OnSome-at : (r : Option GeneralSettings) (t : GeneralSettings) → r ≡ some t → OnSome P r → P t
    OnSome-at none t e h = absurd (cc)
    OnSome-at (some u) t e h = subst P (cc) h

  set_row_limit-HasAll :
      (v : ℤ) (how : Saving) (s : GeneralSettings)
      → HasAll s
      → OnOk HasAll (set_row_limit w v how s)
  unfolding set_row_limit
  set_row_limit-HasAll v how s h = elim (Bool-cases (below 1 v)) [
    | inl e ↦ rw (e, set_row_limit) tt
    | inr e ↦ rw (e, set_row_limit) (assign-IsComplete _ _ how s known_row_limit h)
  ]

  set_redis_ttl-HasAll :
      (v : ℤ) (how : Saving) (s : GeneralSettings)
      → HasAll s
      → OnOk HasAll (set_redis_ttl_seconds w v how s)
  unfolding set_redis_ttl_seconds
  set_redis_ttl-HasAll v how s h = elim (Bool-cases (below 0 v)) [
    | inl e ↦ rw (e, set_redis_ttl_seconds) tt
    | inr e ↦ rw (e, set_redis_ttl_seconds) (assign-IsComplete _ _ how s known_ttl h)
  ]

  set_widget_set-HasAll :
      (v : String) (how : Saving) (s : GeneralSettings)
      → HasAll s
      → OnOk HasAll (set_active_widget_set w v how s)
  unfolding set_active_widget_set
  set_widget_set-HasAll v how s h = elim (Bool-cases (v == "" || is_blank v)) [
    | inl e ↦ rw (e, set_active_widget_set) tt
    | inr e ↦ rw (e, set_active_widget_set) (assign-IsComplete _ _ how s known_widget_set h)
  ]

  -- From any start and after any changes, the settings have the keys of the defaults and no others.
  pub Reachable-HasAll : {s : GeneralSettings} → Reachable w s → HasAll s
  unfolding set_auto_refresh set_redis_host set_redis_port set_redis_password set_redis_user
      set_redis_tls_enabled set_sql_api_enabled set_anonymous_access set_role_mappings lookup
      defaults
  Reachable-HasAll (starts readable file) = started-HasAll readable file
  Reachable-HasAll (row_limit_set v how r e) =
      OnOk-at HasAll _ _ e (set_row_limit-HasAll v how _ (Reachable-HasAll r))
  Reachable-HasAll (redis_ttl_set v how r e) =
      OnOk-at HasAll _ _ e (set_redis_ttl-HasAll v how _ (Reachable-HasAll r))
  Reachable-HasAll (widget_set_set v how r e) =
      OnOk-at HasAll _ _ e (set_widget_set-HasAll v how _ (Reachable-HasAll r))
  Reachable-HasAll (auto_refresh_set v how r) =
      assign-IsComplete _ _ how _ refl (Reachable-HasAll r)
  Reachable-HasAll (redis_host_set v how r) = assign-IsComplete _ _ how _ refl (Reachable-HasAll r)
  Reachable-HasAll (redis_port_set v how r) = assign-IsComplete _ _ how _ refl (Reachable-HasAll r)
  Reachable-HasAll (redis_password_set v how r) =
      assign-IsComplete _ _ how _ refl (Reachable-HasAll r)
  Reachable-HasAll (redis_user_set v how r) = assign-IsComplete _ _ how _ refl (Reachable-HasAll r)
  Reachable-HasAll (redis_tls_set v how r) = assign-IsComplete _ _ how _ refl (Reachable-HasAll r)
  Reachable-HasAll (sql_api_set v how r) = assign-IsComplete _ _ how _ refl (Reachable-HasAll r)
  Reachable-HasAll (anonymous_set v how r) = assign-IsComplete _ _ how _ refl (Reachable-HasAll r)
  Reachable-HasAll (role_mappings_set v how r) =
      assign-IsComplete _ _ how _ refl (Reachable-HasAll r)
  Reachable-HasAll (syslog_set v how r e) =
      OnSome-at HasAll _ _ e (set_syslog-HasAll v how _ (Reachable-HasAll r))
  Reachable-HasAll (sso_set v how r e) =
      OnSome-at HasAll _ _ e (set_sso-HasAll v how _ (Reachable-HasAll r))
  Reachable-HasAll (updated v how r e) =
      OnOk-at HasAll _ _ e (update-HasAll v how _ (Reachable-HasAll r))
