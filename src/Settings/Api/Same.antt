-- ===== src/Settings/Api/Same.antt =====
-- update_settings: a setting that the request does not name is as it was.
use buchi_maker.Common.{
  Bool-cases, Option-cases, is_some, OnSome, Dict, lookup, lookup-insert, Result, OnOk, ok, err,
  String, ◌≡◌, refl, ap, ◌∙◌, inl, inr, Bool, false, ◌&&◌, Option, none, some, ◌==◌,
}
use buchi_maker.Json.{Json, bool}
use buchi_maker.Python.Number.{ℤ}
use buchi_maker.Settings.{
  below, copied, setting_of, World, Saving, GeneralSettings, assign, set_row_limit,
  set_redis_ttl_seconds, set_auto_refresh, set_redis_host, set_redis_port, set_redis_password,
  set_redis_user, set_redis_tls_enabled, set_sql_api_enabled, set_syslog,
}
use buchi_maker.Settings.Complete.{save-current, apply_syslog-current}
use buchi_maker.Settings.Api.{
  dump_syslog, SystemSettings, given, Progress, and_then, checked, copied_or, given_or_raise,
  with_redis, with_row_limit, with_ttl, with_sql_api, with_syslog, all_set,
}

-- The request has no new value for the setting with this key.
pub record IsAbsent (body : SystemSettings) (k : String) : Type 0 where
  pub no_auto_refresh : (is_some body.new_auto_refresh && "auto_refresh" == k) ≡ false
  pub no_redis_host : (is_some body.new_redis_host && "redis_host" == k) ≡ false
  pub no_redis_port : (is_some body.new_redis_port && "redis_port" == k) ≡ false
  pub no_redis_password : (is_some body.new_redis_password && "redis_password" == k) ≡ false
  pub no_redis_user : (is_some body.new_redis_user && "redis_user" == k) ≡ false
  pub no_redis_tls_enabled :
      (is_some body.new_redis_tls_enabled && "redis_tls_enabled" == k) ≡ false
  pub no_row_limit : (is_some body.new_row_limit && "row_limit" == k) ≡ false
  pub no_redis_ttl_seconds :
      (is_some body.new_redis_ttl_seconds && "redis_ttl_seconds" == k) ≡ false
  pub no_sql_api_enabled : (is_some body.new_sql_api_enabled && "sql_api_enabled" == k) ≡ false
  pub no_syslog : (is_some body.new_syslog && "syslog" == k) ≡ false

module _ (k : String) where
  abbrev IsSame : GeneralSettings → GeneralSettings → Type 0
  IsSame s t = lookup k t.current ≡ lookup k s.current

  given-IsSame :
      {A : Type 0} (o : Option A) (key : String) (f : A → GeneralSettings → GeneralSettings)
      (s : GeneralSettings)
      → (is_some o && key == k) ≡ false
      → ((v : A) → (key == k) ≡ false → IsSame s (f v s))
      → IsSame s (given o f s)
  given-IsSame none key f s h step = refl
  given-IsSame (some v) key f s h step = step v h

  raise-IsSame :
      {A : Type 0} (o : Option A) (key : String) (f : A → GeneralSettings → Progress)
      (s : GeneralSettings)
      → (is_some o && key == k) ≡ false
      → ((v : A) → (key == k) ≡ false → IsSame s (f v s).0)
      → IsSame s (given_or_raise o f s).0
  raise-IsSame none key f s h step = refl
  raise-IsSame (some v) key f s h step = step v h

  then-IsSame :
      (s : GeneralSettings) (p : Progress) (f : GeneralSettings → Progress)
      → IsSame s p.0
      → ((t : GeneralSettings) → IsSame t (f t).0)
      → IsSame s (and_then p f).0
  then-IsSame s (t, none) f h step = step t ∙ h
  then-IsSame s (t, some e) f h step = h

  checked-IsSame :
      (s : GeneralSettings) (r : Result String GeneralSettings)
      → OnOk (IsSame s) r
      → IsSame s (checked s r).0
  checked-IsSame s (ok t) h = h
  checked-IsSame s (err e) h = refl

  copied-IsSame :
      (s : GeneralSettings) (o : Option GeneralSettings)
      → OnSome (IsSame s) o
      → IsSame s (copied_or s o).0
  copied-IsSame s (some t) h = h
  copied-IsSame s none h = refl

  module _ (w : World) where
    assign-IsSame :
        (key : String) (v : Json) (how : Saving) (s : GeneralSettings)
        → (key == k) ≡ false
        → IsSame s (assign w key v how s)
    unfolding assign
    assign-IsSame key v how s h = ap (lookup k) (save-current w how _) ∙ rw (lookup-insert, h) refl

    set_row_limit-IsSame :
        (v : ℤ) (how : Saving) (s : GeneralSettings)
        → ("row_limit" == k) ≡ false
        → OnOk (IsSame s) (set_row_limit w v how s)
    unfolding set_row_limit
    set_row_limit-IsSame v how s h = elim (Bool-cases (below 1 v)) [
      | inl e ↦ rw (e, set_row_limit) tt
      | inr e ↦ rw (e, set_row_limit) (assign-IsSame "row_limit" _ how s h)
    ]

    set_ttl-IsSame :
        (v : ℤ) (how : Saving) (s : GeneralSettings)
        → ("redis_ttl_seconds" == k) ≡ false
        → OnOk (IsSame s) (set_redis_ttl_seconds w v how s)
    unfolding set_redis_ttl_seconds
    set_ttl-IsSame v how s h = elim (Bool-cases (below 0 v)) [
      | inl e ↦ rw (e, set_redis_ttl_seconds) tt
      | inr e ↦ rw (e, set_redis_ttl_seconds) (assign-IsSame "redis_ttl_seconds" _ how s h)
    ]

    set_syslog-IsSame :
        (v : Dict Json) (how : Saving) (s : GeneralSettings)
        → ("syslog" == k) ≡ false
        → OnSome (IsSame s) (set_syslog w v how s)
    unfolding set_syslog
    set_syslog-IsSame v how s h = elim (Option-cases (copied (setting_of "syslog" s))) [
      | inl e ↦ rw (e, set_syslog) tt
      | inr (d, e) ↦
          rw (e, set_syslog)
            (ap (lookup k) (apply_syslog-current w _) ∙ assign-IsSame "syslog" _ how s h)
    ]

    module _ (how : String → Saving) (is_file : String → Bool) (database : String) where
      with_redis-IsSame :
          (body : SystemSettings) (s : GeneralSettings)
          → IsAbsent body k
          → IsSame s (with_redis w is_file database how body s)
      unfolding with_redis set_auto_refresh set_redis_host set_redis_port set_redis_password
          set_redis_user set_redis_tls_enabled
      with_redis-IsSame body s h =
          given-IsSame body.new_redis_tls_enabled _ _ _ h.no_redis_tls_enabled
            (λ v p. assign-IsSame _ _ _ _ p)
          ∙ given-IsSame body.new_redis_user _ _ _ h.no_redis_user (λ v p. assign-IsSame _ _ _ _ p)
          ∙ given-IsSame body.new_redis_password _ _ _ h.no_redis_password
              (λ v p. assign-IsSame _ _ _ _ p)
          ∙ given-IsSame body.new_redis_port _ _ _ h.no_redis_port (λ v p. assign-IsSame _ _ _ _ p)
          ∙ given-IsSame body.new_redis_host _ _ _ h.no_redis_host (λ v p. assign-IsSame _ _ _ _ p)
          ∙ given-IsSame body.new_auto_refresh _ _ s h.no_auto_refresh
              (λ v p. assign-IsSame _ _ _ _ p)

      with_row_limit-IsSame :
          (body : SystemSettings) (s : GeneralSettings)
          → IsAbsent body k
          → IsSame s (with_row_limit w is_file database how body s).0
      unfolding with_row_limit
      with_row_limit-IsSame body s h =
          raise-IsSame body.new_row_limit "row_limit"
            (λ v t. checked t (set_row_limit w v (how "row_limit") t)) s h.no_row_limit
            λ v p. checked-IsSame s _ (set_row_limit-IsSame v (how "row_limit") s p)

      with_ttl-IsSame :
          (body : SystemSettings) (s : GeneralSettings)
          → IsAbsent body k
          → IsSame s (with_ttl w is_file database how body s).0
      unfolding with_ttl
      with_ttl-IsSame body s h =
          raise-IsSame body.new_redis_ttl_seconds "redis_ttl_seconds"
            (λ v t. checked t (set_redis_ttl_seconds w v (how "redis_ttl_seconds") t)) s
            h.no_redis_ttl_seconds
            λ v p. checked-IsSame s _ (set_ttl-IsSame v (how "redis_ttl_seconds") s p)

      with_sql_api-IsSame :
          (body : SystemSettings) (s : GeneralSettings)
          → IsAbsent body k
          → IsSame s (with_sql_api w is_file database how body s).0
      unfolding with_sql_api set_sql_api_enabled
      with_sql_api-IsSame body s h =
          given-IsSame body.new_sql_api_enabled "sql_api_enabled"
            (λ v. assign w "sql_api_enabled" (bool v) (how "sql_api_enabled")) s
            h.no_sql_api_enabled
            λ v p. assign-IsSame "sql_api_enabled" (bool v) (how "sql_api_enabled") s p

      with_syslog-IsSame :
          (body : SystemSettings) (s : GeneralSettings)
          → IsAbsent body k
          → IsSame s (with_syslog w is_file database how body s).0
      unfolding with_syslog
      with_syslog-IsSame body s h =
          raise-IsSame body.new_syslog "syslog"
            (λ v t. copied_or t (set_syslog w (dump_syslog v) (how "syslog") t)) s h.no_syslog
            λ v p. copied-IsSame s _ (set_syslog-IsSame (dump_syslog v) (how "syslog") s p)

      pub all_set-IsSame :
          (body : SystemSettings) (s : GeneralSettings)
          → IsAbsent body k
          → IsSame s (all_set w is_file database how body s).0
      unfolding all_set
      all_set-IsSame body s h =
          let s1 = with_redis w is_file database how body s in
          let p1 = with_row_limit w is_file database how body s1 in
          let p2 = and_then p1 (with_ttl w is_file database how body) in
          let p3 = and_then p2 (with_sql_api w is_file database how body) in
          then-IsSame s p3 (with_syslog w is_file database how body)
            (then-IsSame s p2 (with_sql_api w is_file database how body)
              (then-IsSame s p1 (with_ttl w is_file database how body)
                (with_row_limit-IsSame body s1 h ∙ with_redis-IsSame body s h)
                (λ t. with_ttl-IsSame body t h))
              (λ t. with_sql_api-IsSame body t h))
            (λ t. with_syslog-IsSame body t h)
