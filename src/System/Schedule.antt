-- ===== src/System/Schedule.antt =====
-- The automatic refresh: what SystemSettings.validate_auto_refresh of backend/app/models/schemas.py lets through, and
-- what SystemManager._sync_scheduler makes of it.
use buchi_maker.Common.{
  if◌then◌else◌, Bool-cases, all, codes, format, Result, ◌>>=◌, OnOk, OnOk-bind, ok, err, ℕ, ◌+◌,
  String, ◌≡◌, refl, ap, inl, inr, Bool, true, not, ◌&&◌, Option, none, some, List, [], ◌∷◌, map,
  ◌==◌,
}
use buchi_maker.Json.{Json, null, bool, num, str, arr, obj, Items, nil, cons, items, truthy}
use buchi_maker.Python.Chars.{is_decimal, lower, same_codes}
use buchi_maker.Python.Number.{ℤ, pos, negsuc, int_of_text}
use buchi_maker.Python.Replace.{show_nat}

-- croniter.croniter.is_valid for each item of a list
unfoldable pub valid_items : (String → Bool) → Items → Result String Items
valid_items is_valid nil = ok nil
valid_items is_valid (cons (str item) rest) =
    let later = valid_items is_valid rest in
    if is_valid item
    then later >>= (λ vs. ok (cons (str item) vs))
    else err (format ("Invalid cron expression: '" ∷ item ∷ "'" ∷ []))
valid_items is_valid (cons v rest) = err "List items must be cron strings."

abbrev pub not_negative : Json → ℤ → Result String Json
not_negative v (pos n) = ok v
not_negative v (negsuc n) = err "auto_refresh interval must be positive."

abbrev pub whole_interval : Json → Option ℤ → Result String Json
whole_interval v none = err "Invalid format for auto_refresh."
whole_interval v (some z) = not_negative v z

-- `v.isdigit()` and `int(v)`: `digits` are those whose value `int` knows
unfoldable pub interval_text : String → Result String Json
interval_text s =
    if not (s == "") && all is_decimal (codes s)
    then elim (int_of_text s) [
      | some (pos n) ↦ ok (num (show_nat n))
      | _ ↦ err "auto_refresh string must be 'disabled' or a numeric interval."
    ]
    else err "auto_refresh string must be 'disabled' or a numeric interval."

-- validate_auto_refresh; `bool` is an `int` in Python. The message for a text of digits that `int` refuses is taken to be
-- that of the other refused texts.
unfoldable pub validate_auto_refresh : (String → Bool) → Json → Result String Json
validate_auto_refresh is_valid null = ok null
validate_auto_refresh is_valid (str s) =
    if same_codes (map lower (codes s)) (codes "disabled")
    then ok (str "disabled")
    else interval_text s
validate_auto_refresh is_valid (bool b) = ok (bool b)
validate_auto_refresh is_valid (num n) = whole_interval (num n) (int_of_text n)
validate_auto_refresh is_valid (arr vs) = valid_items is_valid vs >>= λ checked. ok (arr checked)
validate_auto_refresh is_valid (obj fs) = err "Invalid format for auto_refresh."

-- a job of the scheduler, with its id
pub data Job : Type 0 where
  interval : ℤ → (id : String) → Job
  cron : String → (id : String) → Job

-- `same` is Python's `==`, `accepts` says whether add_job and the reading of its trigger raise nothing
pub record Scheduler : Type 0 where
  pub same : Json → Json → Bool
  pub accepts : Job → Bool

pub record Schedule : Type 0 where
  pub last_auto_refresh : Json
  pub jobs : List Job

-- the jobs of a list of cron strings, `i` being the place in the list; an item that is no text raises (`none`)
unfoldable pub cron_jobs : ℕ → List Json → List (Option Job)
cron_jobs i [] = []
cron_jobs i (str s ∷ vs) =
    some (cron s (format ("auto_refresh_" ∷ show_nat i ∷ []))) ∷ cron_jobs (i + 1) vs
cron_jobs i (v ∷ vs) = none ∷ cron_jobs (i + 1) vs

abbrev pub interval_jobs : Option ℤ → List (Option Job)
interval_jobs none = []
interval_jobs (some z) = some (interval z "auto_refresh") ∷ []

-- what the setting asks for: a text other than a number is neither an int nor a list
unfoldable pub wanted : Json → List (Option Job)
wanted (num n) = interval_jobs (int_of_text n)
wanted (bool true) = some (interval (pos 1) "auto_refresh") ∷ []
wanted (arr vs) = cron_jobs 0 (items vs)
wanted _ = []

module _ (scheduler : Scheduler) where
  -- the jobs that are added before the first exception, which is logged
  unfoldable pub add_each : List (Option Job) → List Job
  add_each [] = []
  add_each (none ∷ more) = []
  add_each (some job ∷ more) =
      let rest = add_each more in if scheduler.accepts job then job ∷ rest else []

  -- _sync_scheduler
  unfoldable pub sync_scheduler : Json → Schedule → Schedule
  sync_scheduler auto_refresh s =
      if scheduler.same s.last_auto_refresh auto_refresh then s else record {
        last_auto_refresh = auto_refresh;
        jobs = if truthy auto_refresh then add_each (wanted auto_refresh) else [];
      }

  -- If the scheduler takes every cron string that croniter takes, then each entry of a list that the schema lets through
  -- becomes a job, in order.
  pub add_each-accepted :
      (is_valid : String → Bool)
      → ((s id : String) → is_valid s ≡ true → scheduler.accepts (cron s id) ≡ true)
      → (i : ℕ) (vs : Items)
      → OnOk
          (λ (checked : Items).
            map some (add_each (cron_jobs i (items checked))) ≡ cron_jobs i (items checked))
          (valid_items is_valid vs)
  unfolding add_each cron_jobs valid_items
  add_each-accepted is_valid h i nil = refl
  add_each-accepted is_valid h i (cons (str s) rest) = elim (Bool-cases (is_valid s)) [
    | inr e ↦ rw e tt
    | inl e ↦ rw e (
        OnOk-bind _ _ (valid_items is_valid rest) _ (add_each-accepted is_valid h (i + 1) rest)
          (λ (checked : Items) same. rw (h s (format ("auto_refresh_" ∷ show_nat i ∷ [])) e) (
            ap
              (λ (x : List (Option Job)).
                some (cron s (format ("auto_refresh_" ∷ show_nat i ∷ []))) ∷ x)
              same)))
  ]
  add_each-accepted is_valid h i (cons null rest) = tt
  add_each-accepted is_valid h i (cons (bool b) rest) = tt
  add_each-accepted is_valid h i (cons (num n) rest) = tt
  add_each-accepted is_valid h i (cons (arr vs) rest) = tt
  add_each-accepted is_valid h i (cons (obj fs) rest) = tt
