-- ===== src/Settings/Api/Kept.antt =====
-- update_settings: how a request can end, what it leaves as it was, and when Redis is connected again.
use buchi_maker.Common.{lookup, String, ◌≡◌, ◌⊎◌, Bool, true, false, ◌&&◌}
use buchi_maker.Settings.{World, Saving, GeneralSettings}
use buchi_maker.Settings.Api.{
  SystemSettings, Update, HttpError, refused, SystemSettingsResponse, updated, view, can_be_read,
  unanswerable, redis_changed, Trouble, raised,
}
use buchi_maker.Settings.Api.Same.{IsAbsent}

module _ (w : World) (is_file : String → Bool) (database : String) (how : String → Saving) where
  -- How a request can end: the settings that it does not name are as they were, whatever happens; a refusal changes
  -- nothing; an answer shows the settings then, and Redis is connected again if the request names one of its
  -- settings; an exception comes before Redis is connected again, or after it, where the settings cannot be shown.
  pub record IsUpdate (accepts : SystemSettingsResponse → Bool) (body : SystemSettings)
      (s : GeneralSettings) (u : Update) : Type 0 where
    pub kept : (k : String) → IsAbsent body k → lookup k u.settings.current ≡ lookup k s.current
    pub on_refused :
        (e : HttpError)
        → u.answer ≡ refused e
        → (u.settings ≡ s) × ((e.status ≡ 422) × (u.reconnected ≡ false))
    pub on_updated :
        (shown : SystemSettingsResponse)
        → u.answer ≡ updated shown
        → (shown ≡ view w is_file database how u.settings)
          × ((can_be_read shown ≡ true) × (u.reconnected ≡ redis_changed body))
    pub on_raised :
        (e : Trouble)
        → u.answer ≡ raised e
        → (u.reconnected ≡ false)
          ⊎ (e ≡ unanswerable)
            × ((can_be_read (view w is_file database how u.settings)
                    && accepts (view w is_file database how u.settings)
                  ≡ false)
                × (u.reconnected ≡ redis_changed body))
