-- ===== src/Settings/Handlers.antt =====
-- What the handlers of the settings page do on each answer.
use starbies_schedule_sync.Base.{◌≡◌, ◌↔◌, true, false, none, some, arith, is_some}
use starbies_schedule_sync.Browser.{Browser}
use starbies_schedule_sync.Api.Types.{CredentialsFormData}
use starbies_schedule_sync.Api.Endpoints.{Network, logout, update_credentials, delete_account, api}
use starbies_schedule_sync.Api.Answers.{answer_to, value_of, api-answer}
use starbies_schedule_sync.Settings.{
  Settings, handle_update_credentials, handle_delete_account, handle_logout,
}

-- An update of the credentials reports success exactly if the server answers, and throws exactly
-- if it does not, so that the form is told; success and an old error are never shown together.
pub handle_update_credentials_lem :
    (net : Network) (b : Browser) (d : CredentialsFormData) (s : Settings)
    → let h = handle_update_credentials net b d s in
      (h.page.success ≡ is_some (answer_to net (update_credentials d)))
      × (is_some (value_of h.outcome) ≡ h.page.success)
      × (h.page.success ≡ true → h.page.error ≡ "")
unfolding handle_update_credentials
handle_update_credentials_lem net b d s = ground (arith, api-answer net (update_credentials d) b)

-- The account's deletion never throws: if the server answers, the browser leaves for the login page
-- with the button still disabled; if not, the button is enabled again and the page stays, but for
-- what the request itself did to the browser.
pub handle_delete_account_lem :
    (net : Network) (b : Browser) (s : Settings)
    → let h = handle_delete_account net b s in
      (is_some (value_of h.outcome) ≡ true)
      × (h.page.deleting ≡ is_some (answer_to net delete_account))
      × (h.page.deleting ≡ true → h.browser.href ≡ some "/login")
      × (h.page.deleting ≡ false → h.browser ≡ (api net delete_account b).1)
unfolding handle_delete_account
handle_delete_account_lem net b s = ground (arith, api-answer net delete_account b)

-- Signing out goes to the login page exactly if the server answers; otherwise the handler throws,
-- and the page keeps its state either way.
pub handle_logout_lem :
    (net : Network) (b : Browser) (s : Settings)
    → let h = handle_logout net b s in
      ((h.target ≡ some "/login") ↔ (is_some (answer_to net logout) ≡ true))
      × ((h.target ≡ none) ↔ (value_of h.outcome ≡ none))
      × (h.page ≡ s)
unfolding handle_logout
handle_logout_lem net b s = ground (arith, api-answer net logout b)
