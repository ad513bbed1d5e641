-- ===== src/Settings/View.antt =====
-- What web/src/pages/Settings.tsx renders around the form of the credentials.
use starbies_schedule_sync.Base.{
  String, ◌≡◌, ap, Bool, true, Option, none, List, arith, is_some, if◌then◌else◌,
}
use starbies_schedule_sync.Base.Int.{ℤ}
use starbies_schedule_sync.Browser.{Browser}
use starbies_schedule_sync.Browser.Widgets.{Button, shown}
use starbies_schedule_sync.Api.Types.{CredentialsFormData}
use starbies_schedule_sync.Api.Endpoints.{Network, update_credentials}
use starbies_schedule_sync.Api.Answers.{answer_to}
use starbies_schedule_sync.ScrapeLogs.{Parsed}
use starbies_schedule_sync.ScrapeLogs.Rows.{Row, list_rows}
use starbies_schedule_sync.Settings.{Settings, handle_update_credentials}
use starbies_schedule_sync.Settings.Handlers.{handle_update_credentials_lem}

pub record View : Type 0 where
  -- the prop `error` of the form, and "Credentials updated successfully."
  pub form_error : String
  pub updated_notice : Bool
  pub rows : Option (List Row)
  -- the action of the dialog that deletes the account
  pub delete_account : Button

handle_update_credentials_keeps :
    (net : Network) (b : Browser) (d : CredentialsFormData) (s : Settings)
    → let t = (handle_update_credentials net b d s).page in
      (t.logs ≡ s.logs) × (t.expanded_logs ≡ s.expanded_logs) × (t.deleting ≡ s.deleting)
unfolding handle_update_credentials
handle_update_credentials_keeps net b d s = ground arith

module _ (locale : String → String) (date : String → Option ℤ) (parse : String → Parsed) where
  unfoldable pub render : Settings → View
  render s = record {
    form_error = s.error;
    updated_notice = s.success;
    rows = list_rows locale date parse s.expanded_logs s.logs;
    delete_account = record {
      label = if s.deleting then "Deleting…" else "Delete my account";
      disabled = s.deleting;
    };
  }

  -- After an update of the credentials the page shows its notice exactly if the server answered,
  -- and never beside an error; the log list and the button are as before.
  pub render-handle_update_credentials :
      (net : Network) (b : Browser) (d : CredentialsFormData) (s : Settings)
      → let before = render s in
        let after = render (handle_update_credentials net b d s).page in
        (after.updated_notice ≡ is_some (answer_to net (update_credentials d)))
        × (after.updated_notice ≡ true → shown after.form_error ≡ none)
        × (after.rows ≡ before.rows)
        × (after.delete_account ≡ before.delete_account)
  unfolding render
  render-handle_update_credentials net b d s =
      let (notice, outcome, clear) = handle_update_credentials_lem net b d s in
      let (logs, open_logs, deleting) = handle_update_credentials_keeps net b d s in
      (notice, λ h. ap shown (clear h), cc, cc)
