-- ===== src/Login/Tests.antt =====
-- Runs of the login page.
use starbies_schedule_sync.Base.{◌≡◌, refl, true, [], ◌∷◌}
use starbies_schedule_sync.Api.Endpoints.{verify_pin}
use starbies_schedule_sync.Login.{
  Page, enter_pin, opened, handle_request_pin, pin_requested, handle_verify_pin, type_email,
  submit_email, pin_sent, type_pin, submit_pin, Reach, here, next,
}
use starbies_schedule_sync.Login.Invariant.{OneRequest, Reach-OneRequest}
use starbies_schedule_sync.Login.Emails.{IsKnown, verify_pin-IsKnown}
use starbies_schedule_sync.Login.View.{pin_form, render}

abbrev checking : Page
checking = record opened {
  ui = record { email = "a@b.c"; pin = "123456"; step = enter_pin; loading = true; error = "" };
  pending = verify_pin "a@b.c" "123456" ∷ [];
  sent = "a@b.c" ∷ [];
}

Reach-checking : Reach opened checking
unfolding handle_request_pin pin_requested handle_verify_pin
Reach-checking =
    let typed = next here (type_email "a@b.c" refl) in
    let asked = next typed (submit_email refl refl) in
    let sent = next asked (pin_sent "a@b.c" [] refl) in
    next (next sent (type_pin "123456" refl)) (submit_pin refl refl)

Reach-OneRequest_example : OneRequest checking
Reach-OneRequest_example = Reach-OneRequest Reach-checking

-- The email is changed while the PIN is being sent.
abbrev astray : Page
astray = record opened {
  ui = record { email = "x@y.z"; pin = "123456"; step = enter_pin; loading = true; error = "" };
  pending = verify_pin "x@y.z" "123456" ∷ [];
  sent = "a@b.c" ∷ [];
  typed_meanwhile = "x@y.z" ∷ [];
}

Reach-astray : Reach opened astray
unfolding handle_request_pin pin_requested handle_verify_pin
Reach-astray =
    let typed = next here (type_email "a@b.c" refl) in
    let asked = next typed (submit_email refl refl) in
    let edited = next asked (type_email "x@y.z" refl) in
    let sent = next edited (pin_sent "a@b.c" [] refl) in
    next (next sent (type_pin "123456" refl)) (submit_pin refl refl)

verify_pin-IsKnown_example : IsKnown "x@y.z" astray.sent astray.typed_meanwhile
verify_pin-IsKnown_example = verify_pin-IsKnown astray "x@y.z" "123456" [] Reach-astray refl

rendered : (render checking.ui).form ≡ pin_form "123456"
unfolding render
rendered = refl
