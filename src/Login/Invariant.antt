-- ===== src/Login/Invariant.antt =====
-- One request at a time.
use starbies_schedule_sync.Base.{◌≡◌, arith, length, if◌then◌else◌}
use starbies_schedule_sync.Login.{
  Page, opened, handle_request_pin, pin_requested, handle_verify_pin, pin_verified, request_failed,
  use_different_email, Step, type_email, type_pin, submit_email, submit_pin, pin_sent, signed_in,
  refused, change_email, Reach, here, next,
}

-- A request is under way exactly while the page is loading, and then only one.
abbrev pub OneRequest : Page → Type 0
OneRequest p = length p.pending ≡ (if p.ui.loading then 1 else 0)

Step-OneRequest : {p q : Page} → Step p q → OneRequest p → OneRequest q
unfolding handle_request_pin pin_requested handle_verify_pin pin_verified request_failed
    use_different_email
Step-OneRequest (type_email v h) inv = inv
Step-OneRequest (type_pin v h) inv = inv
Step-OneRequest (submit_email h k) inv = ground arith
Step-OneRequest (submit_pin h k) inv = ground arith
Step-OneRequest (pin_sent to rest h) inv = ground arith
Step-OneRequest (signed_in to pin rest u h) inv = ground arith
Step-OneRequest (refused e r rest h) inv = ground arith
Step-OneRequest (change_email h) inv = inv

-- In every reachable state of the login page, a request is under way exactly while the page is
-- loading, and there is never a second one.
pub Reach-OneRequest : {p : Page} → Reach opened p → OneRequest p
Reach-OneRequest here = ground arith
Reach-OneRequest (next r st) = Step-OneRequest st (Reach-OneRequest r)
