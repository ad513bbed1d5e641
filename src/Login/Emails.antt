-- ===== src/Login/Emails.antt =====
-- Which email a PIN is checked for.
use starbies_schedule_sync.Base.{
  Has, String, ◌≡◌, ◌⊎◌, inl, inr, refl, sym, false, List, [], ◌∷◌, arith, if◌then◌else◌,
}
use starbies_schedule_sync.Api.Endpoints.{Endpoint, request_pin, verify_pin}
use starbies_schedule_sync.Login.{
  enter_email, enter_pin, Page, is_empty, opened, handle_request_pin, pin_requested,
  handle_verify_pin, pin_verified, request_failed, use_different_email, Step, type_email, type_pin,
  submit_email, submit_pin, pin_sent, signed_in, refused, change_email, Reach, here, next,
}
use starbies_schedule_sync.Login.Invariant.{Reach-OneRequest}

-- A PIN was sent to the email, or it was typed while a request was under way.
abbrev pub IsKnown : String → List String → List String → Type 0
IsKnown email sent typed = Has email sent ⊎ Has email typed

-- A request for a PIN is for the email in the field, or the field was edited since; one to check a
-- PIN is for a known email.
abbrev IsAimed : String → List String → List String → List Endpoint → Type 0
IsAimed email sent typed [] = Unit
IsAimed email sent typed (request_pin to ∷ rest) =
    ((to ≡ email) ⊎ Has email typed) × IsAimed email sent typed rest
IsAimed email sent typed (verify_pin to pin ∷ rest) =
    IsKnown to sent typed × IsAimed email sent typed rest
IsAimed email sent typed (_ ∷ rest) = IsAimed email sent typed rest

pub record Inv (p : Page) : Type 0 where
  aimed : IsAimed p.ui.email p.sent p.typed_meanwhile p.pending
  pub reached : p.ui.step ≡ enter_pin → IsKnown p.ui.email p.sent p.typed_meanwhile

IsKnown-sent :
    (email to : String) (sent typed : List String)
    → IsKnown email sent typed
    → IsKnown email (to ∷ sent) typed
IsKnown-sent email to sent typed (inl h) = inl (inr h)
IsKnown-sent email to sent typed (inr h) = inr h

IsKnown-typed :
    (email value : String) (sent typed : List String)
    → IsKnown email sent typed
    → IsKnown email sent (value ∷ typed)
IsKnown-typed email value sent typed (inl h) = inl h
IsKnown-typed email value sent typed (inr h) = inr (inr h)

IsAimed-sent :
    (email to : String) (sent typed : List String) (rest : List Endpoint)
    → IsAimed email sent typed rest
    → IsAimed email (to ∷ sent) typed rest
IsAimed-sent email to sent typed [] h = tt
IsAimed-sent email to sent typed (request_pin x ∷ rest) (h, k) =
    (h, IsAimed-sent email to sent typed rest k)
IsAimed-sent email to sent typed (verify_pin x pin ∷ rest) (h, k) =
    (IsKnown-sent x to sent typed h, IsAimed-sent email to sent typed rest k)
IsAimed-sent email to sent typed (_ ∷ rest) h = IsAimed-sent email to sent typed rest h

IsAimed-typed :
    (email value : String) (sent typed : List String) (rest : List Endpoint)
    → IsAimed email sent typed rest
    → IsAimed value sent (value ∷ typed) rest
IsAimed-typed email value sent typed [] h = tt
IsAimed-typed email value sent typed (request_pin x ∷ rest) (h, k) =
    (inr (inl refl), IsAimed-typed email value sent typed rest k)
IsAimed-typed email value sent typed (verify_pin x pin ∷ rest) (h, k) =
    (IsKnown-typed x value sent typed h, IsAimed-typed email value sent typed rest k)
IsAimed-typed email value sent typed (_ ∷ rest) h = IsAimed-typed email value sent typed rest h

IsAimed-tail :
    (email : String) (sent typed : List String) (r : Endpoint) (rest : List Endpoint)
    → IsAimed email sent typed (r ∷ rest)
    → IsAimed email sent typed rest
IsAimed-tail email sent typed (request_pin x) rest (h, k) = k
IsAimed-tail email sent typed (verify_pin x pin) rest (h, k) = k
IsAimed-tail email sent typed _ rest h = h

type_into_email-IsAimed :
    (value email : String) (sent typed : List String) (pending : List Endpoint)
    → IsAimed email sent typed pending
    → IsAimed value sent (if is_empty pending then typed else value ∷ typed) pending
type_into_email-IsAimed value email sent typed [] h = tt
type_into_email-IsAimed value email sent typed (r ∷ rest) h =
    IsAimed-typed email value sent typed (r ∷ rest) h

Step-Inv : {p q : Page} → Step p q → Inv p → Inv q
unfolding handle_request_pin pin_requested handle_verify_pin pin_verified request_failed
    use_different_email
Step-Inv {p} (type_email value h) inv = record {
  aimed = type_into_email-IsAimed value p.ui.email p.sent p.typed_meanwhile p.pending inv.aimed;
  reached = λ e. absurd (cc (h, e));
}
Step-Inv (type_pin v h) inv = ground arith
Step-Inv (submit_email h k) inv = record { aimed = (inl refl, inv.aimed); reached = inv.reached }
Step-Inv (submit_pin h k) inv = record { aimed = (inv.reached h, inv.aimed); reached = inv.reached }
Step-Inv {p} (pin_sent to rest h) inv =
    let (same, aimed) = rw h at (inv.aimed) in
    record {
      aimed = IsAimed-sent p.ui.email to p.sent p.typed_meanwhile rest aimed;
      reached = λ _. elim same [ inl e ↦ inl (inl (sym e)) | inr k ↦ inr k ];
    }
Step-Inv (signed_in to pin rest u h) inv =
    let (known, aimed) = rw h at (inv.aimed) in record { aimed = aimed; reached = inv.reached }
Step-Inv {p} (refused e r rest h) inv =
    let aimed = rw h at (inv.aimed) in
    record {
      aimed = IsAimed-tail p.ui.email p.sent p.typed_meanwhile r rest aimed;
      reached = inv.reached;
    }
Step-Inv (change_email h) inv = record { aimed = inv.aimed; reached = λ e. absurd cc }

pub Reach-Inv : {p : Page} → Reach opened p → Inv p
Reach-Inv here = record { aimed = tt; reached = λ h. absurd cc }
Reach-Inv (next r st) = Step-Inv st (Reach-Inv r)

-- In every reachable state of the page, a PIN is only checked for an email to which a PIN was sent, or
-- for one that was typed into the field while a request was under way.
pub verify_pin-IsKnown :
    (p : Page) (to pin : String) (rest : List Endpoint)
    → Reach opened p
    → p.pending ≡ verify_pin to pin ∷ rest
    → IsKnown to p.sent p.typed_meanwhile
verify_pin-IsKnown p to pin rest reach h = (rw h at ((Reach-Inv reach).aimed)).0

-- The second of these happens: wherever the form for the email is shown and no request is under way,
-- the page can come to check a PIN for any other email when it has only sent one to the email that
-- is shown.
pub verify_pin_other :
    (p : Page) (other pin : String)
    → Reach opened p
    → p.ui.step ≡ enter_email
    → p.ui.loading ≡ false
    → (q : Page) × Reach opened q
      × (q.sent ≡ p.ui.email ∷ p.sent)
      × (q.pending ≡ verify_pin other pin ∷ [])
unfolding handle_request_pin pin_requested handle_verify_pin
verify_pin_other p other pin reach h idle =
    let none_pending : p.pending ≡ [] = ground (arith, Reach-OneRequest reach) in
    let asked = next reach (submit_email h idle) in
    let edited = next asked (type_email other h) in
    let sent = next edited (pin_sent p.ui.email p.pending refl) in
    let entered = next sent (type_pin pin refl) in
    (_, next entered (submit_pin refl refl), refl, rw none_pending refl)
