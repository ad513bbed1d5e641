-- ===== src/Api/Answers.antt =====
-- What the server answers to an endpoint's call, and that a call of `api` gives just that.
use starbies_schedule_sync.Base.{◌≡◌, refl, Bool, Option, none, some, arith, if◌then◌else◌, ◌&&◌}
use starbies_schedule_sync.Browser.{Browser, Result, ok, err}
use starbies_schedule_sync.Api.Request.{
  Body, document, malformed, Reply, rejected, received, call_of, is_json, ok_status, receive,
}
use starbies_schedule_sync.Api.Endpoints.{
  Endpoint, Answer, Network, path_of, options_of, redirects, api,
}

-- The document of a JSON reply with a status of 2xx.
abbrev pub parsed {ℓ} : {A : Type ℓ} → Body A → Option A
parsed (document a _) = some a
parsed (malformed _) = none

abbrev pub answer {ℓ} : {A : Type ℓ} → Reply A → Option A
answer (rejected _) = none
answer (received res) =
    if is_json res.content_type && ok_status res.status then parsed res.body else none

abbrev pub answer_to : (net : Network) (e : Endpoint) → Option (Answer e)
answer_to net e = answer (net e (call_of (path_of e) (options_of e)))

abbrev pub value_of {ℓ} : {A : Type ℓ} → Result A → Option A
value_of (ok a) = some a
value_of (err _) = none

receive-answer {ℓ} :
    {A : Type ℓ} (redirect : Bool) (reply : Reply A) (b : Browser)
    → value_of (receive redirect reply b).0 ≡ answer reply
unfolding receive
receive-answer redirect (rejected m) b = refl
receive-answer redirect (received res) b = ground arith

pub api-answer :
    (net : Network) (e : Endpoint) (b : Browser) → value_of (api net e b).0 ≡ answer_to net e
unfolding api
api-answer net e b = receive-answer (redirects e) (net e (call_of (path_of e) (options_of e))) b
