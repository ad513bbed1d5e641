-- ===== src/Api/Request/Outcomes.antt =====
-- What a settled request says of the reply, and what it did to the browser.
use Prim.Native.String.{◌++◌}
use starbies_schedule_sync.Base.{◌≡◌, refl, ◌↔◌, Bool, true, false, none, some, arith, eq_iff}
use starbies_schedule_sync.Browser.{Browser, ok}
use starbies_schedule_sync.Api.Request.{
  Response, ErrorKey, Body, document, malformed, Reply, rejected, received, ok_status, is_json,
  read, receive,
}

-- The reply is JSON with a status of 2xx and a document that the caller reads as `a`.
pub record IsAnswer {ℓ} {A : Type ℓ} (reply : Reply A) (a : A) : Type ℓ where
  pub response : Response A
  pub key : ErrorKey
  pub arrived : reply ≡ received response
  pub json : is_json response.content_type ≡ true
  pub success : ok_status response.status ≡ true
  pub reads : response.body ≡ document a key

module _ {ℓ} {A : Type ℓ} where
  read-document :
      (body : Body A) {a : A} → read body ≡ ok a → (key : ErrorKey) × (body ≡ document a key)
  unfolding read
  read-document (document a key) h = (key, ground arith)
  read-document (malformed m) h = cc

  receive_answered :
      (redirect : Bool) (res : Response A) (b : Browser) {a : A} {b' : Browser}
      → receive redirect (received res) b ≡ (ok a, b')
      → (is_json res.content_type ≡ true)
        × (ok_status res.status ≡ true)
        × (read res.body ≡ ok a)
        × (b' ≡ b)
  unfolding receive
  receive_answered redirect res b h = ground arith

  receive-IsAnswer :
      (redirect : Bool) (reply : Reply A) (b : Browser) {a : A} {b' : Browser}
      → receive redirect reply b ≡ (ok a, b')
      → IsAnswer reply a × (b' ≡ b)
  unfolding receive
  receive-IsAnswer redirect (rejected m) b h = cc
  receive-IsAnswer redirect (received res) b h =
      let (json, success, reads, same) = receive_answered redirect res b h in
      let (key, body) = read-document res.body reads in
      (
        record {
          response = res;
          key = key;
          arrived = refl;
          json = json;
          success = success;
          reads = body;
        },
        same,
      )

  receive_of_IsAnswer :
      (redirect : Bool) (reply : Reply A) (b : Browser) {a : A}
      → IsAnswer reply a
      → receive redirect reply b ≡ (ok a, b)
  unfolding receive
  receive_of_IsAnswer redirect reply b h = ground arith

  -- A request gives a value exactly when the reply is JSON with a status of 2xx whose document the
  -- caller reads as that value, and then it leaves the browser as it was.
  pub receive-eq-ok_iff :
      (redirect : Bool) (reply : Reply A) (b : Browser) (a : A) (b' : Browser)
      → (receive redirect reply b ≡ (ok a, b')) ↔ (IsAnswer reply a × (b' ≡ b))
  receive-eq-ok_iff redirect reply b a b' =
      (receive-IsAnswer redirect reply b, λ p. rw p.1 (receive_of_IsAnswer redirect reply b p.0))

  -- A reply that sends the browser to the login page: JSON with status 401, if the call asks for it.
  abbrev pub IsSignedOut : Bool → Reply A → Type 0
  IsSignedOut redirect (rejected _) = ⊥
  IsSignedOut redirect (received res) =
      (redirect ≡ true) × (is_json res.content_type ≡ true) × (res.status ≡ 401)

  -- A reply that is not JSON: the challenge page of a bot barrier.
  abbrev pub IsChallenge : Reply A → Type 0
  IsChallenge (rejected _) = ⊥
  IsChallenge (received res) = is_json res.content_type ≡ false

  -- On a page that is not being left, a request starts a page load of "/login" exactly for a
  -- signed-out reply to a call that asks for the redirect, and of "/" exactly for a challenge page,
  -- for which alone the return path changes: it becomes the page's path and query.
  pub receive_leaves_iff :
      (redirect : Bool) (reply : Reply A) (b : Browser)
      → b.href ≡ none
      → let after = (receive redirect reply b).1 in
        ((after.href ≡ some "/login") ↔ IsSignedOut redirect reply)
        × ((after.href ≡ some "/") ↔ IsChallenge reply)
        × (IsChallenge reply → after.return_path ≡ some (b.pathname ++ b.search))
        × (¬ IsChallenge reply → after.return_path ≡ b.return_path)
  unfolding receive
  receive_leaves_iff redirect (rejected m) b h = ground (arith, eq_iff "/" "/login")
  receive_leaves_iff redirect (received res) b h = ground (arith, eq_iff "/" "/login")
