-- ===== src/Api/Request.antt =====
-- `request`, `handleBotBarrier` (web/src/lib/api.ts) and `errorMessage` (web/src/lib/utils.ts).
-- `fetch` is a parameter: a function from the call to a reply.
pub mod Outcomes
use Prim.Native.String.{◌++◌}
use text.Mathlib.Text.{find?}
use starbies_schedule_sync.Base.{
  ℕ, String, Bool, not, ◌&&◌, Option, some, List, [], ◌∷◌, leb, ◌==◌, if◌then◌else◌, or_else,
  is_some, str_eq,
}
use starbies_schedule_sync.Browser.{Browser, Thrown, error, other, Result, err, ok, Async}
use starbies_schedule_sync.Api.Types.{CredentialsFormData}

-- What the source hands to `JSON.stringify`.
pub data Payload : Type 0 where
  pin_request : (email : String) → Payload
  pin_check : (email pin : String) → Payload
  credentials : CredentialsFormData → Payload
  timezone : String → Payload

abbrev pub Headers : Type 0
Headers = List (String × String)

-- The fields of `RequestInit` that the client uses; `none` is a key that is not there.
pub record RequestInit : Type 0 where
  pub method : Option String
  pub headers : Option Headers
  pub body : Option Payload

-- What `fetch` is called with.
pub record Call : Type 0 where
  pub path : String
  pub credentials : String
  pub method : String
  pub headers : Headers
  pub body : Option Payload

-- `object[key] = value`
unfoldable pub assign : String → String → Headers → Headers
assign k v [] = (k, v) ∷ []
assign k v ((j, w) ∷ hs) = if str_eq j k then (k, v) ∷ hs else (j, w) ∷ assign k v hs

-- `{ ...base, ...over }`
unfoldable pub spread : Headers → Headers → Headers
unfolding assign
spread base [] = base
spread base ((k, v) ∷ over) = spread (assign k v base) over

-- The object literal of the `fetch` call: `...options` comes last, so it overrides `headers` too.
unfoldable pub call_of : String → RequestInit → Call
unfolding spread
call_of path options =
    let merged = spread (("Content-Type", "application/json") ∷ []) (or_else options.headers []) in
    record {
      path = path;
      credentials = "include";
      method = or_else options.method "GET";
      headers = or_else options.headers merged;
      body = options.body;
    }

-- The `error` key of a parsed document. On `null` its access throws, with the engine's message.
pub data ErrorKey : Type 0 where
  null_document : (message : String) → ErrorKey
  absent : ErrorKey
  present : String → ErrorKey

-- `res.json()`: the document as the caller's `T` reads it, or the parser's message.
pub data Body {ℓ} (A : Type ℓ) : Type ℓ where
  document : A → ErrorKey → Body A
  malformed : (message : String) → Body A

pub record Response {ℓ} (A : Type ℓ) : Type ℓ where
  pub status : ℕ
  pub status_text : String
  pub content_type : Option String
  pub body : Body A

-- `fetch` rejects with a `TypeError`, or fulfils with a response.
pub data Reply {ℓ} (A : Type ℓ) : Type ℓ where
  rejected : (message : String) → Reply A
  received : Response A → Reply A

unfoldable pub includes : String → String → Bool
includes s part = is_some (find? s part)

-- `res.ok`
abbrev pub ok_status : ℕ → Bool
ok_status s = leb 200 s && leb s 299

abbrev pub is_json : Option String → Bool
is_json content_type = includes (or_else content_type "") "application/json"

-- `new Error(body.error ?? res.statusText)`, where a body that does not parse gives the status text.
unfoldable pub failure_of {ℓ} : {A : Type ℓ} → String → Body A → Thrown
failure_of status_text (malformed _) = error status_text
failure_of status_text (document _ (null_document m)) = error m
failure_of status_text (document _ absent) = error status_text
failure_of status_text (document _ (present m)) = error m

-- `res.json() as Promise<T>`
unfoldable pub read {ℓ} : {A : Type ℓ} → Body A → Result A
read (document a _) = ok a
read (malformed m) = err (error m)

unfoldable pub handle_bot_barrier {ℓ} : {A : Type ℓ} → Async A
handle_bot_barrier b = (
  err (error "Bot barrier challenge required"),
  record b { return_path = some (b.pathname ++ b.search); href = some "/" },
)

abbrev pub go_to : String → Browser → Browser
go_to url b = record b { href = some url }

unfoldable pub receive {ℓ} : {A : Type ℓ} → Bool → Reply A → Async A
unfolding handle_bot_barrier failure_of read
receive redirect_on_401 (rejected m) b = (err (error m), b)
receive redirect_on_401 (received res) b =
    if not (is_json res.content_type)
    then handle_bot_barrier b
    else if res.status == 401
    then (err (error "Not authenticated"), if redirect_on_401 then go_to "/login" b else b)
    else if not (ok_status res.status)
    then (err (failure_of res.status_text res.body), b)
    else (read res.body, b)

unfoldable pub request {ℓ} : {A : Type ℓ} → (Call → Reply A) → String → RequestInit → Bool → Async A
unfolding receive call_of
request fetch path options redirect_on_401 = receive redirect_on_401 (fetch (call_of path options))

-- `errorMessage` of utils.ts
unfoldable pub error_message : Thrown → String
error_message (error m) = m
error_message other = "Unexpected error"
