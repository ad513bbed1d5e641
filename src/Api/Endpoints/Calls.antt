-- ===== src/Api/Endpoints/Calls.antt =====
-- What every call of the client carries.
use starbies_schedule_sync.Base.{
  String, ◌≡◌, ◌≢◌, true, some, [], ◌∷◌, arith, is_some, eq_iff, Has, or_else,
}
use starbies_schedule_sync.Api.Request.{RequestInit, Call, Headers, call_of}
use starbies_schedule_sync.Api.Endpoints.{Endpoint, path_of, options_of}

abbrev pub call : Endpoint → Call
call e = call_of (path_of e) (options_of e)

-- Every call of the client is declared as JSON, sends the cookies, and has a
-- body only with a method other than GET and DELETE.
pub call_lem :
    (e : Endpoint)
    → ((call e).headers ≡ ("Content-Type", "application/json") ∷ [])
      × ((call e).credentials ≡ "include")
      × (is_some (call e).body ≡ true → ((call e).method ≢ "GET") × ((call e).method ≢ "DELETE"))
unfolding call_of options_of
call_lem e = ground (
  arith,
  eq_iff "POST" "GET",
  eq_iff "POST" "DELETE",
  eq_iff "PUT" "GET",
  eq_iff "PUT" "DELETE",
  eq_iff "PATCH" "GET",
  eq_iff "PATCH" "DELETE",
)

-- Headers given in the options replace the merged ones, so that a call with headers of its own
-- carries the content type only if those have it.
pub call_of-headers :
    (path : String) (options : RequestInit) (own : Headers) (value : String)
    → options.headers ≡ some own
    → Has ("Content-Type", value) (call_of path options).headers
    → Has ("Content-Type", value) own
unfolding call_of
call_of-headers path options own value h k = rw (h, or_else) at k
