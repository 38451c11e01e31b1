-- ===== src/Gate.antt =====
-- What stands before the routes: the limit on request bodies (backend/api/size_limiter.py), the
-- bearer token (backend/api/auth.py), the actor (backend/api/actor.py), the dispatch of the rate
-- limiter (backend/api/rate_limiter.py) and the guard of the probes (backend/probes/guard.py).
pub mod Body
pub mod Token
mod Tests
use sih.Prelude.{
  ℕ, ◌+◌, ◌≡◌, Bool, true, false, not, ◌&&◌, ◌||◌, Option, none, some, String, List, [], ◌∷◌, ◌++◌,
  map, any, keep, length, ltb, leb, ◌==◌, if◌then◌else◌,
}
use sih.Prelude.Int.{ℤ, pos, ltb_ℤ}
use sih.Prelude.Text.{str_eq, codes}
use sih.Prelude.Bytes.{Bytes, bytes_eq, starts_with, str_strip}
use sih.RateLimiter.{Settings, Answer, Requests, is_allowed}

-- A message of the server: a part of the body, or another one.
pub data Message : Type 0 where
  http_request : Bytes → Message
  other_message : Message

-- The connection: `scope["type"]`, `scope["path"]` and the header `content-length`.
pub record Scope : Type 0 where
  pub type : String
  pub path : String
  pub content_length : Option String

-- The messages that reach the application, and whether the request is answered with 413.
pub record Served : Type 0 where
  pub delivered : List Message
  pub too_large : Bool

unfoldable pub is_upload : String → Bool
is_upload path = str_eq path "/api/v1/scans/upload" || str_eq path "/api/v1/criticality/import"

unfoldable pub size_of : Message → ℕ
size_of (http_request body) = length body
size_of other_message = 0

-- `limited_receive`, for an application that reads message after message; `received` is
-- `bytes_received`. Only a part of the body is counted and can raise.
unfoldable pub limited : ℕ → ℕ → List Message → Served
limited max received [] = record { delivered = []; too_large = false }
limited max received (other_message ∷ ms) =
    let rest = limited max received ms in
    record { delivered = other_message ∷ rest.delivered; too_large = rest.too_large }
limited max received (http_request body ∷ ms) =
    let total = received + length body in
    let rest = limited max total ms in
    if ltb max total
    then record { delivered = []; too_large = true }
    else record { delivered = http_request body ∷ rest.delivered; too_large = rest.too_large }

-- `content_length > self.max_json_bytes`; `int` is Python's `int` of a text, `none` its error.
unfoldable pub declares_more : (String → Option ℤ) → ℕ → Option String → Bool
declares_more int max none = false
declares_more int max (some text) =
    if str_eq text "" then false else elim (int text) [ none ↦ false | some n ↦ ltb_ℤ (pos max) n ]

-- `RequestSizeLimitMiddleware.__call__`
unfoldable pub limit_size : (String → Option ℤ) → ℕ → Scope → List Message → Served
limit_size int max scope ms =
    if not (str_eq scope.type "http")
    then record { delivered = ms; too_large = false }
    else if is_upload scope.path
    then record { delivered = ms; too_large = false }
    else if declares_more int max scope.content_length
    then record { delivered = []; too_large = true }
    else limited max 0 ms

-- The environment: `ECDAT_API_TOKEN` (empty if unset) and the result of `is_dev_mode`.
pub record Environment : Type 0 where
  pub api_token : Bytes
  pub dev_mode : Bool

unfoldable pub dev_token : Bytes
dev_token = codes "ecdat-dev-insecure-token"

-- `get_expected_token`; `none` is its `RuntimeError`.
unfoldable pub get_expected_token : Environment → Option Bytes
get_expected_token env = elim (str_strip env.api_token) [
  | [] ↦ if env.dev_mode then some dev_token else none
  | c ∷ token ↦ some (c ∷ token)
]

pub data Access : Type 0 where
  granted : Bytes → Access
  unauthorized misconfigured : Access

-- The comparison with the expected token.
unfoldable pub compare_token : Bytes → Option Bytes → Access
compare_token given none = misconfigured
compare_token given (some expected) =
    if bytes_eq given expected then granted given else unauthorized

unfoldable pub verify_bearer_token : Environment → Option Bytes → Access
verify_bearer_token env none = unauthorized
verify_bearer_token env (some []) = unauthorized
verify_bearer_token env (some (c ∷ given)) = compare_token (c ∷ given) (get_expected_token env)

-- `request.method in ("POST", "PUT", "PATCH", "DELETE")`
unfoldable pub is_write : String → Bool
is_write method =
    str_eq method "POST"
    || (str_eq method "PUT" || (str_eq method "PATCH" || str_eq method "DELETE"))

-- `require_actor_on_write`: the actor, or `none` for the status 400.
unfoldable pub require_actor_on_write : String → Option Bytes → Option Bytes
require_actor_on_write method header =
    if is_write method
    then elim header [
      | none ↦ none
      | some actor ↦ elim (str_strip actor) [ [] ↦ none | c ∷ rest ↦ some (c ∷ rest) ]
    ]
    else some (codes "system")

-- The request as `dispatch` sees it: the texts are put together to the key of the limiter.
pub record Request : Type 0 where
  pub method : String
  pub path : String
  pub test_client_id : Option String
  pub client_host : Option String

pub data Dispatched : Type 0 where
  -- Handed on without limit.
  unlimited : Dispatched
  -- Handed on, with the room that is left.
  passed : ℕ → Dispatched
  -- Answered with 429, with the wait.
  refused : ℕ → Dispatched

-- `test_client_id or (request.client.host if request.client else "unknown_client")`
unfoldable pub client_of : Bool → Request → String
client_of trust r = elim r.test_client_id [
  | none ↦ host r.client_host
  | some id ↦ if trust && not (str_eq id "") then id else host r.client_host
]
  where
    host : Option String → String
    host = elim [ none ↦ "unknown_client" | some h ↦ h ]

unfoldable pub answer_to : Answer → Dispatched
answer_to a = if a.allowed then passed a.remaining else refused a.retry_after

-- `dispatch`, at time `now`: `off` and `trust` are the two switches of the environment, and `key`
-- puts client, method and path together.
unfoldable pub dispatch :
    Settings
    → (String → String → String → String)
    → Bool
    → Bool
    → ℕ
    → Request
    → Requests
    → Dispatched × Requests
dispatch s key off trust now r requests =
    if off
    then (unlimited, requests)
    else if is_write r.method && starts_with (codes "/api/v1/") (codes r.path)
    then (let (a, next) = is_allowed s (key (client_of trust r) r.method r.path) 1 now requests in
        (answer_to a, next))
    else (unlimited, requests)

-- `DEFAULT_ALLOWED_HOSTS`
unfoldable pub default_allowed_hosts : List Bytes
default_allowed_hosts =
    codes "localhost"
    ∷ codes "127.0.0.1"
    ∷ codes "::1"
    ∷ codes "test-target-legacy-tls"
    ∷ codes "test-target-modern-tls"
    ∷ codes "test-target-legacy-ssh"
    ∷ codes "localstack"
    ∷ []

-- `text.split(",")`
unfoldable pub split_comma : Bytes → List Bytes
split_comma [] = [] ∷ []
split_comma (c ∷ s) =
    let rest = split_comma s in
    if c == b','
    then [] ∷ rest
    else elim rest [ [] ↦ (c ∷ []) ∷ [] | part ∷ parts ↦ (c ∷ part) ∷ parts ]

-- `lower` is `str.lower`, of the code points of a text.
module _ (lower : Bytes → Bytes) where
  unfoldable pub normal : Bytes → Bytes
  normal host = lower (str_strip host)

  unfoldable pub is_named : Bytes → Bool
  is_named [] = false
  is_named (c ∷ s) = true

  -- `get_allowed_hosts`; the argument is `ECDAT_ALLOWED_PROBE_HOSTS`, empty if unset.
  unfoldable pub get_allowed_hosts : Bytes → List Bytes
  get_allowed_hosts env =
      let extra = str_strip env in
      default_allowed_hosts
      ++ (if is_named extra then keep is_named (map normal (split_comma extra)) else [])

  unfoldable pub is_allowed_host : Bytes → Bytes → Bool
  is_allowed_host env host = any (bytes_eq (normal host)) (get_allowed_hosts env)

  -- `validate_probe_destination`: whether it returns, and does not raise.
  unfoldable pub validate_probe_destination : Bytes → Bytes → Bool
  validate_probe_destination env host = is_allowed_host env host
