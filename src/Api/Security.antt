-- ===== src/Api/Security.antt =====
-- api/security.go: the rate limiter, the token check and CORS, in the order of Router (api/server.go).
pub mod Budget
mod Tests
use Prim.Native.Char.{Char, code}
use forensic_listener.Prelude.{
  ℕ, ◌+◌, ◌-◌, ◌*◌, String, Bool, true, false, ◌&&◌, ◌||◌, not, Option, none, some, List, [], ◌∷◌,
  str_eq, ltb, leb, ◌==◌, if◌then◌else◌,
}

-- What the middlewares read of a request; `client_ip` is what requestIP makes of the remote address.
pub record Request : Type 0 where
  pub method : String
  pub path : String
  pub client_ip : String
  pub authorization : String
  pub api_token : String
  pub access_token : String

pub record ClientWindow : Type 0 where
  pub count : ℕ
  pub reset_at : ℕ

-- `served` stands for the route's own handler.
pub data Reply : Type 0 where
  served no_content unauthorized too_many_requests : Reply

abbrev pub Clients : Type 0
Clients = List (String × ClientWindow)

-- time.Minute, in microseconds
abbrev pub minute : ℕ
minute = 60 * 1000000

abbrev pub is_public_path : String → Bool
is_public_path path = str_eq path "/" || str_eq path "/health" || str_eq path "/favicon.ico"

unfoldable pub find_window : String → Clients → Option ClientWindow
find_window ip [] = none
find_window ip ((k, w) ∷ rest) = if str_eq k ip then some w else find_window ip rest

unfoldable pub set_window : String → ClientWindow → Clients → Clients
set_window ip w [] = (ip, w) ∷ []
set_window ip w ((k, v) ∷ rest) =
    if str_eq k ip then (k, w) ∷ rest else (k, v) ∷ set_window ip w rest

-- The window that the request counts in: the stored one, or a new one if there is none or it is over.
unfoldable pub current_window : ℕ → Option ClientWindow → ClientWindow
current_window now none = record { count = 0; reset_at = now + minute }
current_window now (some w) =
    if ltb w.reset_at now then record { count = 0; reset_at = now + minute } else w

-- `window.count++`, and whether the count is within the limit.
unfoldable pub count_request : ℕ → ℕ → String → Clients → Clients × Bool
count_request limit now ip clients =
    let w = current_window now (find_window ip clients) in
    (set_window ip (record w { count = w.count + 1 }) clients, leb (w.count + 1) limit)

abbrev pub admit : Clients × Bool → Clients × Reply
admit (clients, true) = (clients, served)
admit (clients, false) = (clients, too_many_requests)

-- rateLimiter.middleware; a limit of 0 switches it off.
unfoldable pub rate_limit : ℕ → ℕ → Request → Clients → Clients × Reply
rate_limit limit now r clients =
    if limit == 0 || is_public_path r.path
    then (clients, served)
    else admit (count_request limit now r.client_ip clients)

-- strings.TrimPrefix
unfoldable pub after_prefix : String → String → Option String
after_prefix String.[] s = some s
after_prefix (String.◌∷◌ p ps) String.[] = none
after_prefix (String.◌∷◌ p ps) (String.◌∷◌ c s) =
    let rest = after_prefix ps s in if code p == code c then rest else none

abbrev or_whole : String → Option String → String
or_whole s none = s
or_whole s (some rest) = rest

unfoldable pub trim_prefix : String → String → String
trim_prefix s prefix = or_whole s (after_prefix prefix s)

-- Whether authMiddleware lets the request through.
unfoldable pub is_authorized : String → Request → Bool
is_authorized token r =
    str_eq token ""
    || is_public_path r.path
    || str_eq (trim_prefix r.authorization "Bearer ") token
    || str_eq r.api_token token
    || (str_eq r.path "/stream/events" && str_eq r.access_token token)

-- corsMiddleware, authMiddleware and the limiter, as Router chains them.
unfoldable pub route : String → ℕ → ℕ → Request → Clients → Clients × Reply
route token limit now r clients =
    if str_eq r.method "OPTIONS"
    then (clients, no_content)
    else if is_authorized token r
    then rate_limit limit now r clients
    else (clients, unauthorized)

-- Requests one after another, each with its time.
unfoldable pub route_all : String → ℕ → List (ℕ × Request) → Clients → Clients × List Reply
route_all token limit [] clients = (clients, [])
route_all token limit ((now, r) ∷ more) clients =
    let (clients', reply) = route token limit now r clients in
    let (clients'', replies) = route_all token limit more clients' in (clients'', reply ∷ replies)
