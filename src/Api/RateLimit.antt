-- ===== src/Api/RateLimit.antt =====
-- The rate limit of the authentication routes (apps/api/src/middleware/rate_limit.rs): a window of
-- hits for each client. Instants and durations are numbers of nanoseconds.
pub mod Counting
use edustell.Common.{
  ◌&&◌, ℕ, ◌+◌, ◌-◌, ◌%◌, String, Option, none, some, Bool, true, false, not, ◌||◌, ◌∷◌, str_eq,
  is_empty, trim, starts_with, before, or_option, ltb, if◌then◌else◌,
}

pub record Window : Type 0 where
  pub started_at : ℕ
  pub hits : ℕ  -- a `u32`

-- The map behind `AUTH_RATE_LIMITS`.
abbrev pub Limits : Type 0
Limits = String → Option Window

abbrev pub auth_window : ℕ
auth_window = 60000000000

abbrev pub auth_max_requests : ℕ
auth_max_requests = 20

-- A header that is there has a text, unless `to_str` fails.
pub record Request : Type 0 where
  pub path : String
  pub x_forwarded_for : Option (Option String)
  pub x_real_ip : Option (Option String)

pub data Outcome : Type 0 where
  passed too_many_requests unavailable : Outcome

unfoldable pub is_limited_path : String → Bool
is_limited_path path =
    starts_with path "/api/v1/auth/"
    && (str_eq path "/api/v1/auth/register"
        || str_eq path "/api/v1/auth/login"
        || str_eq path "/api/v1/auth/refresh"
        || str_eq path "/api/v1/auth/verify-email"
        || str_eq path "/api/v1/auth/verify-email/begin")

-- The text of a header; 44 is the code of a comma.
unfoldable pub client_of : Option (Option String) → String
client_of none = "local"
client_of (some none) = "local"
client_of (some (some value)) =
    let name = trim (before 44 value) in if is_empty name then "local" else name

unfoldable pub client_key : Request → String
client_key request = client_of (or_option request.x_forwarded_for request.x_real_ip)

-- `entry(key).or_insert(..)`, and the reset of a window that is over; `duration_since` stops at 0.
unfoldable pub current_window : ℕ → Option Window → Window
current_window now none = record { started_at = now; hits = 0 }
current_window now (some w) =
    if ltb auth_window (now - w.started_at) then record { started_at = now; hits = 0 } else w

unfoldable pub count_hit : Window → Window
count_hit w = record w { hits = (w.hits + 1) % 4294967296 }

unfoldable pub insert : String → Window → Limits → Limits
insert key w limits k = if str_eq key k then some w else limits k

-- What is done under the lock: whether the client is limited, and the new map.
unfoldable pub hit : ℕ → String → Limits → Bool × Limits
hit now key limits =
    let w = count_hit (current_window now (limits key)) in
    (ltb auth_max_requests w.hits, insert key w limits)

-- The middleware; the lock may be poisoned.
unfoldable pub auth_rate_limit : ℕ → Bool → Request → Limits → Outcome × Limits
auth_rate_limit now poisoned request limits =
    if not (is_limited_path request.path)
    then (Outcome.passed, limits)
    else (if poisoned
        then (Outcome.unavailable, limits)
        else (let (limited, limits') = hit now (client_key request) limits in
            (if limited then Outcome.too_many_requests else Outcome.passed, limits')))
