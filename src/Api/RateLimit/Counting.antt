-- ===== src/Api/RateLimit/Counting.antt =====
-- How many requests of one client pass in one window.
use edustell.Common.{
  ◌&&◌, ℕ, suc, ◌+◌, ◌-◌, ◌%◌, ◌≤◌, ◌<◌, ◌≡◌, String, some, Bool, true, false, List, [], ◌∷◌, All,
  str_eq, str_eq_iff, leb, if◌then◌else◌, arith,
}
use edustell.Api.RateLimit.{
  Window, Limits, Request, Outcome, auth_window, auth_max_requests, current_window, count_hit,
  insert, hit, client_key, is_limited_path, auth_rate_limit,
}

-- A request with the time of its arrival.
abbrev pub Arrival : Type 0
Arrival = ℕ × Request

-- Whether an arrival is for a limited path, and of a client.
abbrev pub is_from : String → Arrival → Bool
is_from client (now, request) = is_limited_path request.path && str_eq (client_key request) client

unfoldable pub number_from : String → List Arrival → ℕ
number_from client [] = 0
number_from client (a ∷ rest) =
    let n = number_from client rest in if is_from client a then suc n else n

abbrev pub passes : Outcome → Bool
passes Outcome.passed = true
passes Outcome.too_many_requests = false
passes Outcome.unavailable = false

-- The arrivals of a client on limited paths that pass, one request after the other.
unfoldable pub number_passed : String → List Arrival → Limits → ℕ
number_passed client [] limits = 0
number_passed client ((now, request) ∷ rest) limits =
    let answer = auth_rate_limit now false request limits in
    let n = number_passed client rest (answer.1) in
    if is_from client (now, request) && passes (answer.0) then suc n else n

-- Every arrival is in the window of a start.
abbrev pub InWindow : ℕ → List Arrival → Type 0
InWindow start = All (λ (a : Arrival). (a.0) - start ≤ auth_window)

-- In a window, whose count stays below 2 ^ 32, exactly the first requests of a client pass, up to 20 with
-- those before, whatever comes from other clients in between.
pub number_passed-window :
    (client : String) (l : List Arrival) (limits : Limits) (w : Window)
    → limits client ≡ some w
    → InWindow w.started_at l
    → w.hits + number_from client l < 4294967296
    → number_passed client l limits ≡ (
        if leb (number_from client l) (auth_max_requests - w.hits)
        then number_from client l
        else auth_max_requests - w.hits)
unfolding number_passed number_from auth_rate_limit hit count_hit current_window insert
number_passed-window client [] limits w at_client inside small = ground arith
number_passed-window client ((now, request) ∷ rest) limits w at_client (first, inside) small =
    let limits' = (auth_rate_limit now false request limits).1 in
    let counted : Window = record { started_at = w.started_at; hits = (w.hits + 1) % 4294967296 } in
    ground (
      arith,
      str_eq_iff (client_key request) client,
      number_passed-window client rest limits' w,
      number_passed-window client rest limits' counted,
    )
