-- ===== src/Tests/Limits.antt =====
-- The property of the rate limit at sample arrivals: one more request may pass in the window.
use edustell.Common.{◌≡◌, refl, some, none, [], ◌∷◌, ◌-◌, ◌+◌, ◌<◌, leb, if◌then◌else◌, arith}
use edustell.Api.RateLimit.{Request, Limits, is_limited_path, client_key, client_of}
use edustell.Api.RateLimit.Counting.{number_from, number_passed, number_passed-window}

abbrev login : Request
login = record {
  path = "/api/v1/auth/login";
  x_forwarded_for = some (some "10.0.0.1, 10.0.0.2");
  x_real_ip = none;
}

abbrev limits : Limits
limits = λ k. some (record { started_at = 0; hits = 19 })

few : 19 + number_from "10.0.0.1" ((5, login) ∷ (7, login) ∷ []) < 4294967296
unfolding number_from is_limited_path client_key client_of edustell.Common.starts_with
    edustell.Common.before edustell.Common.trim
few = ground arith

number_passed-window_example : number_passed "10.0.0.1" ((5, login) ∷ (7, login) ∷ []) limits ≡ (
    if leb (number_from "10.0.0.1" ((5, login) ∷ (7, login) ∷ [])) (20 - 19)
    then number_from "10.0.0.1" ((5, login) ∷ (7, login) ∷ [])
    else 20 - 19)
number_passed-window_example =
    number_passed-window "10.0.0.1" ((5, login) ∷ (7, login) ∷ []) limits
      (record { started_at = 0; hits = 19 }) refl (ground arith, (ground arith, tt)) few
