-- ===== src/Examples/Service.antt =====
-- The theorems on services/worker/src/index.js at concrete requests.
use trapchat.Prelude.{
  ◌-◌, ◌≡◌, refl, ◌↔◌, ◌⊎◌, ◌≢◌, true, Option, some, String, [], ◌∷◌, ◌++◌, min, arith,
}
use trapchat.Prelude.JsMap.{get}
use trapchat.Worker.RateLimit.{RateLimitMap, rate_limit_max_requests}
use trapchat.Worker.RateLimit.Window.{asked, passed, passed_in_window}
use trapchat.Worker.Auth.{Text, bearer, check_auth, check_auth_iff}
use trapchat.Worker.Results.{
  Url, Address, ipv4, decide_callback, callback, posted, default_hosts, includes, web_protocols,
  callback_ports, port_of, is_private,
}
use trapchat.Worker.Results.Allowed.{IsAllowed, callback_posted_iff, default_hosts_reach_private}

abbrev nearly_full : RateLimitMap
nearly_full = ("1.2.3.4", record { count = 59; reset_at = 70000 }) ∷ []

passed_in_window_example :
    passed "1.2.3.4" nearly_full (("1.2.3.4", 100) ∷ ("5.6.7.8", 200) ∷ ("1.2.3.4", 300) ∷ [])
    ≡ min
        (rate_limit_max_requests - 59)
        (asked "1.2.3.4" (("1.2.3.4", 100) ∷ ("5.6.7.8", 200) ∷ ("1.2.3.4", 300) ∷ []))
unfolding get
passed_in_window_example =
    passed_in_window "1.2.3.4" (record { count = 59; reset_at = 70000 }) nearly_full
      (("1.2.3.4", 100) ∷ ("5.6.7.8", 200) ∷ ("1.2.3.4", 300) ∷ []) refl (omega arith) (omega arith)

abbrev secret : Text
secret = b's' ∷ b'3' ∷ []

check_auth_iff_example :
    (check_auth (λ s. s) secret (some (bearer ++ secret)) ≡ true)
    ↔ ((secret ≡ []) ⊎ (some (bearer ++ secret) ≡ some (bearer ++ secret)))
check_auth_iff_example = check_auth_iff (λ s. s) secret (some (bearer ++ secret)) (λ s t e. e)

-- One URL that parses, to the machine itself.
abbrev local_url : String → Option Url
local_url s = some (record { protocol = "http:"; hostname = "localhost"; port = "8080" })

abbrev loopback : String → Option Address
loopback host = some (ipv4 127 0 0 1)

callback_posted_iff_example :
    (callback default_hosts local_url loopback (some "http://localhost:8080/done") ≡ posted) ↔ (
      (s : String) × (some "http://localhost:8080/done" ≡ some s)
      × (s ≢ "")
      × IsAllowed default_hosts local_url loopback s)
callback_posted_iff_example =
    callback_posted_iff default_hosts local_url loopback (some "http://localhost:8080/done")

default_hosts_reach_private_example :
    (decide_callback default_hosts local_url loopback "http://localhost:8080/done" ≡ posted) ↔ (
      (includes web_protocols "http:" ≡ true)
      × (includes default_hosts "localhost" ≡ true)
      × (includes callback_ports
            (port_of (record { protocol = "http:"; hostname = "localhost"; port = "8080" }))
          ≡ true))
default_hosts_reach_private_example =
    default_hosts_reach_private local_url loopback "http://localhost:8080/done"
      (record { protocol = "http:"; hostname = "localhost"; port = "8080" }) (ipv4 127 0 0 1) refl
      refl

private_callback_posted :
    callback default_hosts local_url loopback (some "http://localhost:8080/done") ≡ posted
unfolding callback decide_callback includes port_of is_private
private_callback_posted = refl
