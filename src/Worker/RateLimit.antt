-- ===== src/Worker/RateLimit.antt =====
-- services/worker/src/index.js, `checkRateLimit`: a counter for each address over a fixed window.
pub mod Window
use trapchat.Prelude.{
  ℕ, ◌+◌, ◌≡◌, Bool, true, false, Option, none, some, String, List, [], ◌∷◌, leb, if◌then◌else◌,
}
use trapchat.Prelude.JsMap.{get, put}
use trapchat.Worker.Bounded.{evict_oldest}

abbrev pub rate_limit_window_ms : ℕ
rate_limit_window_ms = 60000

abbrev pub rate_limit_max_requests : ℕ
rate_limit_max_requests = 60

abbrev pub max_rate_limit_ips : ℕ
max_rate_limit_ips = 10000

pub record Entry : Type 0 where
  pub count : ℕ
  pub reset_at : ℕ

abbrev pub RateLimitMap : Type 0
RateLimitMap = List (String × Entry)

-- The entry as the check counts in it: a new one where there is none or its window is over.
unfoldable pub current_entry : Option Entry → ℕ → Entry
current_entry none now = record { count = 0; reset_at = now + rate_limit_window_ms }
current_entry (some e) now =
    if leb e.reset_at now then record { count = 0; reset_at = now + rate_limit_window_ms } else e

-- `entry.count++` is seen through the map, which holds the same object.
unfoldable pub check_rate_limit : RateLimitMap → String → ℕ → RateLimitMap × Bool
check_rate_limit m ip now =
    let entry = current_entry (get ip m) now in
    let counted = record entry { count = entry.count + 1 } in
    (evict_oldest max_rate_limit_ips (put ip counted m), leb counted.count rate_limit_max_requests)
