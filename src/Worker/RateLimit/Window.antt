-- ===== src/Worker/RateLimit/Window.antt =====
-- What `checkRateLimit` of services/worker/src/index.js lets through in one window.
use trapchat.Prelude.{
  ℕ, ◌+◌, ◌-◌, ◌≤◌, ◌<◌, min, ◌≡◌, refl, sym, subst, ◌∙◌, inl, inr, false, some, String, List, [],
  ◌∷◌, arith, leb, if◌then◌else◌, length, str_eq, eq_iff, eq_refl, Bool-cases, All,
}
use trapchat.Prelude.JsMap.{get, put, get-put, length-put}
use trapchat.Worker.Bounded.{evict_oldest_fits, length-evict_oldest}
use trapchat.Worker.RateLimit.{
  Entry, RateLimitMap, max_rate_limit_ips, rate_limit_max_requests, current_entry, check_rate_limit,
}

-- The map never has more than its 10000 addresses.
pub check_rate_limit_size :
    (m : RateLimitMap) (ip : String) (now : ℕ)
    → length m ≤ max_rate_limit_ips
    → length (check_rate_limit m ip now).0 ≤ max_rate_limit_ips
unfolding check_rate_limit
check_rate_limit_size m ip now h = length-evict_oldest max_rate_limit_ips ip _ m h

-- Requests by address and time.
abbrev pub Requests : Type 0
Requests = List (String × ℕ)

-- How many requests of the address `k` there are, and how many of them are let through.
pub asked : String → Requests → ℕ
asked k [] = 0
asked k ((ip, t) ∷ rs) = (if str_eq ip k then 1 else 0) + asked k rs

pub passed : String → RateLimitMap → Requests → ℕ
passed k m [] = 0
passed k m ((ip, t) ∷ rs) =
    let r = check_rate_limit m ip t in
    (if str_eq ip k then (if r.1 then 1 else 0) else 0) + passed k r.0 rs

-- A check of `ip` in a map with room counts one more for it, and touches no other entry.
get-check_rate_limit :
    (m : RateLimitMap) (ip k : String) (now : ℕ)
    → length m < max_rate_limit_ips
    → let entry = current_entry (get ip m) now in
      get k (check_rate_limit m ip now).0
      ≡ (if str_eq ip k then some (record entry { count = entry.count + 1 }) else get k m)
unfolding check_rate_limit
get-check_rate_limit m ip k now room =
    let entry = current_entry (get ip m) now in
    let counted = record entry { count = entry.count + 1 } in
    let fits : length (put ip counted m) ≤ max_rate_limit_ips =
      ground (arith, length-put ip counted m) in
    rw (evict_oldest_fits max_rate_limit_ips (put ip counted m) fits) (get-put ip k counted m)

length-check_rate_limit :
    (m : RateLimitMap) (ip : String) (now : ℕ)
    → length m < max_rate_limit_ips
    → length (check_rate_limit m ip now).0 ≤ length m + 1
unfolding check_rate_limit
length-check_rate_limit m ip now room =
    let entry = current_entry (get ip m) now in
    let counted = record entry { count = entry.count + 1 } in
    let fits : length (put ip counted m) ≤ length m + 1 = ground (arith, length-put ip counted m) in
    rw (evict_oldest_fits max_rate_limit_ips (put ip counted m) (omega arith)) fits

module _ (m : RateLimitMap) (k : String) (e : Entry) (h : get k m ≡ some e) (t : ℕ) where
  -- A check of `k` itself in its window counts on.
  same_window :
      t < e.reset_at
      → length m < max_rate_limit_ips
      → ((check_rate_limit m k t).1 ≡ leb (e.count + 1) rate_limit_max_requests)
        × (get k (check_rate_limit m k t).0 ≡ some (record e { count = e.count + 1 }))
  unfolding check_rate_limit current_entry
  same_window early room =
      let current : current_entry (get k m) t ≡ e = rw h (ground arith) in
      (rw current refl, get-check_rate_limit m k k t room ∙ rw (current, eq_refl) refl)

  -- A check of another address leaves the entry of `k` as it is.
  other_address :
      (ip : String)
      → str_eq ip k ≡ false
      → length m < max_rate_limit_ips
      → get k (check_rate_limit m ip t).0 ≡ some e
  other_address ip ne room = get-check_rate_limit m ip k t room ∙ rw ne h

-- While the window of an address lasts and no entry has to be evicted, exactly its first sixty
-- requests are let through, whatever other addresses ask in between.
pub passed_in_window :
    (k : String) (e : Entry) (m : RateLimitMap) (rs : Requests)
    → get k m ≡ some e
    → length m + length rs ≤ max_rate_limit_ips
    → All (λ r. r.1 < e.reset_at) rs
    → passed k m rs ≡ min (rate_limit_max_requests - e.count) (asked k rs)
unfolding passed asked
passed_in_window k e m [] h room early = omega arith
passed_in_window k e m ((ip, t) ∷ rs) h room early =
    let some_room : length m < max_rate_limit_ips = omega arith in
    let after : length (check_rate_limit m ip t).0 + length rs ≤ max_rate_limit_ips =
      omega (arith, length-check_rate_limit m ip t some_room) in
    elim (Bool-cases (str_eq ip k)) [
      | inr other ↦ rw other (
          omega (
            arith,
            passed_in_window k e (check_rate_limit m ip t).0 rs
                (other_address m k e h t ip other some_room) after early.1,
          ))
      | inl same ↦
          let ip_is_k : ip ≡ k = (eq_iff ip k).0 same in
          let (passes, entry) =
            subst
              (λ i.
                ((check_rate_limit m i t).1 ≡ leb (e.count + 1) rate_limit_max_requests)
                × (get k (check_rate_limit m i t).0 ≡ some (record e { count = e.count + 1 })))
              (sym ip_is_k) (same_window m k e h t early.0 some_room) in
          let rest =
            passed_in_window k (record e { count = e.count + 1 }) (check_rate_limit m ip t).0 rs
              entry after early.1 in
          rw (same, passes) (ground (arith, rest))
    ]
