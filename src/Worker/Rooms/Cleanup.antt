-- ===== src/Worker/Rooms/Cleanup.antt =====
-- The cleanup of rooms in services/worker/src/worker.js.
use trapchat.Prelude.{
  ℕ, zero, suc, ◌+◌, ◌-◌, ◌≤◌, ◌<◌, ◌≡◌, refl, ap, ◌↔◌, ◌⊎◌, inl, inr, true, Option, none, some,
  String, List, [], ◌∷◌, ◌++◌, arith, ltb, tests, length, take, drop, take-append-drop, drop-drop,
  drop_all, Bool-cases,
}
use trapchat.Worker.Rooms.{
  Gateway, Reply, RoomInfo, Ttl, answer, unreachable, not_ok, should_clean_room,
  default_stale_threshold, count_cleaned, clean_batches, concurrency, is_expired, is_stale,
}

count_cleaned-append :
    (g : Gateway) (now : ℕ) (xs ys : List String)
    → count_cleaned g now (xs ++ ys) ≡ count_cleaned g now xs + count_cleaned g now ys
unfolding count_cleaned
count_cleaned-append g now [] ys = omega arith
count_cleaned-append g now (x ∷ xs) ys = omega (arith, count_cleaned-append g now xs ys)

clean_batches_from :
    (fuel : ℕ) (g : Gateway) (now : ℕ) (rooms : List String) (i cleaned : ℕ)
    → length rooms ≤ fuel + i
    → clean_batches fuel g now rooms i cleaned ≡ cleaned + count_cleaned g now (drop i rooms)
unfolding clean_batches
clean_batches_from zero g now rooms i cleaned enough =
    rw (drop_all i rooms (omega arith)) (nothing_left g now cleaned)
  where
    nothing_left : (g : Gateway) (now c : ℕ) → c ≡ c + count_cleaned g now []
    nothing_left g now c = unfold count_cleaned in omega arith
clean_batches_from (suc fuel) g now rooms i cleaned enough =
    elim (Bool-cases (ltb i (length rooms))) [
      | inl more ↦ rw more (
          omega (
            arith,
            clean_batches_from fuel g now rooms (i + concurrency)
                (cleaned + count_cleaned g now (take concurrency (drop i rooms))) (omega arith),
            count_cleaned-append g now (take concurrency (drop i rooms))
                (drop concurrency (drop i rooms)),
            ap (count_cleaned g now) (take-append-drop concurrency (drop i rooms)),
            ap (count_cleaned g now) (drop-drop concurrency i rooms),
          ))
      | inr over ↦ rw (over, drop_all i rooms (omega tests)) (unfold count_cleaned in omega arith)
    ]

-- In batches of ten every room is looked at once: the count is that of the rooms one by one.
pub clean_batches_lem :
    (g : Gateway) (now : ℕ) (rooms : List String)
    → clean_batches (length rooms) g now rooms 0 0 ≡ count_cleaned g now rooms
clean_batches_lem g now rooms =
    omega (arith, clean_batches_from (length rooms) g now rooms 0 0 (omega arith))

-- By the gateway's answer the room is past its own time to live.
abbrev pub IsExpired : Reply Ttl → ℕ → Type 0
IsExpired r now =
    (t : Ttl) × (r ≡ answer t) × (0 < t.ttl_seconds) × (0 < t.expires_at) × (t.expires_at < now)

-- The room is empty and has been idle for more than half an hour.
abbrev pub IsStale : RoomInfo → ℕ → Type 0
IsStale i now =
    (t : ℕ) × (i.last_activity ≡ some t) × (i.peers ≡ 0) × (default_stale_threshold < now - t)

is_expired_iff : (r : Reply Ttl) (now : ℕ) → (is_expired r now ≡ true) ↔ IsExpired r now
unfolding is_expired
is_expired_iff unreachable now = (λ h. cc, λ (t, e, _, _, _). cc)
is_expired_iff not_ok now = (λ h. cc, λ (t, e, _, _, _). cc)
is_expired_iff (answer t) now =
    (λ h. (t, refl, ground arith, ground arith, ground arith), λ (u, e, a, b, c). ground arith)

is_stale_iff : (i : RoomInfo) (now : ℕ) → (is_stale i now ≡ true) ↔ IsStale i now
unfolding is_stale
is_stale_iff i now = go i.last_activity refl
  where
    go : (a : Option ℕ) → i.last_activity ≡ a → (is_stale i now ≡ true) ↔ IsStale i now
    go none e = (λ h. ground arith, λ (t, f, _, _). ground arith)
    go (some t) e = (λ h. (t, e, ground arith, ground arith), λ (u, f, p, q). ground arith)

-- A room is cleaned exactly if the gateway knows it and it is past its own time to live, or empty
-- and idle for more than half an hour.
pub should_clean_room_iff :
    (g : Gateway) (now : ℕ) (room : String)
    → (should_clean_room g now room ≡ true)
      ↔ ((i : RoomInfo) × (g.info room ≡ answer i) × (IsExpired (g.ttl room) now ⊎ IsStale i now))
unfolding should_clean_room
should_clean_room_iff g now room = (to (g.info room) refl, from)
  where
    to :
        (r : Reply RoomInfo)
        → g.info room ≡ r
        → should_clean_room g now room ≡ true
        → (i : RoomInfo) × (g.info room ≡ answer i) × (IsExpired (g.ttl room) now ⊎ IsStale i now)
    to unreachable e h = ground arith
    to not_ok e h = ground arith
    to (answer i) e h = (
      i,
      e,
      elim (Bool-cases (is_expired (g.ttl room) now)) [
        | inl expired ↦ inl ((is_expired_iff (g.ttl room) now).0 expired)
        | inr fresh ↦ inr ((is_stale_iff i now).0 (ground arith))
      ],
    )

    from :
        ((i : RoomInfo) × (g.info room ≡ answer i) × (IsExpired (g.ttl room) now ⊎ IsStale i now))
        → should_clean_room g now room ≡ true
    from (i, e, inl expired) = let t = (is_expired_iff (g.ttl room) now).1 expired in ground arith
    from (i, e, inr stale) = let t = (is_stale_iff i now).1 stale in ground arith
