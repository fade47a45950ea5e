-- ===== src/Worker/Rooms.antt =====
-- services/worker/src/worker.js: `processJob`, the case 'room:cleanup'. The gateway's answers are
-- parameters.
pub mod Cleanup
use trapchat.Prelude.{
  ℕ, zero, suc, ◌+◌, ◌-◌, ◌*◌, Bool, true, false, ◌&&◌, ◌||◌, not, Option, none, some, String, List,
  [], ◌∷◌, map, ltb, leb, ◌==◌, if◌then◌else◌, str_eq, length, take, drop,
}
use trapchat.Worker.Results.{Url}
use trapchat.Worker.Jobs.{Result, ok, err, failed_to_fetch_rooms, validate_gateway_url}

-- What a `fetch` came to: it threw (or its body was no JSON), its status was not 2xx, or the value
-- of its body.
pub data Reply (A : Type 0) : Type 0 where
  unreachable not_ok : Reply A
  answer : A → Reply A

pub record RoomInfo : Type 0 where
  pub peers : ℕ
  pub last_activity : Option ℕ

pub record Ttl : Type 0 where
  pub ttl_seconds : ℕ
  pub expires_at : ℕ

-- What the gateway answers about its rooms.
pub record Gateway : Type 0 where
  pub info : String → Reply RoomInfo
  pub ttl : String → Reply Ttl
  pub cleanup : String → Reply (Unit {0})

abbrev pub default_stale_threshold : ℕ
default_stale_threshold = 30 * 60 * 1000

is_expired : Reply Ttl → ℕ → Bool
is_expired (answer t) now = ltb 0 t.ttl_seconds && ltb 0 t.expires_at && ltb t.expires_at now
is_expired unreachable now = false
is_expired not_ok now = false

-- A date that cannot be read gives NaN, and every comparison with that is false.
is_stale : RoomInfo → ℕ → Bool
is_stale i now = elim i.last_activity [
  | none ↦ false
  | some t ↦ i.peers == 0 && ltb default_stale_threshold (now - t)
]

pub should_clean_room : Gateway → ℕ → String → Bool
should_clean_room g now room = elim (g.info room) [
  | answer i ↦ if is_expired (g.ttl room) now then true else is_stale i now
  | unreachable ↦ false
  | not_ok ↦ false
]

is_cleaned : Gateway → ℕ → String → Bool
is_cleaned g now room =
    if should_clean_room g now room
    then elim (g.cleanup room) [ answer u ↦ true | unreachable ↦ false | not_ok ↦ false ]
    else false

-- `results.filter(r => r.status === 'fulfilled' && r.value).length` of a batch
pub count_cleaned : Gateway → ℕ → List String → ℕ
unfolding is_cleaned
count_cleaned g now [] = 0
count_cleaned g now (r ∷ rs) = (if is_cleaned g now r then 1 else 0) + count_cleaned g now rs

abbrev pub concurrency : ℕ
concurrency = 10

-- `for (let i = …; i < rooms.length; i += CONCURRENCY)`
pub clean_batches : ℕ → Gateway → ℕ → List String → ℕ → ℕ → ℕ
clean_batches zero g now rooms i cleaned = cleaned
clean_batches (suc fuel) g now rooms i cleaned =
    let batch = take concurrency (drop i rooms) in
    let rest =
      clean_batches fuel g now rooms (i + concurrency) (cleaned + count_cleaned g now batch) in
    if ltb i (length rooms) then rest else cleaned

pub record Cleaned : Type 0 where
  pub checked : ℕ
  pub cleaned : ℕ

-- The case 'room:cleanup'. `rooms` is what the gateway answers to the request for its rooms.
pub room_cleanup :
    List String
    → (String → Option Url)
    → Option String
    → Reply (List String)
    → Gateway
    → ℕ
    → Result Cleaned
room_cleanup hosts new_url url rooms g now = elim (validate_gateway_url hosts new_url url) [
  | err e ↦ err e
  | ok u ↦ elim rooms [
    | answer rs ↦
        ok (record { checked = length rs; cleaned = clean_batches (length rs) g now rs 0 0 })
    | unreachable ↦ err failed_to_fetch_rooms
    | not_ok ↦ err failed_to_fetch_rooms
  ]
]
