-- ===== src/Crypto/Rotator.antt =====
-- apps/trapchat/src/lib/crypto.js: class `KeyRotator`. `#rotate` waits for a new key and for its
-- export, so it is three runs here, `tick`, `generated` and `exported`, and other events may come in
-- between. Keys are values of any type.
pub mod Runs
pub mod Grace
pub mod Races
use trapchat.Prelude.{
  ℕ, ◌+◌, Bool, true, false, Option, none, some, List, [], ◌∷◌, ◌++◌, leb, if◌then◌else◌, get_elem?,
  set,
}

abbrev pub grace_period : ℕ
grace_period = 30000

-- Where one `#rotate` is: it waits for a key or for the export of the key that it made, with the key
-- that it replaced, or it is over.
pub data Rotation (K : Type 0) : Type 0 where
  generating : Option K → Rotation K
  exporting : Option K → K → Rotation K
  over : Rotation K

-- A call of `onRotate`: the new key, the key that was exported, and the old key.
pub record Announcement (K : Type 0) : Type 0 where
  pub new_key : Option K
  pub exported_key : K
  pub old_key : Option K

-- `ticking` says that the interval runs; `grace_timer` is the time at which the pending timer fires.
-- `rotations` are the rotations that were begun, and `announced` the calls of `onRotate`, the latest
-- last.
pub record Rotator (K : Type 0) : Type 0 where
  pub current_key : Option K
  pub previous_key : Option K
  pub ticking : Bool
  pub grace_timer : Option ℕ
  pub rotations : List (Rotation K)
  pub announced : List (Announcement K)

module _ {K : Type 0} where
  abbrev pub new : Rotator K
  new = record {
    current_key = none;
    previous_key = none;
    ticking = false;
    grace_timer = none;
    rotations = [];
    announced = [];
  }

  unfoldable pub stop : Rotator K → Rotator K
  stop r = record r { ticking = false; grace_timer = none }

  unfoldable pub start : Rotator K → K → Rotator K
  unfolding stop
  start r key = record (stop r) { current_key = some key; ticking = true }

  pub accept_key : Rotator K → K → ℕ → Rotator K
  accept_key r key now = record r {
    previous_key = r.current_key;
    current_key = some key;
    grace_timer = some (now + grace_period);
  }

  -- The interval fires: `#rotate` up to `await generateRoomKey()`.
  unfoldable pub tick : Rotator K → Rotator K
  tick r =
      if r.ticking
      then record r {
        previous_key = r.current_key;
        rotations = r.rotations ++ generating r.current_key ∷ [];
      }
      else r

  -- The rotation numbered `i` has its key: up to `await exportKey(this.#currentKey)`.
  unfoldable pub generated : Rotator K → ℕ → K → Rotator K
  generated r i key = elim (get_elem? r.rotations i) [
    | some (generating old) ↦ record r {
      current_key = some key;
      rotations = set r.rotations i (exporting old key);
    }
    | _ ↦ r
  ]

  -- The key is exported: to the end.
  unfoldable pub exported : Rotator K → ℕ → ℕ → Rotator K
  exported r i now = elim (get_elem? r.rotations i) [
    | some (exporting old key) ↦ record r {
      announced =
          r.announced ++ record { new_key = r.current_key; exported_key = key; old_key = old } ∷ [];
      grace_timer = some (now + grace_period);
      rotations = set r.rotations i over;
    }
    | _ ↦ r
  ]

  -- The grace timer fires.
  pub grace_due : Rotator K → ℕ → Rotator K
  grace_due r now = elim r.grace_timer [
    | none ↦ r
    | some at ↦ if leb at now then record r { previous_key = none; grace_timer = none } else r
  ]

pub try_key : {K C T : Type 0} → (K → C → Option T) → Option K → C → Option T
try_key open_ none c = none
try_key open_ (some k) c = open_ k c

-- `decrypt` and `decryptBytes`: the current key, or else the previous one. `open_` is the decryption
-- with a key, `none` where it throws, as it also does where there is no key.
unfoldable pub decrypt : {K C T : Type 0} → (K → C → Option T) → Rotator K → C → Option T
decrypt open_ r c = elim (try_key open_ r.current_key c) [
  | some t ↦ some t
  | none ↦ try_key open_ r.previous_key c
]
