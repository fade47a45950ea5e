-- ===== src/Crypto/Rotator/Runs.antt =====
-- The runs of `#rotate` (apps/trapchat/src/lib/crypto.js, `KeyRotator`).
use trapchat.Prelude.{
  ℕ, ◌+◌, ◌≡◌, ap, ◌∙◌, ◌<◌, ◌≤◌, arith, leb, false, true, Option, none, some, [], ◌∷◌, ◌++◌,
  get_elem?, set, if◌then◌else◌,
}
use trapchat.Crypto.Rotator.{
  Rotator, Rotation, grace_due, generating, exporting, over, grace_period, tick, generated,
  exported,
}

-- The runs of a rotation, each where it has something to do.
module _ {K : Type 0} where
  abbrev pub rotating : Rotator K → Rotator K
  rotating r = record r {
    previous_key = r.current_key;
    rotations = r.rotations ++ generating r.current_key ∷ [];
  }

  pub tick_on : (r : Rotator K) → r.ticking ≡ true → tick r ≡ rotating r
  unfolding tick
  tick_on r on = ap (λ b. if b then rotating r else r) on

  abbrev pub with_key : Rotator K → ℕ → Option K → K → Rotator K
  with_key r i old key = record r {
    current_key = some key;
    rotations = set r.rotations i (exporting old key);
  }

  pub generated_lem :
      (r : Rotator K) (i : ℕ) (old : Option K) (key : K)
      → get_elem? r.rotations i ≡ some (generating old)
      → generated r i key ≡ with_key r i old key
  unfolding generated
  generated_lem r i old key e =
      ap (λ (o : Option (Rotation K)). elim o [ some (generating x) ↦ with_key r i x key | _ ↦ r ])
        e

  abbrev pub with_export : Rotator K → ℕ → Option K → K → ℕ → Rotator K
  with_export r i old key now = record r {
    announced =
        r.announced ++ record { new_key = r.current_key; exported_key = key; old_key = old } ∷ [];
    grace_timer = some (now + grace_period);
    rotations = set r.rotations i over;
  }

  pub exported_lem :
      (r : Rotator K) (i : ℕ) (old : Option K) (key : K) (now : ℕ)
      → get_elem? r.rotations i ≡ some (exporting old key)
      → exported r i now ≡ with_export r i old key now
  unfolding exported
  exported_lem r i old key now e =
      ap
        (λ (o : Option (Rotation K)). elim o [
          | some (exporting x y) ↦ with_export r i x y now
          | _ ↦ r
        ])
        e

  -- The grace timer does nothing before its time, and at its time clears the previous key.
  pub grace_due_early :
      (r : Rotator K) (at later : ℕ) → r.grace_timer ≡ some at → later < at → grace_due r later ≡ r
  unfolding grace_due
  grace_due_early r at later g l =
      let early : leb at later ≡ false = ground arith in
      ap
        (λ (o : Option ℕ). elim o [
          | none ↦ r
          | some x ↦ if leb x later then record r { previous_key = none; grace_timer = none } else r
        ])
        g
      ∙ ap (λ b. if b then record r { previous_key = none; grace_timer = none } else r) early

  pub grace_due_late :
      (r : Rotator K) (at later : ℕ)
      → r.grace_timer ≡ some at
      → at ≤ later
      → grace_due r later ≡ record r { previous_key = none; grace_timer = none }
  unfolding grace_due
  grace_due_late r at later g l =
      let late : leb at later ≡ true = ground arith in
      ap
        (λ (o : Option ℕ). elim o [
          | none ↦ r
          | some x ↦ if leb x later then record r { previous_key = none; grace_timer = none } else r
        ])
        g
      ∙ ap (λ b. if b then record r { previous_key = none; grace_timer = none } else r) late
