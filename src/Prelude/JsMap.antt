-- ===== src/Prelude/JsMap.antt =====
-- `Map` and `Set` of JavaScript with text keys, as the list of their entries in insertion order:
-- setting a key that is there keeps its place.
pub mod Unique
use Prim.Native.Nat.{◌+◌, ◌-◌, ◌≤◌}
use Prim.Native.String.{String}
use mathlib.Core.Path.{◌≡◌, refl, sym, ◌∙◌, subst, ap₂}
use mathlib.Core.Bool.{Bool, true, false}
use mathlib.Core.Logic.{inl, inr, ◌↔◌}
use mathlib.Core.Option.{Option, none, some, some-injective}
use mathlib.Core.List.{List, [], ◌∷◌, ◌++◌}
use native.Mathlib.Omega.{arith}
use text.Mathlib.Text.{◌==◌}
use text.Mathlib.TextEquality.{eq_iff}
use trapchat.Prelude.Tests.{if◌then◌else◌, Bool-cases}
use text.Mathlib.TextPositions.{eq_refl}
use trapchat.Prelude.Lists.{length}
use trapchat.Prelude.Predicates.{All, All-imp}

module _ {ℓ} {V : Type ℓ} where
  unfoldable pub get : String → List (String × V) → Option V
  get k [] = none
  get k ((j, v) ∷ m) = if j == k then some v else get k m

  unfoldable pub has : String → List (String × V) → Bool
  has k [] = false
  has k ((j, v) ∷ m) = if j == k then true else has k m

  pub put : String → V → List (String × V) → List (String × V)
  put k v [] = (k, v) ∷ []
  put k v ((j, w) ∷ m) = if j == k then (j, v) ∷ m else (j, w) ∷ put k v m

  unfoldable pub delete : String → List (String × V) → List (String × V)
  delete k [] = []
  delete k ((j, w) ∷ m) = if j == k then m else (j, w) ∷ delete k m

  -- Setting a key to what it has changes nothing.
  pub put-same : (k : String) (v : V) (m : List (String × V)) → get k m ≡ some v → put k v m ≡ m
  unfolding get put
  put-same k v [] e = cc
  put-same k v ((j, w) ∷ m) e = ground (arith, put-same k v m)

  pub get-put :
      (k j : String) (v : V) (m : List (String × V))
      → get j (put k v m) ≡ (if k == j then some v else get j m)
  unfolding get put
  get-put k j v [] = refl
  get-put k j v ((i, w) ∷ m) = ground (arith, eq_iff k j, eq_iff i k, eq_iff i j, get-put k j v m)

  pub has-put :
      (k j : String) (v : V) (m : List (String × V))
      → has j (put k v m) ≡ (if k == j then true else has j m)
  unfolding has put
  has-put k j v [] = refl
  has-put k j v ((i, w) ∷ m) = ground (arith, eq_iff k j, eq_iff i k, eq_iff i j, has-put k j v m)

  pub length-put :
      (k : String) (v : V) (m : List (String × V))
      → length (put k v m) ≡ (if has k m then length m else length m + 1)
  unfolding has put
  length-put k v [] = omega arith
  length-put k v ((i, w) ∷ m) = ground (arith, length-put k v m)

  pub length-delete-le : (k : String) (m : List (String × V)) → length (delete k m) ≤ length m
  unfolding delete
  length-delete-le k [] = omega arith
  length-delete-le k ((i, w) ∷ m) = ground (arith, length-delete-le k m)

  pub length-delete :
      (k : String) (m : List (String × V))
      → length (delete k m) ≡ (if has k m then length m - 1 else length m)
  unfolding delete has
  length-delete k [] = omega arith
  length-delete k ((i, w) ∷ m) = ground (arith, length-delete k m, has_pos k m)
    where
      has_pos : (k : String) (m : List (String × V)) → has k m ≡ true → 0 + 1 ≤ length m
      has_pos k [] h = cc
      has_pos k (e ∷ m) h = omega arith

  pub put_fresh :
      (k : String) (v : V) (m : List (String × V)) → has k m ≡ false → put k v m ≡ m ++ (k, v) ∷ []
  unfolding has put
  put_fresh k v [] h = refl
  put_fresh k v ((i, w) ∷ m) h = ground (arith, put_fresh k v m)

  -- A key stays there when one is set.
  pub has-put_kept :
      (k j : String) (v : V) (m : List (String × V)) → has j m ≡ true → has j (put k v m) ≡ true
  has-put_kept k j v m h = ground (arith, has-put k j v m)

  has_cons :
      (j k : String) (v : V) (m : List (String × V)) → has j m ≡ true → has j ((k, v) ∷ m) ≡ true
  unfolding has
  has_cons j k v m h = ground arith

  has_head : (k : String) (v : V) (m : List (String × V)) → has k ((k, v) ∷ m) ≡ true
  unfolding has
  has_head k v m = ground (arith, eq_refl k)

  -- A map has the keys of all its entries.
  pub has-All : (m : List (String × V)) → All (λ r. has r.0 m ≡ true) m
  has-All [] = tt
  has-All ((k, v) ∷ m) = (
    has_head k v m,
    All-imp (λ r. has r.0 m ≡ true) (λ r. has r.0 ((k, v) ∷ m) ≡ true) (λ r. has_cons r.0 k v m) m
        (has-All m),
  )

-- What holds of every entry holds of the one that is found.
pub All-get {ℓ κ} :
    {V : Type ℓ} (P : String × V → Type κ) (m : List (String × V)) (k : String) (v : V)
    → All P m
    → get k m ≡ some v
    → P (k, v)
unfolding get
All-get P [] k v h e = cc
All-get P ((j, w) ∷ m) k v h e = elim (Bool-cases (j == k)) [
  | inl t ↦
      let found : some w ≡ some v = sym (rw t refl) ∙ e in
      subst P (ap₂ (λ a b. (a, b)) ((eq_iff j k).0 t) (some-injective _ _ found)) h.0
  | inr t ↦ All-get P m k v h.1 (sym (rw t refl) ∙ e)
]
