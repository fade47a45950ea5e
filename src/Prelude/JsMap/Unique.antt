-- ===== src/Prelude/JsMap/Unique.antt =====
-- Maps in which no key stands twice, as in the ones that the operations of `Map` build.
use trapchat.Prelude.Tests.{if◌then◌else◌, Bool-cases}
use Prim.Native.String.{String}
use mathlib.Core.Path.{◌≡◌, refl}
use mathlib.Core.Logic.{inl, inr}
use mathlib.Core.Bool.{false}
use mathlib.Core.Option.{none}
use mathlib.Core.List.{List, [], ◌∷◌}
use native.Mathlib.Omega.{arith}
use text.Mathlib.Text.{◌==◌}
use text.Mathlib.TextEquality.{eq_iff}
use trapchat.Prelude.JsMap.{get, has, put, delete, has-put}

module _ {V : Type 0} where
  abbrev pub IsUnique : List (String × V) → Type 0
  IsUnique [] = Unit
  IsUnique ((k, v) ∷ m) = (has k m ≡ false) × IsUnique m

  pub has-delete :
      (k j : String) (m : List (String × V))
      → IsUnique m
      → has j (delete k m) ≡ (if k == j then false else has j m)
  unfolding has delete
  has-delete k j [] u = ground arith
  has-delete k j ((i, v) ∷ m) (f, u) =
      ground (arith, eq_iff i k, eq_iff i j, eq_iff k j, has-delete k j m u)

  pub get-has : (k : String) (m : List (String × V)) → has k m ≡ false → get k m ≡ none
  unfolding get has
  get-has k [] h = refl
  get-has k ((i, v) ∷ m) h = ground (arith, get-has k m)

  pub get-delete :
      (k j : String) (m : List (String × V))
      → IsUnique m
      → get j (delete k m) ≡ (if k == j then none else get j m)
  unfolding get delete
  get-delete k j [] u = ground arith
  get-delete k j ((i, v) ∷ m) (f, u) =
      ground (arith, eq_iff i k, eq_iff i j, eq_iff k j, get-delete k j m u, get-has i m f)

  pub put-IsUnique :
      (k : String) (v : V) (m : List (String × V)) → IsUnique m → IsUnique (put k v m)
  unfolding has put
  put-IsUnique k v [] u = (refl, tt)
  put-IsUnique k v ((i, w) ∷ m) (f, u) =
      let fresh : (i == k) ≡ false → has i (put k v m) ≡ false =
        λ t. ground (arith, t, has-put k i v m, eq_iff i k, eq_iff k i) in
      elim (Bool-cases (i == k)) [
        | inl t ↦ rw t (f, u)
        | inr t ↦ rw t (fresh t, put-IsUnique k v m u)
      ]

  pub delete-IsUnique : (k : String) (m : List (String × V)) → IsUnique m → IsUnique (delete k m)
  unfolding has delete
  delete-IsUnique k [] u = tt
  delete-IsUnique k ((i, w) ∷ m) (f, u) =
      let fresh : (i == k) ≡ false → has i (delete k m) ≡ false =
        λ t. ground (arith, t, has-delete k i m u, eq_iff i k, eq_iff k i) in
      elim (Bool-cases (i == k)) [ inl t ↦ rw t u | inr t ↦ rw t (fresh t, delete-IsUnique k m u) ]
