-- ===== src/Worker/Queue/Order.antt =====
-- The order in which `dequeue` hands out the jobs of services/worker/src/queue.js.
use trapchat.Prelude.{
  ℕ, ◌≡◌, refl, ap, ◌⊎◌, inl, inr, Bool, true, false, Option, none, some, List, [], ◌∷◌, ◌++◌,
  arith, All, if◌then◌else◌,
}
use trapchat.Worker.Queue.{Job, Queue, is_eligible, splice_first, dequeue}
use mathlib.Core.Option

module _ {D : Type 0} where
  abbrev pub Waits : ℕ → Job D → Type 0
  Waits now j = is_eligible now j ≡ false

  -- What `dequeue` does to the items: all of them are in backoff and there is no job, or the job
  -- is the first that is not, and the others keep their order.
  abbrev pub TakesFirst : ℕ → List (Job D) → Option (Job D × List (Job D)) → Type 0
  TakesFirst now items r =
      ((r ≡ none) × All (Waits now) items)
      ⊎ ((before : List (Job D)) × (j : Job D) × (after : List (Job D)) × (items
            ≡ before ++ j ∷ after)
          × All (Waits now) before
          × (is_eligible now j ≡ true)
          × (r ≡ some (j, before ++ after)))

  TakesFirst-cons :
      (now : ℕ) (j : Job D) (js : List (Job D)) (r : Option (Job D × List (Job D))) (b : Bool)
      → is_eligible now j ≡ b
      → TakesFirst now js r
      → TakesFirst now (j ∷ js) (if b then some (j, js) else Option.map (λ p. (p.0, j ∷ p.1)) r)
  TakesFirst-cons now j js r true ready t = inr ([], j, js, refl, tt, ready, refl)
  TakesFirst-cons now j js r false w (inl (e, all)) = inl (ground arith, (w, all))
  TakesFirst-cons now j js r false w (inr (b, x, a, e, all, ready, f)) =
      inr (j ∷ b, x, a, ap (j ∷◌) e, (w, all), ready, ground arith)

  splice_first-TakesFirst :
      (now : ℕ) (items : List (Job D)) → TakesFirst now items (splice_first now items)
  unfolding splice_first
  splice_first-TakesFirst now [] = inl (refl, tt)
  splice_first-TakesFirst now (j ∷ js) =
      TakesFirst-cons now j js _ (is_eligible now j) refl (splice_first-TakesFirst now js)

  -- What `dequeue` does to a queue: every job is in backoff and there is none to give, or it gives
  -- the first that is not, and only that one leaves the queue.
  abbrev pub GivesFirst : Queue D → ℕ → Option (Job D × Queue D) → Type 0
  GivesFirst q now r =
      ((r ≡ none) × All (Waits now) q.items)
      ⊎ ((before : List (Job D)) × (j : Job D) × (after : List (Job D)) × (q.items
            ≡ before ++ j ∷ after)
          × All (Waits now) before
          × (is_eligible now j ≡ true)
          × (r ≡ some (j, record q { items = before ++ after })))

  -- `dequeue` gives the first job that is not in backoff, and keeps all the others in their order;
  -- it gives none when every job is in backoff.
  pub dequeue-GivesFirst : (q : Queue D) (now : ℕ) → GivesFirst q now (dequeue q now)
  unfolding dequeue
  dequeue-GivesFirst q now = elim (splice_first-TakesFirst now q.items) [
    | inl (e, all) ↦ inl (ground arith, all)
    | inr (b, j, a, e, all, ready, f) ↦ inr (b, j, a, e, all, ready, ground arith)
  ]
