-- ===== src/Socket/Listeners/Calls.antt =====
-- Whom an event reaches (apps/trapchat/src/socket/client.js).
use trapchat.Prelude.{
  ℕ, ◌+◌, ◌≡◌, ◌≤◌, refl, ◌∙◌, ap, Bool, true, false, String, List, [], ◌∷◌, ◌==◌, if◌then◌else◌,
  map, arith, eq_iff, str_eq, max, ◌-◌, Option-cases, inl, inr,
}
use trapchat.Prelude.JsMap.{get, get-put}
use trapchat.Socket.Listeners.{Registry, add, remove, listeners_of, on, unsubscribe, emit}

-- How often a listener is called.
unfoldable pub calls_of : {D : Type 0} → ℕ → List (ℕ × D) → ℕ
calls_of f [] = 0
calls_of f ((g, d) ∷ calls) = (if g == f then 1 else 0) + calls_of f calls

-- What was done with the registry, the latest first.
pub data Change : Type 0 where
  subscribed unsubscribed : String → ℕ → Change

pub registry : List Change → Registry
registry [] = []
registry (subscribed e f ∷ cs) = on (registry cs) e f
registry (unsubscribed e f ∷ cs) = unsubscribe (registry cs) e f

-- The specification: a listener listens if the latest that was done with it for the event is to subscribe it.
unfoldable pub listens : String → ℕ → List Change → Bool
listens event f [] = false
listens event f (subscribed e g ∷ cs) =
    if str_eq e event then if g == f then true else listens event f cs else listens event f cs
listens event f (unsubscribed e g ∷ cs) =
    if str_eq e event then if g == f then false else listens event f cs else listens event f cs

times : ℕ → List ℕ → ℕ
times f [] = 0
times f (g ∷ s) = (if g == f then 1 else 0) + times f s

times-add :
    (f g : ℕ) (s : List ℕ) → times f (add g s) ≡ (if g == f then max 1 (times f s) else times f s)
unfolding times add
times-add f g [] = ground arith
times-add f g (x ∷ s) = ground (arith, times-add f g s)

times-remove :
    (f g : ℕ) (s : List ℕ) → times f (remove g s) ≡ (if g == f then times f s - 1 else times f s)
unfolding times remove
times-remove f g [] = ground arith
times-remove f g (x ∷ s) = ground (arith, times-remove f g s, times_pos f s)
  where
    times_pos : (f : ℕ) (s : List ℕ) → 0 ≤ times f s
    times_pos f s = omega arith

times-on :
    (r : Registry) (e event : String) (f g : ℕ)
    → times f (listeners_of (on r e g) event) ≡ (
        if str_eq e event
        then if g == f
          then max 1 (times f (listeners_of r event))
          else times f (listeners_of r event)
        else times f (listeners_of r event))
unfolding on listeners_of
times-on r e event f g = ground (
  arith,
  eq_iff e event,
  get-put e event (add g (listeners_of r e)) r,
  times-add f g (listeners_of r e),
)

times-unsubscribe :
    (r : Registry) (e event : String) (f g : ℕ)
    → times f (listeners_of (unsubscribe r e g) event) ≡ (
        if str_eq e event
        then if g == f then times f (listeners_of r event) - 1 else times f (listeners_of r event)
        else times f (listeners_of r event))
unfolding unsubscribe listeners_of times
times-unsubscribe r e event f g = elim (Option-cases (get e r)) [
  | inl n ↦ ground (arith, n, eq_iff e event)
  | inr (s, n) ↦
      ground (arith, n, eq_iff e event, get-put e event (remove g s) r, times-remove f g s)
]

calls_of-map :
    {D : Type 0} (f : ℕ) (d : D) (s : List ℕ) → calls_of f (map (λ g. (g, d)) s) ≡ times f s
unfolding calls_of times
calls_of-map f d [] = refl
calls_of-map f d (g ∷ s) = ap (λ n. (if g == f then 1 else 0) + n) (calls_of-map f d s)

times-none : (f : ℕ) (event : String) → times f (listeners_of [] event) ≡ 0
unfolding times listeners_of get
times-none f event = refl

times-registry :
    (f : ℕ) (event : String) (cs : List Change)
    → times f (listeners_of (registry cs) event) ≡ (if listens event f cs then 1 else 0)
unfolding registry listens
times-registry f event [] = times-none f event
times-registry f event (subscribed e g ∷ cs) =
    ground (arith, times-on (registry cs) e event f g, times-registry f event cs)
times-registry f event (unsubscribed e g ∷ cs) =
    ground (arith, times-unsubscribe (registry cs) e event f g, times-registry f event cs)

-- Whatever was subscribed and unsubscribed before, an event calls a listener once if it was subscribed to
-- the event and not unsubscribed since, however often it was subscribed, and else not at all.
pub calls_of-emit :
    {D : Type 0} (cs : List Change) (event : String) (d : D) (f : ℕ)
    → calls_of f (emit (registry cs) event d) ≡ (if listens event f cs then 1 else 0)
unfolding emit
calls_of-emit cs event d f =
    calls_of-map f d (listeners_of (registry cs) event) ∙ times-registry f event cs
