-- ===== src/Worker/Manager/Restart.antt =====
-- How `stop` and `start` of services/worker/src/manager.js treat a poll that is at work on a job.
use trapchat.Prelude.{
  ℕ, ◌≤◌, ◌≡◌, refl, ◌∙◌, inl, inr, false, true, Option, none, some, [], ◌∷◌, ◌++◌, arith,
  get_elem?, get_elem?-append_length, get_elem?-append_left, get_elem?-set_ne, get_elem?-map,
  lt-length_of_get_elem?, map, set, sum_by, sum_by-set, sum_by-append, le-sum_by, length,
}
use trapchat.Worker.Queue.{Job}
use trapchat.Worker.Queue.Order.{dequeue-GivesFirst}
use trapchat.Worker.Manager.{
  Manager, Loop, working, sleeping, ended, clear_timer, poll, start, stop,
}

module _ {D : Type 0} where
  abbrev pub is_active : Loop D → ℕ
  is_active (working j) = 1
  is_active (sleeping t) = 1
  is_active ended = 0

module _ {D R : Type 0} where
  -- How many polls are under way.
  abbrev pub active : Manager D R → ℕ
  active m = sum_by is_active m.loops

  poll_loops :
      (m : Manager D R) (i now : ℕ)
      → (l : Loop D) × ((poll m i now).loops ≡ set m.loops i l) × (is_active l ≡ 1)
  unfolding poll
  poll_loops m i now = elim (dequeue-GivesFirst m.queue now) [
    | inl (e, _) ↦ (sleeping m.next_timer, rw (e, poll), refl)
    | inr (b, j, a, _, _, _, f) ↦ (working j, rw (f, poll), refl)
  ]

  stop_working :
      (m : Manager D R) (i : ℕ) (j : Job D)
      → get_elem? m.loops i ≡ some (working j)
      → ((stop m).running ≡ false) × (get_elem? (stop m).loops i ≡ some (working j))
  unfolding stop clear_timer
  stop_working m i j e = go m.timer
    where
      go :
          (t : Option ℕ)
          → let m' : Manager D R = elim t [
            | none ↦ record m { running = false }
            | some t ↦ record m {
              running = false;
              timer = none;
              loops = map (clear_timer t) m.loops;
            }
          ] in
            (m'.running ≡ false) × (get_elem? m'.loops i ≡ some (working j))
      go none = (refl, e)
      go (some t) = (refl, get_elem?-map (clear_timer t) m.loops i (working j) e)

  start_stopped :
      (m : Manager D R) (i now : ℕ) (j : Job D)
      → m.running ≡ false
      → get_elem? m.loops i ≡ some (working j)
      → (get_elem? (start m now).loops i ≡ some (working j)) × (2 ≤ active (start m now))
  unfolding start
  start_stopped m i now j off e =
      let first = record m { running = true; loops = m.loops ++ ended ∷ [] } in
      let (l, f, one) = poll_loops first (length m.loops) now in
      let below = lt-length_of_get_elem? m.loops i (working j) e in
      rw (off, start, f)
        (
          get_elem?-set_ne first.loops (length m.loops) i l (omega arith)
              ∙ get_elem?-append_left m.loops (ended ∷ []) i (working j) e,
          omega (
            arith,
            sum_by-set is_active first.loops (length m.loops) ended l
                (get_elem?-append_length m.loops [] ended),
            sum_by-append is_active m.loops (ended ∷ []),
            le-sum_by is_active m.loops i (working j) e,
          ),
        )

  -- A `stop` while a job is in work, with a `start` before the job ends, leaves two polls or more
  -- under way on the one queue: the old one, still with its job, and a new one.
  pub restart_overlaps :
      (m : Manager D R) (i now : ℕ) (j : Job D)
      → get_elem? m.loops i ≡ some (working j)
      → (get_elem? (start (stop m) now).loops i ≡ some (working j))
        × (2 ≤ active (start (stop m) now))
  restart_overlaps m i now j e =
      let (off, kept) = stop_working m i j e in start_stopped (stop m) i now j off kept
