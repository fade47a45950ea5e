-- ===== src/Worker/Server/Pending.antt =====
-- What `GET /jobs/:id` of services/worker/src/index.js answers about a job.
use trapchat.Prelude.{
  ℕ, ◌+◌, ◌≤◌, ◌≡◌, refl, inl, inr, true, false, none, String, List, [], ◌∷◌, ◌++◌, arith, ltb,
  length, length-append, eq_refl, tests, Bool-cases,
}
use trapchat.Prelude.JsMap.{get, has, put, put_fresh}
use trapchat.Worker.Bounded.{evict_oldest, evict_oldest_fits, evict_oldest_over}
use trapchat.Worker.Auth.{Text}
use trapchat.Worker.Server.{
  Server, Request, created, pending, max_submitted_jobs, status, job_status, handle,
}
use trapchat.Worker.Server.Jobs.{handle-Submits}

module _ (k : String) where
  has_appended : (m : List (String × Unit {0})) → has k (m ++ (k, tt) ∷ []) ≡ true
  unfolding has
  has_appended [] = ground (arith, eq_refl k)
  has_appended ((j, v) ∷ m) = ground (arith, has_appended m)

  -- A new id is among the submitted ones after it is put in, also if an old one has to go.
  has_submitted :
      (m : List (String × Unit {0}))
      → has k m ≡ false
      → length m ≤ max_submitted_jobs
      → has k (evict_oldest max_submitted_jobs (put k tt m)) ≡ true
  has_submitted m fresh h = rw (put_fresh k tt m fresh) (go m h)
    where
      go :
          (m : List (String × Unit {0}))
          → length m ≤ max_submitted_jobs
          → has k (evict_oldest max_submitted_jobs (m ++ (k, tt) ∷ [])) ≡ true
      go [] h =
          rw (evict_oldest_fits max_submitted_jobs ((k, tt) ∷ []) (omega arith)) (has_appended [])
      go ((j, v) ∷ m) h = elim (Bool-cases (ltb (length m + 1) max_submitted_jobs)) [
        | inl room ↦
            let fits : length (((j, v) ∷ m) ++ (k, tt) ∷ []) ≤ max_submitted_jobs =
              omega (tests, length-append m ((k, tt) ∷ [])) in
            rw (evict_oldest_fits max_submitted_jobs (((j, v) ∷ m) ++ (k, tt) ∷ []) fits)
              (has_appended ((j, v) ∷ m))
        | inr full ↦
            let over : max_submitted_jobs ≤ length (m ++ (k, tt) ∷ []) =
              omega (tests, length-append m ((k, tt) ∷ [])) in
            rw (evict_oldest_over max_submitted_jobs j v (m ++ (k, tt) ∷ []) over) (has_appended m)
      ]

module _ {R : Type 0} where
  job_status_pending :
      (s : Server R) (id : String)
      → has id s.submitted_jobs ≡ true
      → get id s.results ≡ none
      → job_status s id ≡ pending id
  unfolding job_status
  job_status_pending s id sub open_ = ground arith

  -- A job that was answered with 201 under a new id, with at most 10000 ids kept before, is at once
  -- reported as pending.
  pub created_pending :
      (digest : Text → Text) (auth_token : Text) (s : Server R) (req : Request) (now : ℕ)
      (id : String)
      → has id s.submitted_jobs ≡ false
      → get id s.results ≡ none
      → length s.submitted_jobs ≤ max_submitted_jobs
      → (handle digest auth_token s req now id).1 ≡ created id
      → job_status (handle digest auth_token s req now id).0 id ≡ pending id
  unfolding status
  created_pending digest auth_token s req now id fresh open_ room done =
      elim (handle-Submits digest auth_token s req now id).0 [
        | inl (t, d, _, _, _, sub, res) ↦
            job_status_pending (handle digest auth_token s req now id).0 id
              (rw sub (has_submitted id s.submitted_jobs fresh room)) (rw res open_)
        | inr (other, _, _, _) ↦ absurd (other (rw done refl))
      ]
