-- ===== src/Worker/Server/Jobs.antt =====
-- What the HTTP service of services/worker/src/index.js does with jobs.
use trapchat.Prelude.{
  ℕ, ◌≡◌, ◌≢◌, refl, ◌⊎◌, inl, inr, Bool, true, false, not, Option, none, some, String, arith,
  if◌then◌else◌, eq_iff,
}
use trapchat.Prelude.JsMap.{put}
use trapchat.Worker.Bounded.{evict_oldest}
use trapchat.Worker.Json.{Json, null, bool, number, text, array, object, Fields, property}
use trapchat.Worker.Queue.{enqueue}
use trapchat.Worker.RateLimit.{RateLimitMap, check_rate_limit}
use trapchat.Worker.Auth.{Text, check_auth}
use trapchat.Worker.Server.{
  Server, JobData, Body, Route, get_health, post_jobs, get_job, get_dead_letters, elsewhere,
  Request, Response, created, max_submitted_jobs, status, job_type, job_data, post_parsed, post_job,
  job_status, authorized, dispatch, handle, receive, non_empty_text, post_object, remote_ip,
  rate_limit_exceeded, body_too_large,
}

non_empty_text_lem : (p : Option Json) (t : String) → non_empty_text p ≡ some t → t ≢ ""
unfolding non_empty_text
non_empty_text_lem none t h = cc
non_empty_text_lem (some null) t h = cc
non_empty_text_lem (some (bool b)) t h = cc
non_empty_text_lem (some (number n)) t h = cc
non_empty_text_lem (some (text u)) t h = ground (arith, eq_iff u "")
non_empty_text_lem (some (array xs)) t h = cc
non_empty_text_lem (some (object fs)) t h = cc

job_type_non_empty : (fs : Fields) (t : String) → job_type fs ≡ some t → t ≢ ""
unfolding job_type
job_type_non_empty fs t h = non_empty_text_lem (property "type" fs) t h

module _ {R : Type 0} where
  job_status-ne-201 : (s : Server R) (k : String) → status (job_status s k) ≢ 201
  unfolding job_status status
  job_status-ne-201 s k = ground arith

  -- What an answer says about the jobs: it is 201 and there is one new job, under the id that is
  -- given back and with a type that is not empty; or it is another answer and there is none.
  abbrev pub Submits : Server R → ℕ → String → Server R × Response R → Type 0
  Submits s now id r =
      ((type : String) × (data_ : JobData) × (type ≢ "")
        × (r.1 ≡ created id)
        × (r.0.queue ≡ enqueue s.queue id type data_ now)
        × (r.0.submitted_jobs ≡ evict_oldest max_submitted_jobs (put id tt s.submitted_jobs))
        × (r.0.results ≡ s.results))
      ⊎ ((status r.1 ≢ 201)
          × (r.0.queue ≡ s.queue)
          × (r.0.submitted_jobs ≡ s.submitted_jobs)
          × (r.0.results ≡ s.results))

  post_object-Submits :
      (s : Server R) (type : Option String) (d : Option JobData) (now : ℕ) (id : String)
      → ((t : String) → type ≡ some t → t ≢ "")
      → Submits s now id (post_object s type d now id)
  unfolding post_object status
  post_object-Submits s none d now id ne = inr (omega arith, refl, refl, refl)
  post_object-Submits s (some t) none now id ne = inr (omega arith, refl, refl, refl)
  post_object-Submits s (some t) (some d) now id ne = inl (t, d, ne t refl, refl, refl, refl, refl)

  post_parsed-Submits :
      (s : Server R) (parsed : Option Json) (now : ℕ) (id : String)
      → Submits s now id (post_parsed s parsed now id)
  unfolding post_parsed status
  post_parsed-Submits s none now id = inr (omega arith, refl, refl, refl)
  post_parsed-Submits s (some null) now id = inr (omega arith, refl, refl, refl)
  post_parsed-Submits s (some (bool b)) now id = inr (omega arith, refl, refl, refl)
  post_parsed-Submits s (some (number n)) now id = inr (omega arith, refl, refl, refl)
  post_parsed-Submits s (some (text t)) now id = inr (omega arith, refl, refl, refl)
  post_parsed-Submits s (some (array xs)) now id = inr (omega arith, refl, refl, refl)
  post_parsed-Submits s (some (object fs)) now id =
      post_object-Submits s (job_type fs) (job_data fs) now id (job_type_non_empty fs)

  post_job-Submits :
      (s : Server R) (address : Option String) (body : Body) (now : ℕ) (id : String)
      → Submits s now id (post_job s address body now id)
  unfolding post_job status
  post_job-Submits s address body now id = by_tests (not limited.1) (receive 0 body.chunks).1
    where
      ip : String
      ip = remote_ip address

      limited : RateLimitMap × Bool
      limited = check_rate_limit s.rate_limit_map ip now

      s' : Server R
      s' = record s { rate_limit_map = limited.0 }

      by_tests :
          (b c : Bool)
          → Submits s now id (
              if b
              then (s', rate_limit_exceeded)
              else if c
              then (s', body_too_large)
              else post_parsed s' body.parsed now id)
      by_tests true c = inr (omega arith, refl, refl, refl)
      by_tests false true = inr (omega arith, refl, refl, refl)
      by_tests false false = post_parsed-Submits s' body.parsed now id

  -- A request submits a job exactly if it is answered with 201: then there is one new job, under the
  -- id that is given back. Any other answer leaves the queue and the
  -- submitted ids as they are, and none changes the results. And
  -- a job is submitted only by a request that the authorization lets through.
  pub handle-Submits :
      (digest : Text → Text) (auth_token : Text) (s : Server R) (req : Request) (now : ℕ)
      (id : String)
      → Submits s now id (handle digest auth_token s req now id)
        × ((handle digest auth_token s req now id).1 ≡ created id
            → check_auth digest auth_token req.authorization ≡ true)
  unfolding handle status dispatch authorized
  handle-Submits digest auth_token s req now id =
      by_route (check_auth digest auth_token req.authorization) req.route
    where
      by_route :
          (allowed : Bool) (route : Route)
          → Submits s now id (dispatch allowed s route req.remote_address now id)
            × ((dispatch allowed s route req.remote_address now id).1 ≡ created id → allowed ≡ true)
      by_route allowed get_health = (inr (omega arith, refl, refl, refl), λ e. cc)
      by_route false (post_jobs body) = (inr (omega arith, refl, refl, refl), λ e. cc)
      by_route true (post_jobs body) =
          (post_job-Submits s req.remote_address body now id, λ e. refl)
      by_route false (get_job k) = (inr (omega arith, refl, refl, refl), λ e. cc)
      by_route true (get_job k) = (inr (job_status-ne-201 s k, refl, refl, refl), λ e. refl)
      by_route false get_dead_letters = (inr (omega arith, refl, refl, refl), λ e. cc)
      by_route true get_dead_letters = (inr (omega arith, refl, refl, refl), λ e. refl)
      by_route false elsewhere = (inr (omega arith, refl, refl, refl), λ e. cc)
      by_route true elsewhere = (inr (omega arith, refl, refl, refl), λ e. refl)
