-- ===== src/Worker/Server.antt =====
-- services/worker/src/index.js: the HTTP service, as one function on the service's state. A request
-- is what `node:http`, `new URL` and the route's regular expression make of it.
pub mod Jobs
pub mod Pending
mod Examples
use trapchat.Prelude.{
  ℕ, ◌+◌, ◌*◌, ◌≡◌, Bool, true, false, ◌&&◌, ◌||◌, not, Option, none, some, String, List, [], ◌∷◌,
  leb, ltb, ◌==◌, if◌then◌else◌, str_eq, length, is_some,
}
use trapchat.Prelude.JsMap.{get, has, put}
use trapchat.Worker.Bounded.{evict_oldest}
use trapchat.Worker.Json.{Json, null, bool, number, text, array, object, Items, Fields, property}
use trapchat.Worker.Queue.{Queue, DeadLetter, enqueue, size}
use trapchat.Worker.RateLimit.{RateLimitMap, check_rate_limit}
use trapchat.Worker.Results.{Results, Completed}
use trapchat.Worker.Auth.{Text, check_auth}

abbrev pub max_submitted_jobs : ℕ
max_submitted_jobs = 10000

abbrev pub max_body : ℕ
max_body = 1024 * 1024

-- `data` of a job: `undefined` or an object.
abbrev pub JobData : Type 0
JobData = Option Fields

pub record Server (R : Type 0) : Type 0 where
  pub queue : Queue JobData
  pub results : Results R
  pub submitted_jobs : List (String × Unit {0})
  pub rate_limit_map : RateLimitMap

-- A chunk of a body: its bytes, and the UTF-16 units that it adds to the text.
pub record DataChunk : Type 0 where
  pub bytes : ℕ
  pub units : ℕ

-- The body of a request: its chunks as they come in, and what `JSON.parse` gives of the whole (`none`
-- if it throws).
pub record Body : Type 0 where
  pub chunks : List DataChunk
  pub parsed : Option Json

pub data Route : Type 0 where
  get_health : Route
  post_jobs : Body → Route
  get_job : String → Route
  get_dead_letters : Route
  elsewhere : Route

pub record Request : Type 0 where
  pub route : Route
  pub authorization : Option Text
  pub remote_address : Option String

pub data Response (R : Type 0) : Type 0 where
  health : ℕ → Response R
  unauthorized : Response R
  rate_limit_exceeded : Response R
  body_too_large : Response R
  invalid_type : Response R
  invalid_data : Response R
  invalid_json : Response R
  created : String → Response R
  completed : Completed R → Response R
  pending : String → Response R
  job_not_found : Response R
  dead_letters : List DeadLetter → Response R
  not_found : Response R

pub status : {R : Type 0} → Response R → ℕ
status (health n) = 200
status unauthorized = 401
status rate_limit_exceeded = 429
status body_too_large = 413
status invalid_type = 400
status invalid_data = 400
status invalid_json = 400
status (created id) = 201
status (completed c) = 200
status (pending id) = 200
status job_not_found = 404
status (dead_letters ds) = 200
status not_found = 404

-- The `data` events: a chunk that would take the body past the limit is dropped, and so is the
-- connection. The length of the body is in UTF-16 units, that of a chunk in bytes. The result is the
-- length of the body and whether it overflowed.
pub receive : ℕ → List DataChunk → ℕ × Bool
receive got [] = (got, false)
receive got (c ∷ cs) =
    if ltb max_body (got + c.bytes) then (got, true) else receive (got + c.units) cs

non_empty_text : Option Json → Option String
non_empty_text (some (text t)) = if str_eq t "" then none else some t
non_empty_text _ = none

-- `typeof job.type !== 'string' || !job.type`; `none` where the text is refused.
job_type : Fields → Option String
job_type fs = non_empty_text (property "type" fs)

-- `none` where `data` is there and is no object.
job_data : Fields → Option JobData
job_data fs = elim (property "data" fs) [
  | none ↦ some none
  | some (object d) ↦ some (some d)
  | some _ ↦ none
]

-- req.socket.remoteAddress || 'unknown'
remote_ip : Option String → String
remote_ip none = "unknown"
remote_ip (some a) = if str_eq a "" then "unknown" else a

module _ {R : Type 0} where
  submit : Server R → String → JobData → ℕ → String → Server R × Response R
  submit s type data_ now id = (
    record s {
      queue = enqueue s.queue id type data_ now;
      submitted_jobs = evict_oldest max_submitted_jobs (put id tt s.submitted_jobs);
    },
    created id,
  )

  -- The checks of `type` and of `data`, in this order.
  post_object : Server R → Option String → Option JobData → ℕ → String → Server R × Response R
  unfolding submit
  post_object s none d now id = (s, invalid_type)
  post_object s (some type) none now id = (s, invalid_data)
  post_object s (some type) (some d) now id = submit s type d now id

  -- What the parsed body leads to. A property of `null` throws, and one of any other value that is
  -- no object is `undefined`.
  pub post_parsed : Server R → Option Json → ℕ → String → Server R × Response R
  post_parsed s none now id = (s, invalid_json)
  post_parsed s (some null) now id = (s, invalid_json)
  post_parsed s (some (object fs)) now id = post_object s (job_type fs) (job_data fs) now id
  post_parsed s (some _) now id = (s, invalid_type)

  pub post_job : Server R → Option String → Body → ℕ → String → Server R × Response R
  post_job s address body now id =
      let limited = check_rate_limit s.rate_limit_map (remote_ip address) now in
      let s' = record s { rate_limit_map = limited.0 } in
      if not limited.1
      then (s', rate_limit_exceeded)
      else if (receive 0 body.chunks).1
      then (s', body_too_large)
      else post_parsed s' body.parsed now id

  pub job_status : Server R → String → Response R
  job_status s id = elim (get id s.results) [
    | some c ↦ completed c
    | none ↦ if has id s.submitted_jobs then pending id else job_not_found
  ]

  -- if (!checkAuth(req, res)) return
  authorized : Bool → Server R → Server R × Response R → Server R × Response R
  authorized true s answer = answer
  authorized false s answer = (s, unauthorized)

  dispatch : Bool → Server R → Route → Option String → ℕ → String → Server R × Response R
  dispatch allowed s get_health address now id = (s, health (size s.queue))
  dispatch allowed s (post_jobs body) address now id =
      authorized allowed s (post_job s address body now id)
  dispatch allowed s (get_job k) address now id = authorized allowed s (s, job_status s k)
  dispatch allowed s get_dead_letters address now id =
      authorized allowed s (s, dead_letters s.queue.dead_letters)
  dispatch allowed s elsewhere address now id = authorized allowed s (s, not_found)

  -- The request's handler. `id` is what `randomUUID()` gives, if the request needs one.
  pub handle : (Text → Text) → Text → Server R → Request → ℕ → String → Server R × Response R
  handle digest auth_token s req now id =
      dispatch (check_auth digest auth_token req.authorization) s req.route req.remote_address now
        id
