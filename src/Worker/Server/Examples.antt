-- ===== src/Worker/Server/Examples.antt =====
-- The theorems on the HTTP service of services/worker/src/index.js at a concrete request.
use trapchat.Prelude.{ℕ, ◌≡◌, refl, true, none, some, [], ◌∷◌}
use trapchat.Prelude.JsMap.{get}
use trapchat.Worker.Json.{field, end, text, object, property}
use trapchat.Worker.Auth.{check_auth}
use trapchat.Worker.RateLimit.{check_rate_limit, current_entry}
use trapchat.Worker.Server.{
  Server, Request, post_jobs, created, handle, dispatch, authorized, post_job, receive, post_parsed,
  post_object, submit, job_type, job_data, non_empty_text, remote_ip,
}
use trapchat.Worker.Server.Jobs.{Submits, handle-Submits}

abbrev idle : Server ℕ
idle = record {
  queue = record { items = []; dead_letters = [] };
  results = [];
  submitted_jobs = [];
  rate_limit_map = [];
}

abbrev submission : Request
submission = record {
  route = post_jobs (record {
    chunks = record { bytes = 20; units = 20 } ∷ record { bytes = 12; units = 11 } ∷ [];
    parsed = some (object (field "type" (text "room:cleanup") end));
  });
  authorization = none;
  remote_address = some "1.2.3.4";
}

handle-Submits_example :
    Submits idle 100 "a" (handle (λ s. s) [] idle submission 100 "a")
    × ((handle (λ s. s) [] idle submission 100 "a").1 ≡ created "a"
        → check_auth (λ s. s) [] none ≡ true)
handle-Submits_example = handle-Submits (λ s. s) [] idle submission 100 "a"

submission_created : (handle (λ s. s) [] idle submission 100 "a").1 ≡ created "a"
unfolding handle dispatch authorized check_auth post_job remote_ip check_rate_limit current_entry
    get receive post_parsed post_object submit job_type job_data non_empty_text property
submission_created = refl
