-- ===== src/Worker/Queue.antt =====
-- services/worker/src/queue.js: class `Queue`. Job ids (`randomUUID()`) and times (`Date.now()`,
-- in milliseconds) are arguments; one call reads the clock once.
pub mod Order
pub mod DeadLetters
use trapchat.Prelude.{
  ℕ, suc, ◌+◌, ◌≡◌, refl, String, Bool, true, false, ◌||◌, not, Option, none, some, List, [], ◌∷◌,
  ◌++◌, ltb, leb, ◌==◌, if◌then◌else◌, length, str_eq,
}
use mathlib.Core.Option

abbrev pub max_dead_letters : ℕ
max_dead_letters = 1000

-- The values that a job's `error` and `lastError` fields can have: `undefined`, a text, or an
-- object with perhaps a `message`.
pub data ErrorField : Type 0 where
  undefined : ErrorField
  text : String → ErrorField
  object : Option String → ErrorField

pub record Job (D : Type 0) : Type 0 where
  pub id : String
  pub job_type : String
  pub job_data : D
  pub created_at : ℕ
  pub attempts : ℕ
  pub max_attempts : ℕ
  pub retry_after : Option ℕ
  pub error : ErrorField
  pub last_error : ErrorField
  pub queued_at : Option ℕ
  pub scheduled_at : Option ℕ

pub record DeadLetter : Type 0 where
  pub id : String
  pub job_type : String
  pub attempts : ℕ
  pub max_attempts : ℕ
  pub queued_at : Option ℕ
  pub scheduled_at : Option ℕ
  pub failed_at : ℕ
  pub error : Option String

pub record Queue (D : Type 0) : Type 0 where
  pub items : List (Job D)
  pub dead_letters : List DeadLetter

-- An object's `message`, where it is there and not empty.
message_of : ErrorField → Option String
message_of undefined = none
message_of (text s) = none
message_of (object none) = none
message_of (object (some m)) = if str_eq m "" then none else some m

text_of : ErrorField → Option String
text_of (text s) = some s
text_of _ = none

abbrev or_else : Option String → Option String → Option String
or_else none b = b
or_else (some a) b = some a

-- The chain of `||`: the empty text is falsy, but the last operand is the result as it is.
unfoldable pub error_summary : ErrorField → ErrorField → Option String
unfolding message_of text_of
error_summary error last_error =
    or_else (message_of error)
      (or_else (message_of last_error) (or_else (non_empty (text_of error)) (text_of last_error)))
  where
    non_empty : Option String → Option String
    non_empty none = none
    non_empty (some s) = if str_eq s "" then none else some s

-- `while (deadLetters.length > MAX_DEAD_LETTERS) deadLetters.shift()`
pub evict : ℕ → List DeadLetter → List DeadLetter
evict limit [] = []
evict limit (d ∷ ds) = if ltb limit (length (d ∷ ds)) then evict limit ds else d ∷ ds

module _ {D : Type 0} where
  unfoldable pub new_job : String → String → D → ℕ → Job D
  new_job id type d now = record {
    id = id;
    job_type = type;
    job_data = d;
    created_at = now;
    attempts = 0;
    max_attempts = 3;
    retry_after = none;
    error = undefined;
    last_error = undefined;
    queued_at = none;
    scheduled_at = none;
  }

  abbrev pub new : Queue D
  new = record { items = []; dead_letters = [] }

  unfoldable pub enqueue : Queue D → String → String → D → ℕ → Queue D
  unfolding new_job
  enqueue q id type d now = record q { items = q.items ++ new_job id type d now ∷ [] }

  -- `!item._retryAfter || now >= item._retryAfter`
  unfoldable pub is_eligible : ℕ → Job D → Bool
  is_eligible now j = elim j.retry_after [ none ↦ true | some t ↦ t == 0 || leb t now ]

  -- The loop of `dequeue`: the first eligible item, and the list without it.
  unfoldable pub splice_first : ℕ → List (Job D) → Option (Job D × List (Job D))
  splice_first now [] = none
  splice_first now (j ∷ js) =
      if is_eligible now j
      then some (j, js)
      else Option.map (λ r. (r.0, j ∷ r.1)) (splice_first now js)

  unfoldable pub dequeue : Queue D → ℕ → Option (Job D × Queue D)
  dequeue q now = Option.map (λ r. (r.0, record q { items = r.1 })) (splice_first now q.items)

  pub size : Queue D → ℕ
  size q = length q.items

  peek : Queue D → Option (Job D)
  peek q = elim q.items [ [] ↦ none | j ∷ js ↦ some j ]

  unfoldable pub dead_letter : Job D → ℕ → DeadLetter
  dead_letter j now = record {
    id = j.id;
    job_type = j.job_type;
    attempts = j.attempts;
    max_attempts = j.max_attempts;
    queued_at = j.queued_at;
    scheduled_at = j.scheduled_at;
    failed_at = now;
    error = error_summary j.error j.last_error;
  }

  unfoldable pub failed : Queue D → Job D → ℕ → Queue D
  failed q j now = record q {
    dead_letters = evict max_dead_letters (q.dead_letters ++ dead_letter j now ∷ []);
  }

  -- The result is the queue, the job as the call leaves it, and whether it was put back.
  unfoldable pub requeue : Queue D → Job D → ℕ → Queue D × Job D × Bool
  requeue q j now =
      let j' = record j { attempts = j.attempts + 1 } in
      if leb j'.max_attempts j'.attempts
      then (failed q j' now, j', false)
      else (record q { items = q.items ++ j' ∷ [] }, j', true)
