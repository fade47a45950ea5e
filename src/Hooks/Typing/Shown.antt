-- ===== src/Hooks/Typing/Shown.antt =====
-- Who is shown as typing (apps/trapchat/src/hooks/useTypingIndicator.js), against what the messages say.
use trapchat.Prelude.{
  ℕ, ◌+◌, ◌≤◌, ◌≡◌, refl, Bool, true, false, Option, none, some, String, List, [], ◌∷◌, ltb, leb,
  if◌then◌else◌, str_eq, eq_iff, arith, is_some, Bool-cases, inl, inr,
}
use trapchat.Prelude.JsMap.{get, has, get-put, has-put}
use trapchat.Prelude.JsMap.Unique.{IsUnique, has-delete, put-IsUnique, delete-IsUnique, get-delete}
use trapchat.Hooks.Typing.{
  Typing, Message, new, typing_expire_ms, sender_name, started, stopped, handle_typing_message,
  fire_from, fire_due,
}

-- The messages, the latest first, each with the time at which it came.
abbrev pub Log : Type 0
Log = List (ℕ × Option Message)

-- The times do not go back.
abbrev pub IsOrdered : ℕ → Log → Type 0
IsOrdered now [] = Unit
IsOrdered now ((t, m) ∷ log) = (t ≤ now) × IsOrdered t log

module _ (short : String → String) where
  -- The specification, with no timers: when the name's latest message came, if it says that they type.
  unfoldable pub typed_at : Log → String → Option ℕ
  typed_at [] name = none
  typed_at ((t, none) ∷ log) name = typed_at log name
  typed_at ((t, some m) ∷ log) name =
      if str_eq (sender_name short m) name
      then if m.typing then some t else none
      else typed_at log name

  unfoldable pub is_typing : Log → String → ℕ → Bool
  is_typing log name now = elim (typed_at log name) [
    | none ↦ false
    | some t ↦ ltb now (t + typing_expire_ms)
  ]

  -- The code: before each message, the timers that are due have called back.
  unfoldable pub run : Log → Typing
  run [] = new
  run ((t, m) ∷ log) = handle_typing_message short (fire_due t (run log)) m t

-- The timer of a name, unless it is due.
abbrev pending : ℕ → Option ℕ → Option ℕ
pending now none = none
pending now (some d) = if leb d now then none else some d

record IsValid (t : Typing) : Type 0 where
  peers_once : IsUnique t.typing_peers
  timers_once : IsUnique t.timers
  timed : (name : String) → has name t.typing_peers ≡ is_some (get name t.timers)

stopped-IsValid : (t : Typing) (name : String) → IsValid t → IsValid (stopped t name)
unfolding stopped
stopped-IsValid t name v = record {
  peers_once = delete-IsUnique name t.typing_peers v.peers_once;
  timers_once = delete-IsUnique name t.timers v.timers_once;
  timed = λ j. ground (
    arith,
    has-delete name j t.typing_peers v.peers_once,
    get-delete name j t.timers v.timers_once,
    v.timed j,
  );
}

started-IsValid : (t : Typing) (name : String) (now : ℕ) → IsValid t → IsValid (started t name now)
unfolding started
started-IsValid t name now v = record {
  peers_once = put-IsUnique name tt t.typing_peers v.peers_once;
  timers_once = put-IsUnique name (now + typing_expire_ms) t.timers v.timers_once;
  timed = λ j. ground (
    arith,
    has-put name j tt t.typing_peers,
    get-put name j (now + typing_expire_ms) t.timers,
    v.timed j,
  );
}

-- The callbacks that run, and what they leave.
has_due : List (String × ℕ) → ℕ → String → Bool
has_due [] now name = false
has_due ((n, d) ∷ timers) now name =
    if leb d now
    then if str_eq n name then true else has_due timers now name
    else has_due timers now name

has_due_absent :
    (timers : List (String × ℕ)) (now : ℕ) (name : String)
    → has name timers ≡ false
    → has_due timers now name ≡ false
unfolding has_due has
has_due_absent [] now name f = refl
has_due_absent ((n, d) ∷ timers) now name f = ground (arith, has_due_absent timers now name)

has_due-get :
    (timers : List (String × ℕ)) (now : ℕ) (name : String)
    → IsUnique timers
    → (has_due timers now name ≡ elim (get name timers) [ none ↦ false | some d ↦ leb d now ])
unfolding has_due get
has_due-get [] now name u = refl
has_due-get ((n, d) ∷ timers) now name (f, u) =
    ground (arith, has_due-get timers now name u, eq_iff n name, has_due_absent timers now n f)

record Fired (timers : List (String × ℕ)) (now : ℕ) (t t' : Typing) : Type 0 where
  valid : IsValid t'
  kept :
      (name : String)
      → get name t'.timers ≡ (if has_due timers now name then none else get name t.timers)

fire_from-Fired :
    (timers : List (String × ℕ)) (now : ℕ) (t : Typing)
    → IsValid t
    → Fired timers now t (fire_from timers now t)
unfolding fire_from has_due stopped
fire_from-Fired [] now t v = record { valid = v; kept = λ name. refl }
fire_from-Fired ((n, d) ∷ timers) now t v = elim (Bool-cases (leb d now)) [
  | inl e ↦
      let r = fire_from-Fired timers now (stopped t n) (stopped-IsValid t n v) in
      record {
        valid = ground (arith, e, r.valid);
        kept = λ name. ground (arith, e, r.kept name, get-delete n name t.timers v.timers_once);
      }
  | inr e ↦
      let r = fire_from-Fired timers now t v in
      record { valid = ground (arith, e, r.valid); kept = λ name. ground (arith, e, r.kept name) }
]

fire_due-Pending :
    (now : ℕ) (t : Typing)
    → IsValid t
    → IsValid (fire_due now t)
      × ((name : String) → get name (fire_due now t).timers ≡ pending now (get name t.timers))
unfolding fire_due
fire_due-Pending now t v =
    let r = fire_from-Fired t.timers now t v in
    (r.valid, λ name. ground (arith, r.kept name, has_due-get t.timers now name v.timers_once))

-- The timer that the latest message of a name sets, if it says that they type.
abbrev timer_of : Option ℕ → Option ℕ
timer_of none = none
timer_of (some t) = some (t + typing_expire_ms)

fire_due-run :
    (short : String → String) (log : Log) (now : ℕ)
    → IsOrdered now log
    → IsValid (fire_due now (run short log))
      × ((name : String)
          → get name (fire_due now (run short log)).timers
            ≡ pending now (timer_of (typed_at short log name)))
unfolding run typed_at handle_typing_message get has started stopped sender_name
fire_due-run short [] now o =
    fire_due-Pending now new record { peers_once = tt; timers_once = tt; timed = λ name. refl }
fire_due-run short ((t, none) ∷ log) now (le, o) =
    let (v, e) = fire_due-run short log t o in
    let (v', e') = fire_due-Pending now (fire_due t (run short log)) v in
    (v', λ name. ground (arith, e name, e' name, le))
fire_due-run short ((t, some m) ∷ log) now (le, o) =
    let (v, e) = fire_due-run short log t o in
    let s = fire_due t (run short log) in
    let said = sender_name short m in
    elim (Bool-cases m.typing) [
      | inl on ↦
          let (v', e') = fire_due-Pending now (started s said t) (started-IsValid s said t v) in
          rw (on, handle_typing_message)
            (
              v',
              λ name. ground (
                arith,
                on,
                e name,
                e' name,
                get-put said name (t + typing_expire_ms) s.timers,
                le,
              ),
            )
      | inr off ↦
          let (v', e') = fire_due-Pending now (stopped s said) (stopped-IsValid s said v) in
          rw (off, handle_typing_message)
            (
              v',
              λ name.
                  ground
                    (arith, off, e name, e' name, get-delete said name s.timers v.timers_once, le),
            )
    ]

-- Whoever is shown as typing, after whatever messages and at whatever time: they are those whose latest
-- message says so and came in the last 3.5 seconds.
pub shown_refines :
    (short : String → String) (log : Log) (now : ℕ)
    → IsOrdered now log
    → (name : String)
    → has name (fire_due now (run short log)).typing_peers ≡ is_typing short log name now
unfolding is_typing
shown_refines short log now o name =
    let (v, e) = fire_due-run short log now o in ground (arith, v.timed name, e name)
