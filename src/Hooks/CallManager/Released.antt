-- ===== src/Hooks/CallManager/Released.antt =====
-- Which devices a call keeps (apps/trapchat/src/hooks/useCallManager.js).
use trapchat.Prelude.{
  ◌≡◌, refl, ◌∙◌, sym, ap, subst, Bool, true, false, ◌||◌, not, Option, none, some, String, [], ◌∷◌,
  ◌++◌, str_eq, is_some, arith, append-nil, Bool-cases, Option-cases, inl, inr,
}
use trapchat.Hooks.CallManager.{
  Calls, type_or_audio, CallType, Stream, Given, stream, threw, audio, video, CallMessage,
  Permission, granted, refused, new_stream, request_media_permissions, answered, start_call,
  handle_incoming_call, stop_local, end_call, toggle_mute, toggle_video, call_offer, call_answer,
}
use trapchat.Hooks.CallManager.Valid.{
  AreShown, id_of, IsValid, toggle_mute-IsValid, toggle_video-IsValid,
}

-- Everything that can happen; of a permission, what the browser has and gives.
pub data CallEvent : Type 0 where
  starts : Bool → String → CallType → Bool → Given → CallEvent
  comes : Bool → String → Option CallType → Bool → Given → CallEvent
  ends : Bool → String → CallEvent
  mutes blanks : CallEvent

unfoldable pub call_step : Calls → CallEvent → Calls
call_step s (starts connected room type devices given) =
    start_call s connected room type (request_media_permissions devices type given)
call_step s (comes connected room type devices given) =
    handle_incoming_call s connected room type
      (request_media_permissions devices (type_or_audio type) given)
call_step s (ends connected room) = end_call s connected room
call_step s mutes = toggle_mute s
call_step s blanks = toggle_video s

-- A stream that is given has all its tracks on.
abbrev IsNew : Permission → Type 0
IsNew (refused r) = Unit
IsNew (granted x) =
    ((e : Bool) → x.audio_enabled ≡ some e → e ≡ true)
    × ((e : Bool) → x.video_enabled ≡ some e → e ≡ true)

request-IsNew :
    (devices : Bool) (type : CallType) (given : Given)
    → IsNew (request_media_permissions devices type given)
unfolding request_media_permissions new_stream
request-IsNew false type given = tt
request-IsNew true audio (stream id) = (λ e q. ground (arith, q), λ e q. ground (arith, q))
request-IsNew true video (stream id) = (λ e q. ground (arith, q), λ e q. ground (arith, q))
request-IsNew true type (threw name) = tt

answered-IsValid :
    (s : Calls) (connected : Bool) (room : String) (m : CallMessage) (type : CallType)
    (p : Permission)
    → IsValid s
    → s.call_active ≡ false
    → IsNew p
    → IsValid (answered s connected room m type p)
unfolding answered
answered-IsValid s connected room m type (refused r) v i n = record {
  with_stream = v.with_stream;
  kept = v.kept;
  shown = v.shown;
}
answered-IsValid s connected room m type (granted x) v i n =
    let l : s.local_stream ≡ none = no_stream s.local_stream (sym v.with_stream ∙ i) in
    let off : AreShown none s.call_muted s.call_video_off =
      subst (λ o. AreShown o s.call_muted s.call_video_off) l v.shown in
    record {
      with_stream = refl;
      kept =
          ap (λ a. a ++ x.id ∷ [])
            (v.kept ∙ ap (λ o. s.released ++ id_of o) l ∙ append-nil s.released);
      shown = (λ e q. off.0 ∙ sym (ap not (n.0 e q)), λ e q. off.1 ∙ sym (ap not (n.1 e q)));
    }
  where
    no_stream : (o : Option Stream) → is_some o ≡ false → o ≡ none
    no_stream none q = refl
    no_stream (some y) q = cc

start_call-IsValid :
    (s : Calls) (connected : Bool) (room : String) (type : CallType) (p : Permission)
    → IsValid s
    → IsNew p
    → IsValid (start_call s connected room type p)
unfolding start_call
start_call-IsValid s connected room type p v n =
    elim (Bool-cases (s.call_active || str_eq room "")) [
      | inl b ↦ ground (arith, b, v)
      | inr b ↦
          let r =
            answered-IsValid s connected room (call_offer type) type p v (ground (arith, b)) n in
          ground (arith, b, r)
    ]

handle_incoming_call-IsValid :
    (s : Calls) (connected : Bool) (room : String) (type : Option CallType) (p : Permission)
    → IsValid s
    → IsNew p
    → IsValid (handle_incoming_call s connected room type p)
unfolding handle_incoming_call
handle_incoming_call-IsValid s connected room type p v n =
    elim (Bool-cases (s.call_active || str_eq room "")) [
      | inl b ↦ ground (arith, b, v)
      | inr b ↦
          let t = type_or_audio type in
          let r = answered-IsValid s connected room (call_answer t) t p v (ground (arith, b)) n in
          ground (arith, b, r)
    ]

-- A stop of the local stream.
record IsStopped (s t : Calls) : Type 0 where
  no_local : t.local_stream ≡ none
  same_acquired : t.acquired ≡ s.acquired
  released : t.released ≡ s.released ++ id_of s.local_stream

stop_local-IsStopped : (s : Calls) → IsStopped s (stop_local s)
unfolding stop_local
stop_local-IsStopped s = elim (Option-cases s.local_stream) [
  | inl e ↦ record {
    no_local = ground (arith, e);
    same_acquired = ground (arith, e);
    released = ground (arith, e, append-nil s.released);
  }
  | inr (x, e) ↦ record {
    no_local = ground (arith, e);
    same_acquired = ground (arith, e);
    released = ground (arith, e);
  }
]

end_call-IsValid :
    (s : Calls) (connected : Bool) (room : String) → IsValid s → IsValid (end_call s connected room)
unfolding end_call
end_call-IsValid s connected room v =
    let t = stop_local-IsStopped s in
    record {
      with_stream = sym (ap is_some t.no_local);
      kept =
          t.same_acquired
          ∙ v.kept
          ∙ sym t.released
          ∙ sym (append-nil (stop_local s).released)
          ∙ ap (λ o. (stop_local s).released ++ id_of o) (sym t.no_local);
      shown = subst (λ o. AreShown o false false) (sym t.no_local) (refl, refl);
    }

-- Whatever happens to the calls of a page, with an answer of the browser between two other events: exactly
-- the local stream of a call that is active is held, and of every other that the browser gave the tracks
-- were stopped; and what the page says of the microphone and of the camera is so.
pub call_step-IsValid : (s : Calls) (e : CallEvent) → IsValid s → IsValid (call_step s e)
unfolding call_step
call_step-IsValid s (starts connected room type devices given) v =
    start_call-IsValid s connected room type _ v (request-IsNew devices type given)
call_step-IsValid s (comes connected room type devices given) v =
    handle_incoming_call-IsValid s connected room type _ v
      (request-IsNew devices (type_or_audio type) given)
call_step-IsValid s (ends connected room) v = end_call-IsValid s connected room v
call_step-IsValid s mutes v = toggle_mute-IsValid s v
call_step-IsValid s blanks v = toggle_video-IsValid s v
