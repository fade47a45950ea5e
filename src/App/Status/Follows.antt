-- ===== src/App/Status/Follows.antt =====
-- The status that apps/trapchat/src/App.jsx shows, and the connection that there is.
use trapchat.Prelude.{
  ℕ, ◌+◌, ◌≡◌, refl, sym, ◌∙◌, ap, Bool, true, false, Option, none, some, String, List, [], ◌∷◌,
  ◌++◌, arith, ◌&&◌, ltb, length, if◌then◌else◌,
}
use trapchat.Socket.Client.{
  Client, Message, Stamp, Event, Emission, open_, close, error, error_max_rooms, queued,
  reconnecting_, reconnect_failed, received, ReadyState, opened, closed, connects, opens_not,
  disconnects, due, opens, closes, receives, sends, sends_raw, is_open, message, delay_with, emit,
  update_rooms, transmit, send, send_if_open, flush_from, flush_queue, rejoin, connect, on_open,
  on_error, attempt_reconnect, on_close, on_message, reconnect_due, disconnect, send_raw, step,
}
use trapchat.App.Status.{ConnectionStatus, status_after, shown_status, is_connected}

shown_status-snoc :
    (i : Bool) (s : ConnectionStatus) (es : List Emission) (e : Emission)
    → shown_status i s (es ++ e ∷ []) ≡ status_after i (shown_status i s es) e
unfolding shown_status
shown_status-snoc i s [] e = refl
shown_status-snoc i s (d ∷ es) e = shown_status-snoc i (status_after i s d) es e

-- The three steps that can drop an open connection do not.
unfoldable pub Keeps : {P : Type 0} → Client P → Event P → Type 0
Keeps c connects = is_open c.ws ≡ false
Keeps c due = is_open c.ws ≡ false
Keeps c disconnects = is_open c.ws ≡ false
Keeps c _ = Unit

close_shown : (i : Bool) (s : ConnectionStatus) → is_connected (status_after i s close) ≡ false
unfolding status_after is_connected
close_shown true s = refl
close_shown false s = refl

after_close :
    (o : Option ReadyState)
    → let o' : Option ReadyState = elim o [ none ↦ none | some r ↦ some closed ] in
      is_open o' ≡ false
unfolding is_open
after_close none = refl
after_close (some r) = refl

module _ {P : Type 0} (i : Bool) (s : ConnectionStatus) where
  -- Whether the page shows that it is connected.
  unfoldable pub shows : Client P → Bool
  shows c = is_connected (shown_status i s c.emitted)

  shows-emit :
      (c : Client P) (e : Emission)
      → shows (emit c e) ≡ is_connected (status_after i (shown_status i s c.emitted) e)
  unfolding shows
  shows-emit c e = ap is_connected (shown_status-snoc i s c.emitted e)

  -- `sent`, `pending_queue` and so on may differ.
  abbrev IsSame : Client P → Client P → Type 0
  IsSame c d = (shows d ≡ shows c) × (is_open d.ws ≡ is_open c.ws)

  quiet :
      (c : Client P) (e : Emission)
      → ((t : ConnectionStatus) → status_after i t e ≡ t)
      → IsSame c (emit c e)
  unfolding shows
  quiet c e same = (shows-emit c e ∙ ap is_connected (same (shown_status i s c.emitted)), refl)

  transmit-IsSame : (c : Client P) (m : Message P) → IsSame c (transmit c m).0
  unfolding shows transmit status_after
  transmit-IsSame c m = ground (arith, shown_status-snoc i s c.emitted (queued m.type_ m.room))

  update_rooms_lem :
      (c d : Client P) (type room : String) (payload : P)
      → update_rooms c type room payload ≡ some d
      → IsSame c d
  unfolding shows update_rooms
  update_rooms_lem c d type room payload e = ground (arith, e)

  send-IsSame :
      (c : Client P) (type room : String) (payload : P) (msg_id : Option String) (t : Stamp)
      → IsSame c (send c type room payload msg_id t).0
  unfolding send status_after
  send-IsSame c type room payload msg_id t =
      go (update_rooms c type room payload) (λ d e. update_rooms_lem c d type room payload e)
    where
      go :
          (o : Option (Client P))
          → ((d : Client P) → o ≡ some d → IsSame c d)
          → let r : Client P × Bool = elim o [
            | none ↦ (emit c error_max_rooms, false)
            | some d ↦ transmit d (message type room payload msg_id t)
          ] in
            IsSame c r.0
      go none same = quiet c error_max_rooms (λ u. refl)
      go (some d) same =
          let (x, y) = same d refl in
          let (z, w) = transmit-IsSame d (message type room payload msg_id t) in (z ∙ x, w ∙ y)

  flush_from-IsSame : (c : Client P) (q : List (String × Message P)) → IsSame c (flush_from c q)
  unfolding flush_from send_if_open shows
  flush_from-IsSame c [] = (refl, refl)
  flush_from-IsSame c ((room, m) ∷ q) =
      let (x, y) = flush_from-IsSame (send_if_open c m) q in
      let (z, w) : IsSame c (send_if_open c m) = ground arith in (x ∙ z, y ∙ w)

  rejoin-IsSame :
      (c : Client P) (rooms : List (String × P)) (stamps : ℕ → Stamp) (n : ℕ)
      → IsSame c (rejoin c rooms stamps n)
  unfolding rejoin
  rejoin-IsSame c [] stamps n = (refl, refl)
  rejoin-IsSame c ((room, payload) ∷ rooms) stamps n =
      let (x, y) = send-IsSame c "join" room payload none (stamps n) in
      let (z, w) =
        rejoin-IsSame (send c "join" room payload none (stamps n)).0 rooms stamps (n + 1) in
      (z ∙ x, w ∙ y)

  -- The page shows that it is connected exactly while the connection is open.
  unfoldable pub IsShown : Client P → Type 0
  IsShown c = shows c ≡ is_open c.ws

  kept : (c d : Client P) → IsSame c d → IsShown c → IsShown d
  unfolding IsShown
  kept c d (x, y) h = x ∙ h ∙ sym y

  on_open-IsShown : (c : Client P) (stamps : ℕ → Stamp) → IsShown (on_open c stamps)
  unfolding on_open flush_queue IsShown status_after is_connected is_open shows
  on_open-IsShown c stamps =
      kept c₂ (flush_from c₂ c₂.pending_queue) (flush_from-IsSame c₂ c₂.pending_queue) (
        kept c₁ c₂ (go b) (
          shows-emit (record c { ws = some opened; settled = true; reconnect_attempts = 0 }) open_))
    where
      c₁ : Client P
      c₁ = emit (record c { ws = some opened; settled = true; reconnect_attempts = 0 }) open_

      b : Bool
      b = c.reconnecting && ltb 0 (length c.joined_rooms)

      rejoined : Client P
      rejoined = record (rejoin c₁ c.joined_rooms stamps 0) { reconnecting = false }

      c₂ : Client P
      c₂ = if b then rejoined else c₁

      go : (b' : Bool) → IsSame c₁ (if b' then rejoined else c₁)
      go true = rejoin-IsSame c₁ c.joined_rooms stamps 0
      go false = (refl, refl)

  attempt_reconnect-IsShown :
      (c : Client P) (jitter : ℕ)
      → shows c ≡ false
      → is_open c.ws ≡ false
      → IsShown (attempt_reconnect c jitter)
  unfolding attempt_reconnect IsShown shows status_after is_connected
  attempt_reconnect-IsShown c jitter h o =
      let n = c.reconnect_attempts in
      ground (
        arith,
        shown_status-snoc i s c.emitted (reconnect_failed n),
        shown_status-snoc i s c.emitted (reconnecting_ (n + 1) (delay_with n jitter)),
      )

  on_close-IsShown : (c : Client P) (jitter : ℕ) → IsShown (on_close c jitter)
  unfolding on_close IsShown
  on_close-IsShown c jitter = go c.settled
    where
      cut : Client P
      cut = record c { ws = elim c.ws [ none ↦ none | some r ↦ some closed ] }

      over : is_open cut.ws ≡ false
      over = after_close c.ws

      off : shows (emit cut close) ≡ false
      off = shows-emit cut close ∙ close_shown i (shown_status i s c.emitted)

      go :
          (b : Bool)
          → IsShown (if b then attempt_reconnect (emit cut close) jitter else emit cut close)
      go true = attempt_reconnect-IsShown (emit cut close) jitter off over
      go false = off ∙ sym over

  on_message-IsSame :
      (c : Client P) (type : String) (id : Option String) → IsSame c (on_message c type id)
  unfolding on_message status_after shows
  on_message-IsSame c type id = ground (
    arith,
    shown_status-snoc i s c.emitted (received "message"),
    shown_status-snoc i s (c.emitted ++ received "message" ∷ []) (received type),
  )

  send_raw-IsSame : (c : Client P) (parsed : Option (Message P)) → IsSame c (send_raw c parsed).0
  unfolding send_raw shows
  send_raw-IsSame c none = ground arith
  send_raw-IsSame c (some m) = ground arith

  -- If the page shows that it is connected exactly while the connection is open, any step of the client keeps
  -- it so, for either value of the flag of an intended disconnect, as long as it is no new `connect`,
  -- no callback of the reconnect timer and no `disconnect` while the connection is open.
  pub step-IsShown : (c : Client P) (e : Event P) → Keeps c e → IsShown c → IsShown (step c e)
  unfolding step Keeps IsShown connect disconnect reconnect_due on_error status_after is_open shows
  step-IsShown c connects k h = h ∙ k
  step-IsShown c opens_not k h = kept c (emit c error) (quiet c error (λ u. refl)) h
  step-IsShown c disconnects k h = h ∙ k
  step-IsShown c due k h = h ∙ k
  step-IsShown c (opens stamps) k h = on_open-IsShown c stamps
  step-IsShown c (closes jitter) k h = on_close-IsShown c jitter
  step-IsShown c (receives type id) k h =
      kept c (on_message c type id) (on_message-IsSame c type id) h
  step-IsShown c (sends type room payload msg_id t) k h =
      kept c (send c type room payload msg_id t).0 (send-IsSame c type room payload msg_id t) h
  step-IsShown c (sends_raw parsed) k h = kept c (send_raw c parsed).0 (send_raw-IsSame c parsed) h
