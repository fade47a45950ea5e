-- ===== src/App/Outbox/Delivery.antt =====
-- Where a message of one's own goes (apps/trapchat/src/App.jsx).
use trapchat.Prelude.{
  ◌≡◌, refl, ◌∙◌, sym, Bool, true, false, ◌||◌, not, Option, none, some, String, [], ◌∷◌, ◌++◌,
  if◌then◌else◌, str_eq, arith, ltb, length, append_assoc, append-nil,
}
use trapchat.Socket.Client.{
  Client, Message, max_pending, is_open, update_rooms, transmit, message, send,
}
use trapchat.Hooks.Typing.{send_typing_indicator}
use trapchat.App.Outbox.{Page, Draft, send_p2p, stop_typing, deliver, delivered, send_message}
use trapchat.Webrtc.Mesh.{Mesh}
use trapchat.App.Outbox.Direct.{ToPeer, send_p2p-ToPeer}

-- What a call for a message leaves, where it joins and leaves no room.
record Transmits {P : Type 0} (c : Client P) (m : Message P) (kept : Bool) (r : Client P × Bool)
    : Type 0 where
  answer : r.1 ≡ is_open c.ws
  same_socket : r.0.ws ≡ c.ws
  sent : r.0.sent ≡ c.sent ++ (if is_open c.ws then m ∷ [] else [])
  pending :
      r.0.pending_queue
      ≡ c.pending_queue
        ++ (if is_open c.ws
            then []
            else if not kept
            then []
            else if ltb (length c.pending_queue) max_pending
            then (m.room, m) ∷ []
            else [])

transmit-Transmits :
    {P : Type 0} (c : Client P) (m : Message P)
    → Transmits c m (str_eq m.type_ "chat" || str_eq m.type_ "media") (transmit c m)
unfolding transmit
transmit-Transmits c m = record {
  answer = ground arith;
  same_socket = ground arith;
  sent = ground (arith, append-nil c.sent);
  pending = ground (arith, append-nil c.pending_queue);
}

-- The messages that one `sendMessage` makes for the socket.
abbrev pub typing_of : Draft → Message String
typing_of d = message "typing" d.room d.typing_text none d.typing_stamp

abbrev pub chat_of : Draft → String → Message String
chat_of d encrypted = message "chat" d.room encrypted (some d.msg_id) d.chat_stamp

send-chat :
    (c : Client String) (d : Draft) (e : String)
    → Transmits c (chat_of d e) true (send c "chat" d.room e (some d.msg_id) d.chat_stamp)
unfolding send update_rooms message
send-chat c d e = transmit-Transmits c (chat_of d e)

send-typing :
    (c : Client String) (d : Draft)
    → Transmits c (typing_of d) false (send c "typing" d.room d.typing_text none d.typing_stamp)
unfolding send update_rooms message
send-typing c d = transmit-Transmits c (typing_of d)

module _ {C : Type 0} where
  -- What is sent and kept and shown, where a peer took the message or did not.
  pub record IsDelivered (p p' : Page C) (d : Draft) (text encrypted : String) (direct : Bool)
      : Type 0 where
    pub to_peer : ToPeer p.mesh p'.mesh d.p2p_text direct
    pub shown :
        p'.appended
        ≡ p.appended
          ++ record {
            id = d.msg_id;
            text = text;
            error = false;
            queued = not (direct || is_open p.client.ws);
          }
            ∷ []
    pub cleared : p'.input ≡ some ""
    pub sent :
        p'.client.sent
        ≡ p.client.sent
          ++ (if is_open p.client.ws
              then typing_of d ∷ (if direct then [] else chat_of d encrypted ∷ [])
              else [])
    pub pending :
        p'.client.pending_queue
        ≡ p.client.pending_queue
          ++ (if direct || is_open p.client.ws
              then []
              else if ltb (length p.client.pending_queue) max_pending
              then (d.room, chat_of d encrypted) ∷ []
              else [])

  -- The client after the typing indicator.
  record StopsTyping (p q : Page C) (d : Draft) : Type 0 where
    same_mesh : q.mesh ≡ p.mesh
    same_appended : q.appended ≡ p.appended
    same_socket : q.client.ws ≡ p.client.ws
    sent : q.client.sent ≡ p.client.sent ++ (if is_open p.client.ws then typing_of d ∷ [] else [])
    pending : q.client.pending_queue ≡ p.client.pending_queue

  stop_typing-StopsTyping :
      (p : Page C) (d : Draft) → str_eq d.room "" ≡ false → StopsTyping p (stop_typing p d) d
  unfolding stop_typing send_typing_indicator
  stop_typing-StopsTyping p d n =
      let t = send-typing p.client d in
      record {
        same_mesh = ground (arith, n);
        same_appended = ground (arith, n);
        same_socket = ground (arith, n, t.same_socket);
        sent = ground (arith, n, t.sent);
        pending = ground (arith, n, t.pending, append-nil p.client.pending_queue);
      }

  deliver-IsDelivered :
      (p q : Page C) (d : Draft) (text e : String)
      → StopsTyping p q d
      → IsDelivered p (deliver q d text e) d text e (send_p2p q.mesh d.p2p_text).1
  unfolding deliver delivered message
  deliver-IsDelivered p q d text e s =
      go (send_p2p q.mesh d.p2p_text) (rw (sym s.same_mesh) (send_p2p-ToPeer q.mesh d.p2p_text))
    where
      go :
          (r : Option (Mesh C) × Bool)
          → ToPeer p.mesh r.0 d.p2p_text r.1
          → IsDelivered p (delivered q d text e r) d text e r.1
      go (mesh, true) t = record {
        to_peer = t;
        shown = rw s.same_appended refl;
        cleared = refl;
        sent = s.sent;
        pending = s.pending ∙ sym (append-nil p.client.pending_queue);
      }
      go (mesh, false) t =
          let c = send-chat q.client d e in
          record {
            to_peer = t;
            shown = ground (arith, c.answer, s.same_socket, s.same_appended);
            cleared = refl;
            sent = ground (
              arith,
              c.sent,
              s.sent,
              s.same_socket,
              append-nil p.client.sent,
              append_assoc p.client.sent (typing_of d ∷ []) (chat_of d e ∷ []),
            );
            pending =
                ground
                  (arith, c.pending, s.pending, s.same_socket, append-nil p.client.pending_queue);
          }

  -- A message that is not blank, in a room with a name and a key, and that could be encrypted, is shown
  -- once, and the field is cleared. It is handed to the channel of the first connected peer, if that is
  -- open; else it goes over the socket, if that is open; else it is kept until the socket opens, if less
  -- than 200 messages wait, and if more wait it is dropped. It is shown as queued exactly when neither a
  -- peer nor the socket took it, dropped or not.
  pub send_message-IsDelivered :
      (trim : String → String) (p : Page C) (d : Draft) (text e : String)
      → p.input ≡ some text
      → str_eq (trim text) "" ≡ false
      → str_eq d.room "" ≡ false
      → d.has_key ≡ true
      → d.encrypted ≡ some e
      → IsDelivered p (send_message trim p d) d text e (send_p2p p.mesh d.p2p_text).1
  unfolding send_message
  send_message-IsDelivered trim p d text e i t n k c =
      let q = stop_typing p d in
      let s = stop_typing-StopsTyping p d n in
      let r = deliver-IsDelivered p q d text e s in ground (arith, i, t, k, c, s.same_mesh, r)
