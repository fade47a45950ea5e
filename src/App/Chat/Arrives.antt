-- ===== src/App/Chat/Arrives.antt =====
-- What a message is where it arrives (apps/trapchat/src/App.jsx), from `sendMessage` to the room.
use trapchat.Prelude.{
  ◌≡◌, ◌∙◌, ap, true, false, Option, refl, some, String, List, [], ◌∷◌, ◌++◌, ltb, if◌then◌else◌,
  str_eq, length,
}
use Prim.Native.String.{◌++◌ as join}
use trapchat.Crypto.Cipher.{Bytes, Platform, iv_length, encrypt, decrypt}
use trapchat.Crypto.Cipher.RoundTrips.{Reads, decrypt-encrypt_at}
use trapchat.Hooks.KeyRotation.{Rotating}
use trapchat.Socket.Client.{Message, is_open, message}
use trapchat.App.Chat.{
  Texts, ChatData, max_text_length, key_mismatch_text, truncation_mark, truncate, chat_text,
  decrypt_chat, decrypt_and_append_chat,
}
use trapchat.App.Outbox.{Page, Draft, send_p2p, send_message}
use trapchat.App.Outbox.Delivery.{typing_of, chat_of, send_message-IsDelivered}

-- What a peer has of a message from the socket.
abbrev pub data_of : Option String → Message String → ChatData
data_of from m = record { id = from; msg_id = some m.msg_id; payload = m.payload }

module _ {K C : Type 0} (p : Platform K) (k : K) (iv : Bytes) (text : String) where
  -- Where the browser reads what it sealed, and the socket is open while no peer's channel takes the text: a
  -- message that is not blank, in a room with a name and a key, is shown by its sender as typed, and one
  -- message goes over the socket, behind that of the typing indicator. A peer with the room's key shows
  -- that one with the text that was typed, if it has at most 50000 units, else with its first 50000 and
  -- the mark of a cut behind them; and, where it is not cut, as an error only if it reads like the
  -- notice of one.
  pub chat_arrives :
      length iv ≡ iv_length
      → Reads p k iv text
      → (trim : String → String) (x : Texts) (page : Page C) (d : Draft) → page.input ≡ some text
      → str_eq (trim text) "" ≡ false
      → str_eq d.room "" ≡ false
      → d.has_key ≡ true
      → d.encrypted ≡ some (encrypt p k iv text)
      → is_open page.client.ws ≡ true
      → (send_p2p page.mesh d.p2p_text).1 ≡ false
      → (rotating : Rotating K String) (nicknames : List (String × String)) (random : String)
        (from : Option String)
      → let q = send_message trim page d in
        (sent : Message String) × (q.client.sent ≡ page.client.sent ++ typing_of d ∷ sent ∷ [])
        × (q.appended
            ≡ page.appended
              ++ record { id = d.msg_id; text = text; error = false; queued = false } ∷ [])
        × (let m =
              decrypt_and_append_chat p x
                (some k)
                rotating
                nicknames
                random
                false
                (data_of from sent) in
            (m.text ≡ (
              if ltb max_text_length (x.length text)
              then join (x.slice text max_text_length) truncation_mark
              else text))
            × (ltb max_text_length (x.length text) ≡ false
                → str_eq text key_mismatch_text ≡ false
                → m.error ≡ false))
  unfolding decrypt_and_append_chat decrypt_chat chat_text truncate message
  chat_arrives h r trim x page d i t n key e o direct rotating nicknames random from =
      let sealed = encrypt p k iv text in
      let s = send_message-IsDelivered trim page d text sealed i t n key e in
      (
        chat_of d sealed,
        s.sent ∙ rw (o, direct) refl,
        s.shown ∙ rw (o, direct) refl,
        (shown, λ short other. ap (λ t. str_eq t key_mismatch_text) shown ∙ rw short other),
      )
    where
      shown : chat_text x (decrypt p k (encrypt p k iv text)) ≡ (
          if ltb max_text_length (x.length text)
          then join (x.slice text max_text_length) truncation_mark
          else text)
      shown = ap (chat_text x) (decrypt-encrypt_at p k iv text h r)
