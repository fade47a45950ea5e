-- ===== src/Examples/App.antt =====
-- The theorems on apps/trapchat/src/App.jsx at concrete rooms.
use trapchat.Prelude.{
  replicate, ◌++◌, ℕ, ◌≡◌, refl, arith, true, false, Option, some, none, String, List, [], ◌∷◌,
}
use trapchat.Prelude.JsMap.{get, has}
use trapchat.Crypto.Cipher.{Bytes, Platform, encrypt, uint8_to_base64}
use trapchat.App.Inbox.{
  Inbox, Wait, RoomView, salts_match, passphrase_of, is_read, presence, derived,
}
use trapchat.App.Inbox.Valid.{IsValid, decrypts}
use trapchat.App.Inbox.Held.{Holds, step, inbox_step-Holds}
use trapchat.App.Inbox.Stuck.{run_later, bad_salt_stalls}
use trapchat.App.Inbox.Receipts.{
  Notice, receipted, notices, status_of, settled, any_read, last_of, statuses, notices_settle,
}
use trapchat.App.Chat.{Texts, decrypt_and_append_chat}
use trapchat.App.Chat.Arrives.{data_of, chat_arrives}
use trapchat.Crypto.Cipher.RoundTrips.{Reads}
use trapchat.Hooks.KeyRotation.{Rotating}
use trapchat.App.Outbox.{Page, Draft, send_p2p, send_message}
use trapchat.App.Outbox.Delivery.{IsDelivered, typing_of, send_message-IsDelivered}
use trapchat.Webrtc.Peer.{opened as channel_open, new as no_connection}
use trapchat.Hooks.Typing.{new as fresh}
use trapchat.Socket.Client.{Message, Stamp, opened, is_open, new as offline}
use trapchat.Examples.Crypto.{platform}

-- The lobby waits for its key, with a message.
abbrev waiting : Inbox (Bytes × Bytes) String
waiting = record {
  keys = [];
  active_key = none;
  salts = [];
  passphrases = ("lobby", "secret") ∷ [];
  pending_key_rooms = ("lobby", tt) ∷ [];
  pending_messages = ("lobby", "hello" ∷ []) ∷ [];
  decrypting = ("lobby", "early", none) ∷ [];
  shown = [];
  receipts = [];
}

abbrev short_salt : Bytes
short_salt = 7 ∷ 7 ∷ []

abbrev wait : Wait
wait = record { room = "lobby"; passphrase = "secret"; salt = short_salt }

waiting-IsValid : IsValid waiting
unfolding has get
waiting-IsValid = record {
  rooms_once = (refl, tt);
  queues_once = (refl, tt);
  waiting = λ r f. ground (arith, f);
  unnamed = refl;
}

inbox_step-Holds_example : Holds waiting (step platform "lobby" waiting (decrypts 0)) (decrypts 0)
inbox_step-Holds_example = inbox_step-Holds platform "lobby" waiting (decrypts 0) waiting-IsValid

bad_salt_stalls_example :
    let r = presence waiting "lobby" (some short_salt) in
    (r.1 ≡ some wait)
    × ((es : List (Option String))
        → let s = run_later "lobby" short_salt (derived platform "lobby" r.0 wait) es in
          (s.decrypting ≡ waiting.decrypting) × (s.shown ≡ []))
unfolding get salts_match passphrase_of
bad_salt_stalls_example =
    bad_salt_stalls "lobby" short_salt platform "lobby" "secret" waiting refl refl refl

abbrev lobby : RoomView
lobby = record {
  peer_count = 2;
  peer_nicknames = [];
  expires_at = none;
  salt = none;
  message_receipts = [];
}

abbrev views : List (String × RoomView)
views = ("lobby", lobby) ∷ []

-- It is read, and then a late receipt comes.
abbrev receipts : List Notice
receipts = receipted "lobby" "m1" "read" ∷ receipted "lobby" "m1" "delivered" ∷ []

notices_settle_example : status_of "lobby" "m1" (notices views receipts) ≡ some "read"
unfolding get settled status_of is_read any_read last_of statuses
notices_settle_example = notices_settle "lobby" "m1" views receipts refl refl refl

abbrev stamp : Stamp
stamp = record { id = "i"; msg_id = "m"; now = 9 }

abbrev draft : Draft
draft = record {
  room = "lobby";
  has_key = true;
  encrypted = some "sealed";
  now = 9;
  typing_text = "typing";
  p2p_text = "direct";
  msg_id = "m2";
  typing_stamp = stamp;
  chat_stamp = stamp;
}

-- There is no connection.
abbrev page : Page ℕ
page = record { client = offline; mesh = none; typing = fresh; input = some "hello"; appended = [] }

-- A peer is connected, and its channel is open.
abbrev with_peer : Page ℕ
with_peer = record page {
  mesh = some (("b", record no_connection { channel = some channel_open; connected = true }) ∷ []);
}

send_message-IsDelivered_example :
    IsDelivered with_peer
      (send_message (λ t. t) with_peer draft)
      draft
      "hello"
      "sealed"
      (send_p2p with_peer.mesh "direct").1
send_message-IsDelivered_example =
    send_message-IsDelivered (λ t. t) with_peer draft "hello" "sealed" refl refl refl refl refl

-- A browser that reads one text.
abbrev zeros : Bytes
zeros = replicate 12 0

abbrev reader : Platform ℕ
reader = record {
  aes_encrypt = λ k iv bytes. bytes;
  aes_decrypt = λ k iv bytes. some bytes;
  export_raw = λ k. [];
  import_raw = λ bytes. none;
  btoa = λ bytes. "sealed";
  atob = λ text. some (zeros ++ 1 ∷ []);
  utf8 = λ text. 1 ∷ [];
  from_utf8 = λ bytes. "hello";
  stringify = λ fields. "";
  parse = λ text. none;
  sha256 = λ bytes. [];
  pbkdf2 = λ material salt n. n;
}

abbrev texts : Texts
texts = record { length = λ t. 5; slice = λ t n. t }

abbrev no_rotator : Rotating ℕ String
no_rotator = record { rotator = none; active_key = none; client = offline; notices = [] }

reader-Reads : Reads reader 3 zeros "hello"
reader-Reads = record { coded = refl; opened = refl; text_coded = refl }

-- The socket is open.
abbrev online : Page ℕ
online = record page { client = record offline { ws = some opened } }

chat_arrives_example :
    let q = send_message (λ t. t) online draft in
    (sent : Message String) × (q.client.sent ≡ typing_of draft ∷ sent ∷ [])
    × (q.appended ≡ record { id = "m2"; text = "hello"; error = false; queued = false } ∷ [])
    × (let m =
          decrypt_and_append_chat reader texts
            (some 3)
            no_rotator
            []
            "r"
            false
            (data_of (some "b") sent) in
        (m.text ≡ "hello") × (false ≡ false → false ≡ false → m.error ≡ false))
unfolding encrypt uint8_to_base64 is_open send_p2p
chat_arrives_example =
    chat_arrives reader 3 zeros "hello" refl reader-Reads (λ t. t) texts online draft refl refl refl
      refl refl refl refl no_rotator [] "r" (some "b")
