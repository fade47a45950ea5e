-- ===== src/App/Outbox.antt =====
-- apps/trapchat/src/App.jsx: `sendMessage`, over a peer's data channel (lib/webrtc.js) or the socket
-- (socket/client.js). The texts that `JSON.stringify` writes, the ids and the times are arguments, and so
-- is what `encrypt` gives: `none` where it throws.
pub mod Direct
pub mod Delivery
use trapchat.Prelude.{
  ℕ, Bool, true, false, not, Option, none, some, String, List, [], ◌∷◌, ◌++◌, if◌then◌else◌, str_eq,
}
use trapchat.Prelude.JsMap.{get, put}
use trapchat.Socket.Client.{Client, Stamp, send}
use trapchat.Webrtc.Mesh.{Mesh, connected_peers}
use trapchat.Webrtc.Peer as Peer
use trapchat.Hooks.Typing.{Typing, send_typing_indicator}

-- A message of one's own, as the room shows it.
pub record Own : Type 0 where
  pub id : String
  pub text : String
  pub error : Bool
  pub queued : Bool

pub record Page (C : Type 0) : Type 0 where
  pub client : Client String
  pub mesh : Option (Mesh C)
  pub typing : Typing
  pub input : Option String
  pub appended : List Own

-- What one `sendMessage` draws and what it is given.
pub record Draft : Type 0 where
  pub room : String
  pub has_key : Bool
  pub encrypted : Option String
  pub now : ℕ
  pub typing_text : String
  pub p2p_text : String
  pub msg_id : String
  pub typing_stamp : Stamp
  pub chat_stamp : Stamp

-- '[failed to encrypt message]'
abbrev pub encrypt_failed : String
encrypt_failed = "[failed to encrypt message]"

module _ {C : Type 0} where
  -- To the first of the connected peers, if its channel takes it.
  unfoldable pub send_p2p : Option (Mesh C) → String → Option (Mesh C) × Bool
  send_p2p none msg = (none, false)
  send_p2p (some mesh) msg = elim (connected_peers mesh) [
    | [] ↦ (some mesh, false)
    | id ∷ _ ↦ elim (get id mesh) [
      | none ↦ (some mesh, false)
      | some conn ↦ let r = Peer.send conn msg in (some (put id r.0 mesh), r.1)
    ]
  ]

  -- `sendTypingIndicator(false)`
  pub stop_typing : Page C → Draft → Page C
  stop_typing p d =
      let r = send_typing_indicator p.typing true (not (str_eq d.room "")) false d.now in
      record p {
        typing = r.0;
        client =
            if r.1
            then (send p.client "typing" d.room d.typing_text none d.typing_stamp).0
            else p.client;
      }

  pub append_own : Page C → Own → Page C
  append_own p m = record p { appended = p.appended ++ m ∷ [] }

  -- What is left of `sendMessage` once a peer took the message or did not.
  pub delivered : Page C → Draft → String → String → Option (Mesh C) × Bool → Page C
  delivered p d text encrypted (mesh, direct) =
      let r =
        if direct
        then (p.client, true)
        else send p.client "chat" d.room encrypted (some d.msg_id) d.chat_stamp in
      record p {
        mesh = mesh;
        client = r.0;
        input = some "";
        appended =
            p.appended
            ++ record { id = d.msg_id; text = text; error = false; queued = not r.1 } ∷ [];
      }

  -- From the await of `encrypt` on.
  pub deliver : Page C → Draft → String → String → Page C
  deliver p d text encrypted = delivered p d text encrypted (send_p2p p.mesh d.p2p_text)

  -- `trim` is a parameter; a text that is blank, and a room that is not there, send nothing.
  pub send_message : (String → String) → Page C → Draft → Page C
  send_message trim p d = elim p.input [
    | none ↦ p
    | some text ↦
        if str_eq (trim text) ""
        then p
        else let q = stop_typing p d in
          if not d.has_key then q else elim d.encrypted [
            | none ↦
                append_own q
                  record { id = d.msg_id; text = encrypt_failed; error = true; queued = false }
            | some encrypted ↦ deliver q d text encrypted
          ]
  ]
