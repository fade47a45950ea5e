-- ===== src/Webrtc/Peer.antt =====
-- apps/trapchat/src/lib/webrtc.js: class `PeerConnection`. A method that waits is cut at its awaits, and
-- each loop over the pending candidates is in `flushing` with what it has left. The browser's connection
-- is there or not; its media tracks are left out.
pub mod Candidates
pub mod Order
use trapchat.Prelude.{
  ℕ, Bool, true, false, Option, none, some, String, List, [], ◌∷◌, ◌++◌, if◌then◌else◌, get_elem?,
  set,
}

-- `readyState` of a data channel.
pub data Channel : Type 0 where
  opening opened closed : Channel

pub data SignalType : Type 0 where
  offer answer ice : SignalType

pub data Notice : Type 0 where
  on_connected on_disconnected : Notice

-- `added` are the candidates that were given to the browser's connection, `lost` those that a loop
-- came to when there was none; `signals`, `notices` and `sent` are what went out. The latest is last.
pub record Peer (C : Type 0) : Type 0 where
  pub has_pc : Bool
  pub channel : Option Channel
  pub connected : Bool
  pub remote_description_set : Bool
  pub pending_candidates : List C
  pub flushing : List (List C)
  pub added : List C
  pub lost : List C
  pub signals : List SignalType
  pub notices : List Notice
  pub sent : List String

module _ {C : Type 0} where
  abbrev pub new : Peer C
  new = record {
    has_pc = false;
    channel = none;
    connected = false;
    remote_description_set = false;
    pending_candidates = [];
    flushing = [];
    added = [];
    lost = [];
    signals = [];
    notices = [];
    sent = [];
  }

  -- `createOffer`, up to its first await.
  pub create_offer : Peer C → Peer C
  create_offer p = record p { has_pc = true; channel = some opening }

  -- A local description is set: the offer, or the answer, goes out. So does the browser's candidate.
  pub send_signal : Peer C → SignalType → Peer C
  send_signal p s = record p { signals = p.signals ++ s ∷ [] }

  -- `handleOffer`, up to its first await.
  pub handle_offer : Peer C → Peer C
  handle_offer p = if p.has_pc then p else record p { has_pc = true }

  -- `handleAnswer` waits at once; without a connection it does nothing.
  waits_for_answer : Peer C → Bool
  waits_for_answer p = p.has_pc

  -- `setRemoteDescription` is done, in either of the two: the pending candidates go to a new loop.
  pub remote_described : Peer C → Peer C
  remote_described p = record p {
    remote_description_set = true;
    pending_candidates = [];
    flushing = p.flushing ++ p.pending_candidates ∷ [];
  }

  pub add_candidate : Peer C → C → Peer C
  add_candidate p c =
      if p.has_pc
      then record p { added = p.added ++ c ∷ [] }
      else record p { lost = p.lost ++ c ∷ [] }

  -- `none` is the candidate that ends the list of them.
  pub handle_ice_candidate : Peer C → Option C → Peer C
  handle_ice_candidate p none = p
  handle_ice_candidate p (some c) =
      if p.has_pc
      then if p.remote_description_set
        then record p { added = p.added ++ c ∷ [] }
        else record p { pending_candidates = p.pending_candidates ++ c ∷ [] }
      else p

  -- The next round of the loop numbered `i`; a candidate for which there is no connection any more is
  -- lost, with a warning.
  pub flush_next : Peer C → ℕ → Peer C
  flush_next p i = elim (get_elem? p.flushing i) [
    | some (c ∷ cs) ↦ add_candidate (record p { flushing = set p.flushing i cs }) c
    | _ ↦ p
  ]

  pub notify : Peer C → Notice → Peer C
  notify p n = record p { notices = p.notices ++ n ∷ [] }

  -- `ondatachannel`
  pub channel_arrives : Peer C → Peer C
  channel_arrives p = record p { channel = some opening }

  -- `dc.onopen`
  pub channel_opens : Peer C → Peer C
  channel_opens p = notify (record p { channel = some opened; connected = true }) on_connected

  -- `dc.onclose`
  pub channel_closes : Peer C → Peer C
  channel_closes p =
      notify
        (record p {
          channel = elim p.channel [ none ↦ none | some c ↦ some closed ];
          connected = false;
        })
        on_disconnected

  -- `onconnectionstatechange` to 'disconnected' or 'failed'
  pub connection_lost : Peer C → Peer C
  connection_lost p =
      if p.has_pc then notify (record p { connected = false }) on_disconnected else p

  unfoldable pub send : Peer C → String → Peer C × Bool
  send p data_ = elim p.channel [
    | some opened ↦ (record p { sent = p.sent ++ data_ ∷ [] }, true)
    | _ ↦ (p, false)
  ]

  pub close : Peer C → Peer C
  close p = notify (record p { has_pc = false; channel = none; connected = false }) on_disconnected

-- Everything that can happen to a connection.
pub data Event (C : Type 0) : Type 0 where
  creates_offer comes_offer described arrives opens closes_channel loses closes : Event C
  signals_out : SignalType → Event C
  candidate : Option C → Event C
  flushes : ℕ → Event C
  sends : String → Event C

unfoldable pub step : {C : Type 0} → Peer C → Event C → Peer C
step p creates_offer = create_offer p
step p comes_offer = handle_offer p
step p described = remote_described p
step p arrives = channel_arrives p
step p opens = channel_opens p
step p closes_channel = channel_closes p
step p loses = connection_lost p
step p closes = close p
step p (signals_out s) = send_signal p s
step p (candidate c) = handle_ice_candidate p c
step p (flushes i) = flush_next p i
step p (sends data_) = (send p data_).0
