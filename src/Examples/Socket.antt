-- ===== src/Examples/Socket.antt =====
-- The theorems on apps/trapchat/src/socket/client.js at concrete clients.
use trapchat.Prelude.{
  ℕ, ◌-◌, ◌≡◌, refl, inl, true, false, none, some, String, [], ◌∷◌, ◌++◌, map, arith, take,
  if◌then◌else◌,
}
use trapchat.Socket.Client.{
  Client, Message, Stamp, sends, closed, max_pending, opened, is_open, connect, on_open, on_close,
  reconnect_due, delay_with, step, new,
}
use trapchat.Socket.Client.Bounds.{IsValid, client_step-IsValid}
use trapchat.Socket.Client.Delivery.{Call, built, held_back, joins}
use trapchat.Socket.Client.Reconnect.{fail, fail_each}
use trapchat.Socket.Client.GivenUp.{given_up_unjoined}
use trapchat.Socket.Client.StaleTimer.{stale_timer_unjoins}
use trapchat.Socket.Client.Offline.{call_each, offline_then_open}
use trapchat.Socket.Listeners.{emit}
use trapchat.Socket.Listeners.Calls.{calls_of, subscribed, registry, listens, calls_of-emit}

abbrev stamp : Stamp
stamp = record { id = "id"; msg_id = "msg"; now = 100 }

abbrev stamps : ℕ → Stamp
stamps n = stamp

-- In one room, and cut off from the gateway.
abbrev cut_off : Client String
cut_off = record new {
  ws = some closed;
  joined_rooms = ("lobby", "") ∷ [];
  reconnecting = true;
  reconnect_attempts = 18;
}

abbrev hello : Call String
hello = record { type_ = "chat"; room = "lobby"; payload = "hi"; msg_id = none; stamp = stamp }

cut_off-IsValid : IsValid cut_off
cut_off-IsValid = record {
  rooms = omega arith;
  pending = omega arith;
  attempts = omega arith;
  delay = tt;
}

client_step-IsValid_example : IsValid (step cut_off (sends "chat" "lobby" "hi" none stamp))
client_step-IsValid_example =
    client_step-IsValid cut_off (sends "chat" "lobby" "hi" none stamp) cut_off-IsValid

offline_then_open_example :
    (on_open (call_each cut_off (hello ∷ [])) stamps).sent
    ≡ (cut_off.sent ++ (if true then joins (("lobby", "") ∷ []) stamps 0 else []))
      ++ (held_back cut_off ++ take (max_pending - 0) (map built (hello ∷ [])))
unfolding is_open
offline_then_open_example = offline_then_open cut_off (hello ∷ []) stamps refl (inl refl, tt)

-- With a message that waits, two tries before the last one that is counted.
abbrev waiting : Client String
waiting = record cut_off { pending_queue = ("lobby", built hello) ∷ [] }

given_up_unjoined_example :
    let d = on_open (connect (fail (fail_each waiting (100 ∷ 200 ∷ [])) 300)) stamps in
    (d.joined_rooms ≡ ("lobby", "") ∷ []) × (d.sent ≡ built hello ∷ [])
given_up_unjoined_example =
    given_up_unjoined waiting (100 ∷ 200 ∷ []) 300 stamps (λ e. ground (arith, e)) refl

-- In a room, over a connection that is about to close.
abbrev online : Client String
online = record cut_off {
  ws = some opened;
  settled = true;
  reconnecting = false;
  reconnect_attempts = 0;
}

stale_timer_unjoins_example :
    let o = on_open (connect (on_close online 100)) stamps in
    let p = on_open (reconnect_due o) stamps in
    (is_open o.ws ≡ true)
    × (o.timer ≡ some (delay_with 0 100))
    × (is_open (reconnect_due o).ws ≡ false)
    × (p.joined_rooms ≡ o.joined_rooms)
    × (p.sent ≡ o.sent)
stale_timer_unjoins_example =
    stale_timer_unjoins online 100 stamps stamps refl (λ e. ground (arith, e)) (omega arith)

abbrev fresh : Client String
fresh = new

abbrev signal : Message String
signal = record {
  id = "1";
  msg_id = "";
  type_ = "signal";
  room = "lobby";
  payload = "";
  timestamp = 5;
}

-- Subscribed twice, and not unsubscribed.
calls_of-emit_example :
    calls_of {D = String} 1
      (emit (registry (subscribed "open" 1 ∷ subscribed "open" 1 ∷ [])) "open" "data")
    ≡ 1
unfolding listens
calls_of-emit_example =
    calls_of-emit (subscribed "open" 1 ∷ subscribed "open" 1 ∷ []) "open" "data" 1
