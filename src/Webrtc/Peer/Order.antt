-- ===== src/Webrtc/Peer/Order.antt =====
-- When candidates are given to the browser (apps/trapchat/src/lib/webrtc.js, `PeerConnection`).
use trapchat.Prelude.{
  ℕ, suc, zero, ◌≡◌, ◌∙◌, sym, ap, true, false, Option, none, some, String, List, [], ◌∷◌, ◌++◌,
  arith, get_elem?, set, length, if◌then◌else◌, Option-cases, inl, inr, get_elem?-set_self,
  append-nil, append_assoc, get_elem?-append_length,
}
use trapchat.Webrtc.Peer.{
  Peer, opening, opened, closed, Event, creates_offer, comes_offer, described, arrives, opens,
  closes_channel, loses, closes, signals_out, candidate, flushes, sends, step, create_offer,
  send_signal, handle_offer, remote_described, add_candidate, handle_ice_candidate, flush_next,
  notify, channel_arrives, channel_opens, channel_closes, connection_lost, send, close,
}

module _ {C : Type 0} where
  -- Before there is a remote description nothing was given to the browser, lost or begun.
  abbrev pub Waits : Peer C → Type 0
  Waits p = p.remote_description_set ≡ false → (p.flushing ≡ []) × (p.added ≡ []) × (p.lost ≡ [])

  described-add_candidate :
      (p : Peer C) (c : C) → (add_candidate p c).remote_description_set ≡ p.remote_description_set
  unfolding add_candidate
  described-add_candidate p c = ground arith

  flush_next-Waits : (p : Peer C) (i : ℕ) → Waits p → Waits (flush_next p i)
  unfolding flush_next
  flush_next-Waits p i h = elim (Option-cases (get_elem? p.flushing i)) [
    | inl e ↦ rw (e, flush_next) h
    | inr ([], e) ↦ rw (e, flush_next) h
    | inr (c ∷ cs, e) ↦
        rw (e, flush_next)
          (λ f.
            let (idle, a, l) =
              h (
                sym (described-add_candidate (record p { flushing = set p.flushing i cs }) c)
                ∙ f) in
            let no : some (c ∷ cs) ≡ none = sym e ∙ ap (λ x. get_elem? x i) idle in
            absurd (ground (arith, no)))
  ]

  send-Waits : (p : Peer C) (d : String) → Waits p → Waits (send p d).0
  unfolding send
  send-Waits p d h = elim (Option-cases p.channel) [
    | inl e ↦ rw (e, send) h
    | inr (opening, e) ↦ rw (e, send) h
    | inr (opened, e) ↦ rw (e, send) h
    | inr (closed, e) ↦ rw (e, send) h
  ]

  -- Whatever happens, it stays so that no candidate is given to the browser before the remote
  -- description is set: those that come before it wait.
  pub peer_step-Waits : (p : Peer C) (e : Event C) → Waits p → Waits (step p e)
  unfolding step create_offer send_signal handle_offer remote_described handle_ice_candidate notify
      channel_arrives channel_opens channel_closes connection_lost close
  peer_step-Waits p creates_offer h = h
  peer_step-Waits p comes_offer h = ground (arith, h)
  peer_step-Waits p described h = λ e. ground (arith, e)
  peer_step-Waits p arrives h = h
  peer_step-Waits p opens h = h
  peer_step-Waits p closes_channel h = h
  peer_step-Waits p loses h = ground (arith, h)
  peer_step-Waits p closes h = h
  peer_step-Waits p (signals_out s) h = h
  peer_step-Waits p (candidate none) h = h
  peer_step-Waits p (candidate (some c)) h = ground (arith, h)
  peer_step-Waits p (flushes i) h = flush_next-Waits p i h
  peer_step-Waits p (sends d) h = send-Waits p d h

  -- `n` rounds of the loop numbered `i`, with nothing in between.
  pub flush_each : Peer C → ℕ → ℕ → Peer C
  flush_each p i zero = p
  flush_each p i (suc n) = flush_each (flush_next p i) i n

  flush_each_lem :
      (cs : List C) (p : Peer C) (i : ℕ)
      → p.has_pc ≡ true
      → get_elem? p.flushing i ≡ some cs
      → ((flush_each p i (length cs)).added ≡ p.added ++ cs)
        × (get_elem? (flush_each p i (length cs)).flushing i ≡ some [])
  unfolding flush_each flush_next add_candidate
  flush_each_lem [] p i o e = (sym (append-nil p.added), e)
  flush_each_lem (c ∷ cs) p i o e =
      let q : Peer C = record p { flushing = set p.flushing i cs; added = p.added ++ c ∷ [] } in
      let next : flush_next p i ≡ q =
        ap
          (λ (x : Option (List C)). elim x [
            | some (d ∷ ds) ↦ add_candidate (record p { flushing = set p.flushing i ds }) d
            | _ ↦ p
          ])
          e
        ∙ ap
            (λ b.
              if b
              then record p { flushing = set p.flushing i cs; added = p.added ++ c ∷ [] }
              else record p { flushing = set p.flushing i cs; lost = p.lost ++ c ∷ [] })
            o in
      let (a, f) = flush_each_lem cs q i o (get_elem?-set_self p.flushing i cs e) in
      rw (next, flush_each) (a ∙ append_assoc p.added (c ∷ []) cs, f)

  -- When the remote description of a connection is set, all the candidates that waited are given to
  -- the browser, in the order in which they came, if nothing comes in between.
  pub remote_described_flushes :
      (p : Peer C)
      → p.has_pc ≡ true
      → let p' =
          flush_each (remote_described p) (length p.flushing) (length p.pending_candidates) in
        (p'.added ≡ p.added ++ p.pending_candidates)
        × (get_elem? p'.flushing (length p.flushing) ≡ some [])
  unfolding remote_described
  remote_described_flushes p o =
      flush_each_lem p.pending_candidates (remote_described p) (length p.flushing) o
        (get_elem?-append_length p.flushing [] p.pending_candidates)

  -- A closed connection that is offered a new one still counts the old remote description as its own:
  -- a candidate is given to the browser at once, before the new description is set.
  pub reopened_adds_early :
      (p : Peer C) (c : C)
      → p.remote_description_set ≡ true
      → (handle_ice_candidate (handle_offer (close p)) (some c)).added ≡ p.added ++ c ∷ []
  unfolding close notify handle_offer handle_ice_candidate
  reopened_adds_early p c r = ground (arith, r)
