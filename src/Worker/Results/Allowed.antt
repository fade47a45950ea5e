-- ===== src/Worker/Results/Allowed.antt =====
-- When the callback of services/worker/src/index.js is sent.
use trapchat.Prelude.{
  ◌≡◌, ◌≢◌, refl, sym, subst, ◌↔◌, ◌⊎◌, inl, inr, true, false, Option, none, some, String, List,
  arith, eq_iff, Option-cases,
}
use trapchat.Worker.Results.{
  Url, Address, posted, includes, is_private, port_of, callback_ports, web_protocols,
  decide_callback, callback, default_hosts,
}

module _ (hosts : List String) (new_url : String → Option Url)
    (lookup : String → Option Address) where
  -- The URL is one that the allowlists let through, and its host resolves to an address that is
  -- not private, or any address if the machine itself is on the allowlist.
  abbrev pub IsAllowed : String → Type 0
  IsAllowed url =
      (u : Url) × (a : Address) × (new_url url ≡ some u)
      × (lookup u.hostname ≡ some a)
      × (includes web_protocols u.protocol ≡ true)
      × (includes hosts u.hostname ≡ true)
      × (includes callback_ports (port_of u) ≡ true)
      × ((is_private a ≡ false)
          ⊎ (includes hosts "localhost" ≡ true)
          ⊎ (includes hosts "127.0.0.1" ≡ true))

  posted-IsAllowed :
      (url : String) → decide_callback hosts new_url lookup url ≡ posted → IsAllowed url
  unfolding decide_callback
  posted-IsAllowed url h = elim (Option-cases (new_url url)) [
    | inl e ↦ ground arith
    | inr (u, e) ↦ elim (Option-cases (lookup u.hostname)) [
      | inl f ↦ ground arith
      | inr (a, f) ↦ (u, a, e, f, ground arith, ground arith, ground arith, ground arith)
    ]
  ]

  IsAllowed-posted :
      (url : String) → IsAllowed url → decide_callback hosts new_url lookup url ≡ posted
  unfolding decide_callback
  IsAllowed-posted url (u, a, e, f, p, q, r, s) = ground arith

  -- The result is posted exactly if the job names a URL, not the empty text, that is allowed.
  pub callback_posted_iff :
      (url : Option String)
      → (callback hosts new_url lookup url ≡ posted)
        ↔ ((s : String) × (url ≡ some s) × (s ≢ "") × IsAllowed s)
  unfolding callback
  callback_posted_iff none = (λ h. cc, λ (s, e, _, _). cc)
  callback_posted_iff (some s) = (
    λ h. (s, refl, ground (arith, eq_iff s ""), posted-IsAllowed s (ground arith)),
    λ (t, e, ne, allowed).
        let same : s ≡ t = ground arith in
        ground (arith, eq_iff s "", IsAllowed-posted s (subst IsAllowed (sym same) allowed)),
  )

default_has_localhost : includes default_hosts "localhost" ≡ true
unfolding includes
default_has_localhost = refl

-- The default allowlist has the machine itself on it, and so no address is refused for being
-- private: what decides is the protocol, the host name and the port alone.
pub default_hosts_reach_private :
    (new_url : String → Option Url) (lookup : String → Option Address) (url : String) (u : Url)
    → (a : Address) → new_url url ≡ some u
    → lookup u.hostname ≡ some a
    → (decide_callback default_hosts new_url lookup url ≡ posted) ↔ (
        (includes web_protocols u.protocol ≡ true)
        × (includes default_hosts u.hostname ≡ true)
        × (includes callback_ports (port_of u) ≡ true))
unfolding decide_callback
default_hosts_reach_private new_url lookup url u a e f = (
  λ h. (ground (arith), ground (arith), ground (arith)),
  λ h. ground (arith, default_has_localhost),
)
