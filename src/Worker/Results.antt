-- ===== src/Worker/Results.antt =====
-- services/worker/src/index.js, `trackResult`: the map of results, and the callback, which is sent
-- only to allowed hosts. `new URL` and `dns.lookup` are parameters.
pub mod Allowed
use trapchat.Prelude.{
  ℕ, ◌≤◌, ◌≡◌, Bool, true, false, ◌&&◌, ◌||◌, not, Option, none, some, String, List, [], ◌∷◌, leb,
  ◌==◌, if◌then◌else◌, str_eq, length,
}
use trapchat.Prelude.JsMap.{get, put}
use trapchat.Worker.Bounded.{evict_oldest, length-evict_oldest}

abbrev pub max_results : ℕ
max_results = 1000

pub record Completed (R : Type 0) : Type 0 where
  pub id : String
  pub result : R
  pub completed_at : ℕ

abbrev pub Results : Type 0 → Type 0
Results R = List (String × Completed R)

module _ {R : Type 0} where
  pub track_result : Results R → String → R → ℕ → Results R
  track_result results id r now =
      evict_oldest max_results (put id (record { id = id; result = r; completed_at = now }) results)

  -- There are never more than a thousand results.
  pub track_result_size :
      (results : Results R) (id : String) (r : R) (now : ℕ)
      → length results ≤ max_results
      → length (track_result results id r now) ≤ max_results
  unfolding track_result
  track_result_size results id r now h = length-evict_oldest max_results id _ results h

pub record Url : Type 0 where
  pub protocol : String
  pub hostname : String
  pub port : String

-- What `dns.lookup` gives: the four numbers of an IPv4 address, or the text of an IPv6 address, whose
-- first part is no number.
pub data Address : Type 0 where
  ipv4 : ℕ → ℕ → ℕ → ℕ → Address
  ipv6 : String → Address

-- `list.includes(s)`
unfoldable pub includes : List String → String → Bool
includes [] s = false
includes (x ∷ xs) s = if str_eq x s then true else includes xs s

unfoldable pub is_private : Address → Bool
is_private (ipv6 s) = str_eq s "::1"
is_private (ipv4 a b c d) =
    a == 127 || a == 10 || (a == 172 && leb 16 b && leb b 31) || (a == 192 && b == 168) || a == 0

-- url.port || (url.protocol === 'https:' ? '443' : '80')
unfoldable pub port_of : Url → String
port_of u =
    if str_eq u.port "" then (if str_eq u.protocol "https:" then "443" else "80") else u.port

abbrev pub callback_ports : List String
callback_ports = "80" ∷ "443" ∷ "8080" ∷ "9100" ∷ []

-- ALLOWED_CALLBACK_HOSTS where the environment sets none.
abbrev pub default_hosts : List String
default_hosts = "localhost" ∷ "127.0.0.1" ∷ []

abbrev pub web_protocols : List String
web_protocols = "http:" ∷ "https:" ∷ []

pub data Callback : Type 0 where
  not_asked rejected posted : Callback

-- The `try` block up to the `fetch`.
unfoldable pub decide_callback :
    List String → (String → Option Url) → (String → Option Address) → String → Callback
decide_callback hosts new_url lookup url = elim (new_url url) [
  | none ↦ rejected
  | some u ↦
      if not (includes web_protocols u.protocol)
      then rejected
      else if not (includes hosts u.hostname) || not (includes callback_ports (port_of u))
      then rejected
      else elim (lookup u.hostname) [
        | none ↦ rejected
        | some a ↦
            if is_private a && not (includes hosts "localhost") && not (includes hosts "127.0.0.1")
            then rejected
            else posted
      ]
]

-- `job.data?.callbackURL`
unfoldable pub callback :
    List String → (String → Option Url) → (String → Option Address) → Option String → Callback
callback hosts new_url lookup none = not_asked
callback hosts new_url lookup (some url) =
    if str_eq url "" then not_asked else decide_callback hosts new_url lookup url
