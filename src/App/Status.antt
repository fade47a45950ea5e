-- ===== src/App/Status.antt =====
-- apps/trapchat/src/App.jsx: what the handlers of `setupGlobalHandlers` show of the connection, from what
-- the client of socket/client.js tells its listeners.
pub mod Follows
use trapchat.Prelude.{ℕ, Bool, true, false, List, [], ◌∷◌, if◌then◌else◌}
use trapchat.Socket.Client.{Emission, open_, close, reconnecting_}

pub data ConnectionStatus : Type 0 where
  disconnected reconnecting connected : ConnectionStatus
  attempt : ℕ → ConnectionStatus

-- The flag is `intentionalDisconnectRef.current`; nothing listens to the other emissions.
unfoldable pub status_after : Bool → ConnectionStatus → Emission → ConnectionStatus
status_after intentional s open_ = connected
status_after intentional s close = if intentional then disconnected else reconnecting
status_after intentional s (reconnecting_ n delay) = attempt n
status_after intentional s _ = s

-- After all that the client said since `s` was shown.
unfoldable pub shown_status : Bool → ConnectionStatus → List Emission → ConnectionStatus
shown_status intentional s [] = s
shown_status intentional s (e ∷ es) = shown_status intentional (status_after intentional s e) es

unfoldable pub is_connected : ConnectionStatus → Bool
is_connected connected = true
is_connected _ = false
