-- ===== src/Legacy/Local.antt =====
-- What the clients of PRISM/src/simulator ask of sockets: they look no name up.
use prism_dev.Common.{Bool, true, false, List, [], ◌∷◌, if◌then◌else◌}
use prism_dev.Socket.{Effect, opened, closed}

-- Whether `socket`, `connect` and `send` succeed.
pub record LocalNet : Type 0 where
  pub made : Bool
  pub connected : Bool
  pub delivered : Bool

-- `make_client_socket` of the DNP3 client.
unfoldable pub make_client_socket : LocalNet → Bool × List Effect
make_client_socket net =
    if net.made
    then (if net.connected then (true, opened ∷ []) else (false, opened ∷ closed ∷ []))
    else (false, [])
