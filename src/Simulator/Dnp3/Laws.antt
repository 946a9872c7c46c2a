-- ===== src/Simulator/Dnp3/Laws.antt =====
-- What the DNP3 client sends, and what the server of PRISM_simulator/proto/dnp3 makes of it.
use prism_dev.Common.{ℕ, ◌≡◌, ◌↔◌, refl, arith, true, false, [], ◌∷◌, some}
use prism_dev.Socket.{ClientNet, ServerNet, opens, closes, sends}
use prism_dev.Simulator.Dnp3.{build_frame, run_client, make_server_socket, serve_one, rx}

-- The server reads in the client's frame a request of the master with the function code that the
-- client was given, and it echoes the frame.
pub serve_one-build_frame :
    (func : ℕ) → serve_one (build_frame func) ≡ some (rx true func, build_frame func)
unfolding serve_one build_frame
serve_one-build_frame func = refl

-- A call of the client closes every descriptor that it opens; it returns 0 exactly when the three
-- system calls succeed, and sends then the one frame, and otherwise none.
pub run_client-closes :
    (net : ClientNet) (func : ℕ)
    → let (status, effects) = run_client net func in
      (opens effects ≡ closes effects)
      × ((status ≡ 0) ↔ ((net.made ≡ true) × (net.resolved ≡ true) × (net.connected ≡ true)))
      × (status ≡ 0 → sends effects ≡ build_frame func ∷ [])
      × ((¬ (status ≡ 0)) → sends effects ≡ [])
unfolding run_client
run_client-closes net func = ground arith

-- A server socket that is not ready is not left open.
pub make_server_socket-closes :
    (net : ServerNet)
    → (make_server_socket net).0 ≡ false
    → opens (make_server_socket net).1 ≡ closes (make_server_socket net).1
unfolding make_server_socket
make_server_socket-closes net h = ground arith
