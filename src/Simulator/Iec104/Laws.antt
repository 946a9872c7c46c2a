-- ===== src/Simulator/Iec104/Laws.antt =====
-- What the IEC 104 client sends, and how the server of PRISM_simulator/proto/iec104 meets errors.
use prism_dev.Common.{
  ℕ, ◌≡◌, ◌≢◌, ◌↔◌, ◌+◌, ◌≤◌, refl, arith, true, false, List, some, length, take, length-take,
}
use prism_dev.Socket.{ServerNet, opens, closes}
use prism_dev.Simulator.Iec104.{build_frame, make_listen_socket, Read, failed, got, serve_one}

-- The server reads in the client's frame the type that the client was given, and what it hands to
-- `write` is that frame.
pub serve_one-build_frame :
    (type_id ioa : ℕ)
    → let reply = serve_one (got (build_frame type_id ioa)) in
      (reply.shown ≡ some type_id) × (take reply.count reply.buffer ≡ build_frame type_id ioa)
unfolding serve_one build_frame
serve_one-build_frame type_id ioa = (refl, refl)

length-take-le {ℓ} : {A : Type ℓ} (n : ℕ) (xs : List A) → length (take n xs) ≤ n
length-take-le n xs = omega (arith, length-take n xs)

-- The count that the echo hands to `write` is within the buffer of 256 bytes exactly when `read`
-- did not fail.
serve_one_bounds : (r : Read) → ((serve_one r).count ≤ 256) ↔ (r ≢ failed)
unfolding serve_one
serve_one_bounds failed = ((λ h. absurd (omega arith)), λ h. absurd (h refl))
serve_one_bounds (got bs) = ((λ h e. cc), λ h. length-take-le 256 bs)

-- A listening socket that could be made but not bound, or not listened on, is left open.
pub make_listen_socket_leaks :
    (net : ServerNet)
    → net.made ≡ true
    → (make_listen_socket net).0 ≡ false
    → opens (make_listen_socket net).1 ≡ closes (make_listen_socket net).1 + 1
unfolding make_listen_socket
make_listen_socket_leaks net m h = ground arith
