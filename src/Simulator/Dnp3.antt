-- ===== src/Simulator/Dnp3.antt =====
-- PRISM_simulator/proto/dnp3: the client and the echo server.
use prism_dev.Common.{
  ℕ, Bool, true, false, not, List, [], ◌∷◌, ◌++◌, Option, none, some, take, length, get_or, bit_and,
  ltb, ◌==◌, if◌then◌else◌,
}
use prism_dev.Socket.{ClientNet, ServerNet, Effect, opened, closed, sent}
pub mod Laws

-- `make_client_socket`: whether a connected descriptor is returned, and the calls made.
unfoldable pub make_client_socket : ClientNet → Bool × List Effect
make_client_socket net =
    if net.made
    then (if net.resolved
        then (if net.connected then (true, opened ∷ []) else (false, opened ∷ closed ∷ []))
        else (false, opened ∷ closed ∷ []))
    else (false, [])

-- Twelve bytes: the control byte at 2, the function code at 6, the application control at 7.
unfoldable pub build_frame : ℕ → List ℕ
build_frame func = 0 ∷ 0 ∷ 0x40 ∷ 0 ∷ 0 ∷ 0 ∷ func ∷ 0xc0 ∷ 0 ∷ 0 ∷ 0 ∷ 0 ∷ []

-- The exit status, and the calls made. What `write` and `read` return is not used.
unfoldable pub run_client : ClientNet → ℕ → ℕ × List Effect
unfolding make_client_socket
run_client net func =
    let (connected, effects) = make_client_socket net in
    if connected then (0, effects ++ sent (build_frame func) ∷ closed ∷ []) else (1, effects)

-- `make_server_socket`: whether a listening descriptor is returned, and the calls made.
unfoldable pub make_server_socket : ServerNet → Bool × List Effect
make_server_socket net =
    if net.made
    then (if net.bound
        then (if net.listening then (true, opened ∷ []) else (false, opened ∷ closed ∷ []))
        else (false, opened ∷ closed ∷ []))
    else (false, [])

-- What the server prints about a frame: its size if it is too small, or its direction and code.
pub data Line : Type 0 where
  too_small : ℕ → Line
  rx : Bool → ℕ → Line

unfoldable pub decode_and_log : List ℕ → Line
decode_and_log buf =
    if ltb (length buf) 10
    then too_small (length buf)
    else rx (not (bit_and (get_or buf 2 0) 0x40 == 0)) (get_or buf 6 0)

-- One round of the accept loop in which `read` was called: what it returned (no bytes on an end or
-- an error), what is printed, and what is written back.
unfoldable pub serve_one : List ℕ → Option (Line × List ℕ)
unfolding decode_and_log
serve_one [] = none
serve_one (b ∷ bs) = let buf = take 2048 (b ∷ bs) in some (decode_and_log buf, buf)

-- The accept loop over the connections met so far, `none` where `accept` fails: what is printed and
-- written back for each.
unfoldable pub serve : List (Option (List ℕ)) → List (Option (Line × List ℕ))
serve [] = []
serve (none ∷ cs) = none ∷ serve cs
serve (some bs ∷ cs) = serve_one bs ∷ serve cs

-- The exit status, none while the loop runs, the calls made for the listening socket, and the answers.
unfoldable pub start_server :
    ServerNet → List (Option (List ℕ)) → Option ℕ × List Effect × List (Option (Line × List ℕ))
start_server net cs =
    let (ready, effects) = make_server_socket net in
    if ready then (none, effects, serve cs) else (some 1, effects, [])
