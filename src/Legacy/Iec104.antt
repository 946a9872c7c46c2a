-- ===== src/Legacy/Iec104.antt =====
-- PRISM/src/simulator/proto/iec104: the older client and the older echo server.
use prism_dev.Common.{
  ℕ, ◌-◌, ◌^◌, Bool, true, false, List, [], ◌∷◌, ◌++◌, Option, none, some, take, length, get_or,
  bit_and, leb, if◌then◌else◌,
}
use prism_dev.Common.Bits.{shr}
use prism_dev.Socket.{ServerNet, Effect, opened, closed, sent}
use prism_dev.Legacy.Local.{LocalNet}
use prism_dev.Simulator.Iec104.{Read, failed, got, Reply, blank}

unfoldable pub make_client_socket : LocalNet → Bool × List Effect
make_client_socket net =
    if net.made
    then (if net.connected then (true, opened ∷ []) else (false, opened ∷ closed ∷ []))
    else (false, [])

-- Start byte, length, four bytes of control, the type, one element, cause 6 (activation), and then
-- the byte 1 and the object address, low byte first.
unfoldable pub build_frame : ℕ → ℕ → List ℕ
build_frame type_id ioa =
    0x68
    ∷ 0x0a
    ∷ 0x00
    ∷ 0x00
    ∷ 0x00
    ∷ 0x00
    ∷ type_id
    ∷ 0x01
    ∷ 0x06
    ∷ 0x01
    ∷ bit_and ioa 0xff
    ∷ bit_and (shr ioa 8) 0xff
    ∷ []

-- The object address that `run_client` always sends.
abbrev pub test_address : ℕ
test_address = 16

-- `make_listen_socket` returns -1 with the descriptor still open if `bind` or `listen` fails.
unfoldable pub make_listen_socket : ServerNet → Bool × List Effect
make_listen_socket net =
    if net.made
    then (if net.bound
        then (if net.listening then (true, opened ∷ []) else (false, opened ∷ []))
        else (false, opened ∷ []))
    else (false, [])

-- `size_t` of the result of `read`: -1 becomes the largest value.
unfoldable pub write_count : Read → ℕ
write_count failed = 2 ^ 64 - 1
write_count (got bs) = length (take 256 bs)

-- The buffer of 256 bytes, zeros at first, after `read`.
unfoldable pub buffer_after : Read → List ℕ
buffer_after failed = blank 256
buffer_after (got bs) = take 256 (bs ++ blank 256)

-- One round of the accept loop: the type is printed if seven bytes came.
unfoldable pub serve_one : Read → Reply
unfolding write_count buffer_after
serve_one failed = record { shown = none; buffer = buffer_after failed; count = write_count failed }
serve_one (got bs) = record {
  shown = if leb 7 (length (take 256 bs)) then some (get_or (buffer_after (got bs)) 6 0) else none;
  buffer = buffer_after (got bs);
  count = write_count (got bs);
}

-- The accept loop over the connections met so far, `none` where `accept` fails.
unfoldable pub serve : List (Option Read) → List (Option Reply)
serve [] = []
serve (none ∷ cs) = none ∷ serve cs
serve (some r ∷ cs) = some (serve_one r) ∷ serve cs

-- The exit status, none while the loop runs, the calls made for the listening socket, and the answers.
unfoldable pub start_server :
    ServerNet → List (Option Read) → Option ℕ × List Effect × List (Option Reply)
start_server net cs =
    let (ready, effects) = make_listen_socket net in
    if ready then (none, effects, serve cs) else (some 1, effects, [])

-- The exit status, and the calls made.
unfoldable pub run_client : LocalNet → ℕ → ℕ × List Effect
unfolding make_client_socket
run_client net type_id =
    let (connected, effects) = make_client_socket net in
    if connected
    then (0, effects ++ sent (build_frame type_id test_address) ∷ closed ∷ [])
    else (1, effects)
