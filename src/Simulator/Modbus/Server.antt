-- ===== src/Simulator/Modbus/Server.antt =====
-- PRISM_simulator/proto/modbus/server.cpp: the PLC, with the safety coil that locks writes. What
-- `printf` shows is left out.
use prism_dev.Common.{
  ℕ, Bool, true, false, ◌&&◌, ◌||◌, List, [], ◌∷◌, Option, none, some, take, ◌==◌, if◌then◌else◌,
}
use prism_dev.Socket.{Effect, opened, closed}
use prism_dev.Simulator.Modbus.{Pdu, encode_mbap_pdu, encode_exception, decode_mbap_pdu}

unfoldable pub is_write_fc : ℕ → Bool
is_write_fc fc = fc == 5 || fc == 6 || fc == 15 || fc == 16

-- The coil that engages or releases the lock: address 0xFFFF under function 5.
unfoldable pub is_safety_coil : Pdu → Bool
is_safety_coil p = p.address == 0xffff && p.function == 5

-- `write_locked` after a command to the safety coil.
unfoldable pub coil_lock : Bool → ℕ → Bool
coil_lock locked value = if value == 0xff00 then true else if value == 0x0000 then false else locked

-- One request that was read: the lock afterwards, and the response that is written.
unfoldable pub handle : Bool → List ℕ → Bool × List ℕ
unfolding is_write_fc is_safety_coil coil_lock
handle locked v =
    if is_safety_coil p
    then (coil_lock locked p.value, encode_mbap_pdu p)
    else if locked && is_write_fc p.function
    then (locked, encode_exception p.function 0x01)
    else (locked, encode_mbap_pdu p)
  where
    p : Pdu
    p = decode_mbap_pdu v

-- What one round of the accept loop meets: `accept` fails, `read` returns nothing or an error, or
-- `read` returns bytes, of which the buffer takes 256 at most.
pub data Connection : Type 0 where
  accept_failed : Connection
  read_failed : Connection
  received : ℕ → List ℕ → Connection

-- A connection with no bytes is `read_failed`: `received b bs` has at least the byte `b`.
unfoldable pub serve_one : Bool → Connection → Bool × Option (List ℕ)
unfolding handle
serve_one locked accept_failed = (locked, none)
serve_one locked read_failed = (locked, none)
serve_one locked (received b bs) =
    let (locked', response) = handle locked (take 256 (b ∷ bs)) in (locked', some response)

-- The accept loop over the connections met so far: the lock, and what each was answered.
unfoldable pub serve : Bool → List Connection → Bool × List (Option (List ℕ))
serve locked [] = (locked, [])
serve locked (c ∷ cs) =
    let (locked', response) = serve_one locked c in
    let (last, responses) = serve locked' cs in (last, response ∷ responses)

-- `start_server`: exit status 1 where the socket cannot be made or bound. Otherwise the loop runs,
-- with no exit status, from an open lock; the result of `listen` is not looked at. With the status
-- come the calls made for the listening socket.
unfoldable pub start_server :
    Bool → Bool → List Connection → Option ℕ × List Effect × Bool × List (Option (List ℕ))
unfolding serve
start_server made bound cs =
    if made
    then (if bound
        then (none, opened ∷ [], running.0, running.1)
        else (some 1, opened ∷ closed ∷ [], false, []))
    else (some 1, [], false, [])
  where
    running : Bool × List (Option (List ℕ))
    running = serve false cs
