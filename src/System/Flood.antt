-- ===== src/System/Flood.antt =====
-- From the packets of an attack, in PRISM/src/main.cpp, to the lock of the PLC of
-- PRISM_simulator/proto/modbus/server.cpp.
pub mod Frames
pub mod Sustained
use mathlib.Core.Path.{subst}
use prism_dev.Common.{
  ◌+◌, ◌*◌, ◌^◌, ◌≤◌, ◌<◌, ◌≡◌, ◌≢◌, false, arith, Bool, true, List, ◌∷◌, ◌++◌, some, sym, length,
  count_if, All,
}
use prism_dev.Double.{Double, IsExact, IsOrdered, IsMonotone, IsWeighted}
use prism_dev.Packet.{ParsedRecord}
use prism_dev.Features.{Iteration}
use prism_dev.Features.Laws.{IsIteration}
use prism_dev.Enforcement.{Net}
use prism_dev.Enforcement.Debounce.{Reaches}
use prism_dev.Windowing.{ms}
use prism_dev.Windowing.First.{Before}
use prism_dev.Pipeline
use prism_dev.Pipeline.{Poll, fallback}
use prism_dev.Pipeline.Stages.{kept, assessed}
use prism_dev.Pipeline.Stages.First.{records_of, Assesses, first-Assesses}
use prism_dev.Pipeline.Stages.Writes.{writes_alarm}
use prism_dev.Simulator.Modbus.Server.{Connection, serve}
use prism_dev.Simulator.Modbus.Lock.{AreBytes, frame, command, IsRefused, Answers}
use prism_dev.System.Engaged.{deliver, all_taken}
use prism_dev.System.Attack.{attack-deliver}

-- Three tenths of the records or more are writes.
abbrev pub IsFlood : List ParsedRecord → Type 0
IsFlood rs = 3 * length rs ≤ 10 * count_if (λ r. r.is_write) rs

module _ {ℓ} (W : Type ℓ) ⦃d : Double W⦄ (exact : IsExact W) (order : IsOrdered W)
    (mono : IsMonotone W) (weighted : IsWeighted W) (it : Iteration) (once : IsIteration it) where
  -- Where counts are exact and `double` is ordered, monotone and weighted as IsExact, IsOrdered,
  -- IsMonotone and IsWeighted state, of a new monitor: let the records that it keeps, up to a stop,
  -- begin with fewer than 2^31 records in the order of their times, all within the first five
  -- seconds, of which three tenths or more are writes; and let the next record come later than
  -- that, at a time when the network carries a request. Then at the end the flag of the enforcer is
  -- set, and a PLC that served what the monitor's sockets took is locked, whatever its lock was
  -- before; and over any later connections that bring bytes, none of them the release command, it
  -- stays locked and refuses every write to something other than the safety coil.
  pub flood_locks :
      (es : List Poll) (plc : Bool) (r : ParsedRecord) (n : Net) (rs : List (ParsedRecord × Net))
      (late : ParsedRecord) (net : Net) (rest : List (ParsedRecord × Net)) (cs : List Connection)
      → kept es ≡ (r, n) ∷ rs ++ (late, net) ∷ rest
      → Before (r.timestamp + ms 5000) r.timestamp (records_of rs)
      → r.timestamp + ms 5000 < late.timestamp
      → length (r ∷ records_of rs) < 2 ^ 31
      → IsFlood (r ∷ records_of rs)
      → Reaches net
      → All AreBytes cs
      → All (λ c. command (frame c) ≢ some false) cs
      → let (last, steps) = fallback {W = W} it Pipeline.start es in
        let (lock, answers) = serve (deliver plc (all_taken steps)) cs in
        (last.locked ≡ true)
        × (deliver plc (all_taken steps) ≡ true)
        × (lock ≡ true)
        × Answers IsRefused cs answers
  unfolding Pipeline.start
  flood_locks es plc r n rs late net rest cs e early lt small flood reach bytes held =
      let (a, seen, records, same) =
        subst
          (λ (ks : List (ParsedRecord × Net)).
            Assesses (r ∷ records_of rs) net (assessed Pipeline.start.manager ks))
          (sym e) (first-Assesses 5000 1000 r n rs late net rest (omega arith) early lt) in
      let (loud, on, level, restricts) =
        writes_alarm W exact order mono weighted it once a false (rw records (omega arith))
          (rw records small) (rw records flood) in
      attack-deliver W order it es plc a cs seen loud (subst Reaches (sym same) reach) bytes held
