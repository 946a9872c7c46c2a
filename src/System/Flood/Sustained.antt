-- ===== src/System/Flood/Sustained.antt =====
-- An attack that lasts, at any time of a run of PRISM/src/main.cpp.
use mathlib.Core.Path.{subst}
use prism_dev.Common.{
  ℕ, ◌+◌, ◌^◌, ◌≤◌, ◌<◌, ◌≡◌, ◌≢◌, sym, arith, Bool, true, false, List, ◌∷◌, some, length, All,
}
use prism_dev.Double.{Double, IsExact, IsOrdered, IsMonotone, IsWeighted}
use prism_dev.Packet.{ParsedRecord}
use prism_dev.Features.{Iteration}
use prism_dev.Features.Laws.{IsIteration}
use prism_dev.Enforcement.{Net}
use prism_dev.Windowing.{ms}
use prism_dev.Pipeline
use prism_dev.Pipeline.{Poll, fallback}
use prism_dev.Pipeline.Stages.{kept, assessed}
use prism_dev.Pipeline.Stages.Sustained.{Besieges, last_of, Sees, sustained-Sees}
use prism_dev.Pipeline.Stages.Writes.{writes_alarm}
use prism_dev.Simulator.Modbus.Server.{Connection, serve}
use prism_dev.Simulator.Modbus.Lock.{AreBytes, frame, command, IsRefused, Answers}
use prism_dev.System.Engaged.{deliver, all_taken}
use prism_dev.System.Attack.{attack-deliver}

module _ {ℓ} (W : Type ℓ) ⦃d : Double W⦄ (exact : IsExact W) (order : IsOrdered W)
    (mono : IsMonotone W) (weighted : IsWeighted W) (it : Iteration) (once : IsIteration it) where
  -- Where counts are exact and `double` is ordered, monotone and weighted as IsExact, IsOrdered,
  -- IsMonotone and IsWeighted state, of a new monitor: let the records that it keeps, up to a stop,
  -- be fewer than 2^31 in the order of their times, each at most one second after the one before;
  -- later than some time, not before the first record's, let all of them be writes and the network
  -- carry a request at each; and let the last come more than six seconds after that time. Then at
  -- the end the flag of the enforcer is set, and a PLC that served what the monitor's sockets took is locked, whatever its lock was before; and over any later connections that bring bytes,
  -- none of them the release command, it stays locked and refuses every write to something other
  -- than the safety coil.
  pub sustained_lock :
      (es : List Poll) (plc : Bool) (since : ℕ) (r : ParsedRecord) (n : Net)
      (rs : List (ParsedRecord × Net)) (cs : List Connection)
      → kept es ≡ (r, n) ∷ rs
      → r.timestamp ≤ since
      → Besieges since (ms 1000) r.timestamp rs
      → since + ms 6000 < last_of r.timestamp rs
      → length ((r, n) ∷ rs) < 2 ^ 31
      → All AreBytes cs
      → All (λ c. command (frame c) ≢ some false) cs
      → let (last, steps) = fallback {W = W} it Pipeline.start es in
        let (lock, answers) = serve (deliver plc (all_taken steps)) cs in
        (last.locked ≡ true)
        × (deliver plc (all_taken steps) ≡ true)
        × (lock ≡ true)
        × Answers IsRefused cs answers
  unfolding Pipeline.start
  sustained_lock es plc since r n rs cs e first siege long small bytes held =
      let (a, seen, pos, size, writes, reach) =
        subst
          (λ (ks : List (ParsedRecord × Net)).
            Sees (length ((r, n) ∷ rs)) (assessed Pipeline.start.manager ks))
          (sym e)
          (sustained-Sees 5000 1000 since r n rs (omega arith) (omega arith) first siege
            (omega arith)) in
      let (loud, on, level, restricts) =
        writes_alarm W exact order mono weighted it once a false pos (omega arith)
          (omega (arith, writes)) in
      attack-deliver W order it es plc a cs seen loud reach bytes held
