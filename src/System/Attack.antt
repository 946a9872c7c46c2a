-- ===== src/System/Attack.antt =====
-- From a window with a high score, in PRISM/src/main.cpp, to the lock of the PLC of
-- PRISM_simulator/proto/modbus/server.cpp.
use mathlib.Core.List.{Memᴰ}
use prism_dev.Common.{false, ◌≡◌, ◌≢◌, ◌∙◌, Bool, true, List, some, All}
use prism_dev.Double.{Double, IsOrdered}
use prism_dev.Features.{Iteration}
use prism_dev.Enforcement.Debounce.{Reaches}
use prism_dev.Pipeline
use prism_dev.Pipeline.{Poll, fallback}
use prism_dev.Pipeline.Stages.{kept, assessed, Assessment}
use prism_dev.Pipeline.Stages.Agree.{fallback-Agrees}
use prism_dev.Pipeline.Stages.Alarm.{IsLoud, loud_run}
use prism_dev.Simulator.Modbus.Server.{Connection, serve}
use prism_dev.Simulator.Modbus.Lock.{AreBytes, frame, command, IsRefused, Answers, serve_locked}
use prism_dev.System.Engaged.{deliver, all_taken, fallback-deliver}

module _ {ℓ} (W : Type ℓ) ⦃d : Double W⦄ (laws : IsOrdered W) (it : Iteration) where
  -- Where `double` is ordered as IsOrdered states, of a new monitor: if some window that it
  -- assesses, up to a stop, has a probability of 0.7 or more, and the network carries a request at
  -- that time, then at the end the flag of the enforcer is set, and a PLC that served what the
  -- monitor's sockets took is locked, whatever its lock was before; and over any later
  -- connections that bring bytes, none of them the release command, it stays locked and refuses
  -- every write to something other than the safety coil.
  pub attack-deliver :
      (es : List Poll) (plc : Bool) (a : Assessment) (cs : List Connection)
      → Memᴰ a (assessed Pipeline.start.manager (kept es))
      → IsLoud W it a
      → Reaches a.net
      → All AreBytes cs
      → All (λ c. command (frame c) ≢ some false) cs
      → let (last, steps) = fallback {W = W} it Pipeline.start es in
        let (lock, answers) = serve (deliver plc (all_taken steps)) cs in
        (last.locked ≡ true)
        × (deliver plc (all_taken steps) ≡ true)
        × (lock ≡ true)
        × Answers IsRefused cs answers
  unfolding Pipeline.start
  attack-deliver es plc a cs seen loud reach bytes held =
      let (manager, flag, lock, ds, rest) = fallback-Agrees W it es Pipeline.start in
      let set : (fallback {W = W} it Pipeline.start es).0.locked ≡ true =
        lock
        ∙ loud_run W it laws (assessed Pipeline.start.manager (kept es)) false false a seen loud
            reach in
      let engaged = fallback-deliver W it es Pipeline.start plc (λ off. cc) set in
      let later = serve_locked cs bytes held in
      (set, engaged, rw engaged later.0, rw engaged later.1)
