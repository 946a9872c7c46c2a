-- ===== src/Pipeline/Program.antt =====
-- PRISM/src/main.cpp from its arguments to its exit status.
use prism_dev.Common.{
  ℕ, String, Bool, true, false, List, [], ◌∷◌, ◌++◌, Option, none, some, length, ltb, if◌then◌else◌,
}
use prism_dev.Double.{Double}
use prism_dev.Features.{Iteration}
use prism_dev.Capture.{LinkType}
use prism_dev.Pipeline
use prism_dev.Pipeline.{Monitor, Step, Poll, stopped, no_packet, arrived, drain, fallback}
pub mod Stops

-- What a call of `poll` gives: an interruption, another error, a timeout, an event that is not
-- POLLIN, or POLLIN.
pub data Wake : Type 0 where
  interrupted failed timed_out other_event readable : Wake

-- How a loop ends, over the events met so far: not yet, since `running` is false, or by `break`.
pub data Ending : Type 0 where
  going_on saw_stop broke_off : Ending

-- The state, how the packets ended, and how the loop did.
pub record Session {ℓ} (W : Type ℓ) : Type ℓ where
  pub monitor : Monitor
  pub steps : List (Step W)
  pub ending : Ending

-- How the program ends: not yet, by an exception that nothing catches, or with an exit status.
pub data Exit : Type 0 where
  running_on uncaught : Exit
  status : ℕ → Exit

-- Whether `running` is cleared somewhere among the events.
abbrev pub has_stop : List Poll → Bool
has_stop [] = false
has_stop (stopped ∷ es) = true
has_stop (_ ∷ es) = has_stop es

abbrev pub exit_of : Ending → Exit
exit_of going_on = running_on
exit_of _ = status 0

module _ {ℓ} {W : Type ℓ} ⦃d : Double W⦄ (it : Iteration) where
  abbrev pub ended_at : Monitor → Ending → Session W
  ended_at m ending = record { monitor = m; steps = []; ending = ending }

  -- The loop of the branch with a descriptor. The calls of `poll` and the rounds of the inner loops
  -- are met each in their order; `running` is false once the next of the latter says so.
  unfoldable pub polled : Monitor → List Wake → List Poll → Session W
  polled m ws (stopped ∷ es) = ended_at m saw_stop
  polled m [] es = ended_at m going_on
  polled m (interrupted ∷ ws) es = polled m ws es
  polled m (failed ∷ ws) es = ended_at m broke_off
  polled m (timed_out ∷ ws) es = polled m ws es
  polled m (other_event ∷ ws) es = polled m ws es
  polled m (readable ∷ ws) es =
      let batch = drain {W = W} it m 0 es in
      let rest = polled batch.monitor ws batch.left in
      record rest { steps = batch.steps ++ rest.steps }

  -- The loop of the other branch, with how it ends.
  unfoldable pub unpolled : Monitor → List Poll → Session W
  unpolled m es =
      let (last, steps) = fallback {W = W} it m es in
      record { monitor = last; steps = steps; ending = if has_stop es then saw_stop else going_on }

  unfoldable pub loops : Option ℕ → List Wake → List Poll → Session W
  unfolding polled unpolled
  loops (some fd) ws es = polled Pipeline.start ws es
  loops none ws es = unpolled Pipeline.start es

  abbrev failing : Exit → Exit × List (Step W)
  failing e = (e, [])

  -- From the constructor of the capture on: `link` is what `pcap_open_live` opens, and `fd` the
  -- descriptor that can be polled.
  unfoldable pub capture_on :
      Option LinkType → Option ℕ → List Wake → List Poll → Exit × List (Step W)
  capture_on none fd ws es = failing uncaught
  capture_on (some link) fd ws es =
      let session = loops fd ws es in (exit_of session.ending, session.steps)

  -- `argv` has the program's name first, and `masked` says whether `pthread_sigmask` succeeds. The
  -- result is how the program ends, and what became of the packets.
  unfoldable pub main :
      List String → Bool → Option LinkType → Option ℕ → List Wake → List Poll → Exit × List (Step W)
  main argv masked link fd ws es =
      if ltb (length argv) 2
      then failing (status 1)
      else if masked
      then capture_on link fd ws es
      else failing (status 1)
