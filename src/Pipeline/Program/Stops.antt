-- ===== src/Pipeline/Program/Stops.antt =====
-- How PRISM/src/main.cpp ends when a signal clears `running`, in either of its loops.
use prism_dev.Common.{
  ◌⊎◌, ℕ, ◌+◌, ◌≤◌, ◌≡◌, refl, ap, arith, Bool, true, false, List, [], ◌∷◌, ◌++◌, count_if, length,
  ltb, if◌then◌else◌, Bool-cases, inl, inr,
}
use prism_dev.Double.{Double}
use prism_dev.Features.{Iteration}
use prism_dev.Pipeline.{
  Monitor, Step, Poll, stopped, no_packet, arrived, drain, fallback, process, is_counted, max_drain,
}
use prism_dev.Pipeline
use prism_dev.Capture.{LinkType}
use prism_dev.Common.{String, Option, none, some}
use prism_dev.Pipeline.Loops.{drain-fallback}
use prism_dev.Pipeline.Program.{
  Wake, interrupted, failed, timed_out, other_event, readable, saw_stop, polled, has_stop, loops,
  main, capture_on, status,
}

abbrev pub is_readable : Wake → Bool
is_readable readable = true
is_readable _ = false

abbrev pub is_failed : Wake → Bool
is_failed failed = true
is_failed _ = false

module _ {ℓ} (W : Type ℓ) ⦃d : Double W⦄ (it : Iteration) where
  -- A batch leaves the stop unmet, and no more events than there were.
  drain_left :
      (m : Monitor) (n : ℕ) (es : List Poll)
      → has_stop es ≡ true
      → let batch = drain {W = W} it m n es in
        (has_stop batch.left ≡ true) × (length batch.left ≤ length es)
  unfolding drain
  drain_left m n [] h = absurd (ground arith)
  drain_left m n (stopped ∷ es) h = (refl, omega arith)
  drain_left m n (no_packet ∷ es) h = elim (Bool-cases (ltb n max_drain)) [
    | inl room ↦ rw room (h, omega arith)
    | inr full ↦ rw full (h, omega arith)
  ]
  drain_left m n (arrived packet net ∷ es) h = elim (Bool-cases (ltb n max_drain)) [
    | inl room ↦ rw room (
        let (m', step) = process {W = W} it m packet net in
        let (kept, le) = drain_left m' (if is_counted step then n + 1 else n) es h in
        (kept, omega arith))
    | inr full ↦ rw full (h, omega arith)
  ]

  -- A batch from 0 meets at least one event, unless it begins with the stop.
  drain_moves :
      (m : Monitor) (e : Poll) (es : List Poll)
      → has_stop (e ∷ es) ≡ true
      → (e ≡ stopped) ⊎ (length (drain {W = W} it m 0 (e ∷ es)).left ≤ length es)
  unfolding drain
  drain_moves m stopped es h = inl refl
  drain_moves m no_packet es h = inr (omega arith)
  drain_moves m (arrived packet net) es h =
      let (m', step) = process {W = W} it m packet net in
      inr (drain_left m' (if is_counted step then 1 else 0) es h).1

  fallback-stopped : (m : Monitor) (es : List Poll) → fallback {W = W} it m (stopped ∷ es) ≡ (m, [])
  unfolding fallback
  fallback-stopped m es = refl

  -- With a stop among the events, no failing call of `poll`, and a readable descriptor often enough,
  -- the loop with a descriptor ends at the stop, and has handled the packets exactly as the other
  -- loop does.
  pub polled-fallback :
      (m : Monitor) (ws : List Wake) (es : List Poll)
      → has_stop es ≡ true
      → count_if is_failed ws ≡ 0
      → length es ≤ count_if is_readable ws
      → let s = polled {W = W} it m ws es in
        let (last, steps) = fallback {W = W} it m es in
        (s.ending ≡ saw_stop) × (s.monitor ≡ last) × (s.steps ≡ steps)
  unfolding polled
  polled-fallback m ws [] h f n = ground arith
  polled-fallback m ws (stopped ∷ es) h f n = rw (fallback-stopped m es) (refl, refl, refl)
  polled-fallback m [] (e ∷ es) h f n = absurd (omega arith)
  polled-fallback m (interrupted ∷ ws) (e ∷ es) h f n =
      polled-fallback m ws (e ∷ es) h (omega arith) (omega arith)
  polled-fallback m (failed ∷ ws) (e ∷ es) h f n = absurd (omega arith)
  polled-fallback m (timed_out ∷ ws) (e ∷ es) h f n =
      polled-fallback m ws (e ∷ es) h (omega arith) (omega arith)
  polled-fallback m (other_event ∷ ws) (e ∷ es) h f n =
      polled-fallback m ws (e ∷ es) h (omega arith) (omega arith)
  polled-fallback m (readable ∷ ws) (e ∷ es) h f n =
      let batch = drain {W = W} it m 0 (e ∷ es) in
      let kept = (drain_left m 0 (e ∷ es) h).0 in
      let fewer : length batch.left ≤ length es = ground (arith, drain_moves m e es h) in
      let (ending, last, steps) =
        polled-fallback batch.monitor ws batch.left kept (omega arith) (omega arith) in
      rw (drain-fallback {W = W} it m 0 (e ∷ es)) (ending, last, ap (λ xs. batch.steps ++ xs) steps)

  loops-fallback :
      (fd : Option ℕ) (ws : List Wake) (es : List Poll)
      → has_stop es ≡ true
      → count_if is_failed ws ≡ 0
      → length es ≤ count_if is_readable ws
      → let s = loops {W = W} it fd ws es in
        (s.ending ≡ saw_stop) × (s.steps ≡ (fallback {W = W} it Pipeline.start es).1)
  unfolding loops
  loops-fallback none ws es h f n = rw h (refl, refl)
  loops-fallback (some fd) ws es h f n =
      let (ending, last, steps) = polled-fallback Pipeline.start ws es h f n in (ending, steps)

  -- Started with the name of an interface, with the signals masked and the interface opened: the
  -- program ends with status 0 once a signal clears `running`, whichever of its loops it runs, if
  -- no call of `poll` fails and the descriptor is readable often enough for what comes before the
  -- stop to be fetched; and in both loops the packets up to the stop are handled alike.
  pub main-ends :
      (argv : List String) (link : LinkType) (fd : Option ℕ) (ws : List Wake) (es : List Poll)
      → 2 ≤ length argv
      → has_stop es ≡ true
      → count_if is_failed ws ≡ 0
      → length es ≤ count_if is_readable ws
      → main {W = W} it argv true (some link) fd ws es
        ≡ (status 0, (fallback {W = W} it Pipeline.start es).1)
  unfolding main capture_on
  main-ends argv link fd ws es enough h f n =
      let (ending, steps) = loops-fallback fd ws es h f n in
      let given : ltb (length argv) 2 ≡ false = ground arith in rw (given, ending, steps) refl
