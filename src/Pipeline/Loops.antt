-- ===== src/Pipeline/Loops.antt =====
-- The two loops of PRISM/src/main.cpp.
use prism_dev.Common.{
  ℕ, ◌+◌, ◌≤◌, ◌≡◌, refl, arith, List, [], ◌∷◌, ◌++◌, count_if, ltb, if◌then◌else◌, ltb→lt,
  Bool-cases, inl, inr,
}
use prism_dev.Double.{Double}
use prism_dev.Features.{Iteration}
use prism_dev.Pipeline.{
  Monitor, Poll, stopped, no_packet, arrived, max_drain, is_counted, process, drain, fallback,
}

module _ {ℓ} {W : Type ℓ} ⦃d : Double W⦄ (it : Iteration) where
  -- A batch and what the fallback loop would make of the rest are together what the fallback loop
  -- makes of it all: the same packets are handled, in the same order and with the same results,
  -- wherever the limit of a batch or a failed fetch cuts it.
  pub drain-fallback :
      (m : Monitor) (n : ℕ) (es : List Poll)
      → let batch = drain {W = W} it m n es in
        let (last, steps) = fallback {W = W} it batch.monitor batch.left in
        fallback {W = W} it m es ≡ (last, batch.steps ++ steps)
  unfolding drain fallback
  drain-fallback m n [] = refl
  drain-fallback m n (stopped ∷ es) = refl
  drain-fallback m n (no_packet ∷ es) = ground arith
  drain-fallback m n (arrived packet net ∷ es) = elim (Bool-cases (ltb n max_drain)) [
    | inl room ↦
        (let (m', step) = process {W = W} it m packet net in
          rw (room, drain-fallback m' (if is_counted step then n + 1 else n) es) refl)
    | inr full ↦ rw full refl
  ]

module _ {ℓ} (W : Type ℓ) ⦃d : Double W⦄ (it : Iteration) where
  -- From a counter within the limit, a batch raises it by the number of its steps that count, and
  -- it never passes the limit.
  pub drain_bound :
      (m : Monitor) (n : ℕ) (es : List Poll)
      → n ≤ max_drain
      → let batch = drain {W = W} it m n es in
        (batch.drained ≡ n + count_if is_counted batch.steps) × (batch.drained ≤ max_drain)
  unfolding drain
  drain_bound m n [] h = ground arith
  drain_bound m n (stopped ∷ es) h = ground arith
  drain_bound m n (no_packet ∷ es) h = elim (Bool-cases (ltb n max_drain)) [
    | inl room ↦ rw room (ground arith)
    | inr full ↦ rw full (ground arith)
  ]
  drain_bound m n (arrived packet net ∷ es) h = elim (Bool-cases (ltb n max_drain)) [
    | inl room ↦
        (let (m', step) = process {W = W} it m packet net in
          let below = ltb→lt n max_drain room in
          elim (Bool-cases (is_counted step)) [
            | inl counted ↦
                rw (room, counted)
                  (let ih = drain_bound m' (n + 1) es (omega arith) in (omega arith, ih.1))
            | inr skipped ↦
                rw (room, skipped) (let ih = drain_bound m' n es h in (omega arith, ih.1))
          ])
    | inr full ↦ rw full (ground arith)
  ]
