-- ===== src/Features/Shares.antt =====
-- Bounds of the features of PRISM/src/feature/feat_miner.cpp that the tree score reads.
use prism_dev.Common.{
  ℕ, ◌*◌, ◌≤◌, ◌<◌, ◌^◌, ◌∙◌, ap, arith, List, [], ◌∷◌, count_if, count_if_le, length, ◌==◌,
  Bool-cases, inl, inr,
}
use prism_dev.Double.{Double, ◌≼◌, IsExact, IsWeighted}
use prism_dev.Packet.{ParsedRecord, Window}
use prism_dev.Features.{nat_eq, Iteration, no_tallies, collect, entropy_from, features}
use prism_dev.Features.Tally.{largest, largest_lem}
use prism_dev.Features.Peak.{largest-Perm, collect_fresh, of_int-small}
use prism_dev.Features.Laws.{IsIteration, feature, compute_nonempty, compute_lem}

-- How many of the records of a window are writes.
abbrev pub write_count : Window → ℕ
write_count w = count_if (λ r. r.is_write) w.records

module _ {ℓ} (W : Type ℓ) ⦃d : Double W⦄ (exact : IsExact W) (weighted : IsWeighted W) where
  open weighted use {share_bounds, entropy_step, three_tenths, nought_le}

  pub entropy_nonneg :
      (n : ℕ) (m : List (ℕ × ℕ)) (e : W)
      → 0 < n
      → n < 2 ^ 31
      → largest m ≤ n
      → d.lit 0 1 ≼ e
      → d.lit 0 1 ≼ entropy_from (d.of_count n) e m
  unfolding entropy_from largest
  entropy_nonneg n [] e pos small fits h = h
  entropy_nonneg n ((k, v) ∷ m) e pos small fits h =
      let p = d.div (d.of_count v) (d.of_count n) in
      let bounds = share_bounds v n pos small (omega arith) in
      rw (of_int-small {W = W} v (omega arith)) (elim (Bool-cases (d.lt (d.of_count 0) p)) [
        | inl some_ ↦ rw some_ (
            entropy_nonneg n m (d.sub e (d.mul p (d.log2 p))) pos small (omega arith)
              (entropy_step p e some_ bounds.1 h))
        | inr none_ ↦ rw none_ (entropy_nonneg n m e pos small (omega arith) h)
      ])

  module _ (it : Iteration) (once : IsIteration it) where
    pub largest_address :
        (rs : List ParsedRecord)
        → 0 < length rs
        → length rs < 2 ^ 31
        → largest (it.addresses (collect {W = W} no_tallies rs).addr_counts) ≤ length rs
    largest_address rs pos small =
        let (funcs, addrs, protos) = collect_fresh W rs small in
        let (upper, (k, attained)) = largest_lem (λ r. r.address) rs pos in
        let same =
          largest-Perm _ (collect {W = W} no_tallies rs).addr_counts
            (once.addresses_once (collect {W = W} no_tallies rs).addr_counts)
          ∙ ap largest addrs in
        omega (arith, same, attained, count_if_le (λ r. r.address == k) rs)

    -- The features 1 to 3 of a window of which three tenths or more are writes.
    pub features_of_writes :
        (w : Window)
        → 0 < length w.records
        → length w.records < 2 ^ 31
        → 3 * length w.records ≤ 10 * write_count w
        → (d.lit 0 1 ≼ feature it w 1)
          × (d.lit 3 1 ≼ feature it w 1)
          × (feature it w 1 ≼ d.lit 10 1)
          × (d.lit 0 1 ≼ feature it w 2)
          × (d.lit 0 1 ≼ feature it w 3)
    unfolding features
    features_of_writes w pos small many =
        let rs = w.records in
        let n = length rs in
        let (total, writes, (p, funcs, (upper, (k, attained))), rest, more) =
          compute_lem exact it w once pos (omega arith) in
        let few : write_count w ≤ n = count_if_le (λ r. r.is_write) rs in
        let codes : p ≤ n = omega (arith, attained, count_if_le (λ r. r.function_code == k) rs) in
        (
          rw writes (share_bounds (write_count w) n pos small few).0,
          rw writes (three_tenths (write_count w) n pos small few many),
          rw writes (share_bounds (write_count w) n pos small few).1,
          rw funcs (share_bounds p n pos small codes).0,
          rw (compute_nonempty it w pos)
              (entropy_nonneg n _ (d.lit 0 1) pos small (largest_address rs pos small) nought_le),
        )
