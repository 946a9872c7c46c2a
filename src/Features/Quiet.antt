-- ===== src/Features/Quiet.antt =====
-- Bounds of the features of PRISM/src/feature/feat_miner.cpp on a window without a write.
use prism_dev.Common.{
  ℕ, ◌+◌, ◌≤◌, ◌<◌, ◌^◌, ◌≡◌, refl, ap, ◌∙◌, arith, false, List, [], ◌∷◌, count_if, count_if_le,
  length, ◌==◌, All, Bool-cases, inl, inr,
}
use prism_dev.Double.{Double, ◌≼◌, IsExact, IsOrdered, IsWeighted, IsQuiet}
use prism_dev.Packet.{ParsedRecord, Window}
use prism_dev.Features.{nat_eq, Iteration, no_tallies, collect, entropy_from, features}
use prism_dev.Features.Tally.{largest, length-tally_from}
use prism_dev.Features.Peak.{length-Perm, collect_fresh, of_int-small}
use prism_dev.Features.Laws.{IsIteration, feature, compute_nonempty, compute_lem}
use prism_dev.Features.Shares.{write_count, largest_address, entropy_nonneg}

abbrev pub IsRead : ParsedRecord → Type 0
IsRead r = r.is_write ≡ false

no_writes : (rs : List ParsedRecord) → All IsRead rs → count_if (λ r. r.is_write) rs ≡ 0
no_writes [] h = refl
no_writes (r ∷ rs) h = ground (arith, no_writes rs h.1)

module _ {ℓ} (W : Type ℓ) ⦃d : Double W⦄ (exact : IsExact W) (order : IsOrdered W)
    (weighted : IsWeighted W) (quiet : IsQuiet W) where
  open order use {le_trans}
  open weighted use {share_bounds, nought_le}
  open quiet use {no_share, entropy_cap, count_mono}

  entropy_capped :
      (n : ℕ) (m : List (ℕ × ℕ)) (e : W) (k : ℕ)
      → 0 < n
      → n < 2 ^ 31
      → largest m ≤ n
      → k + length m < 2 ^ 31
      → e ≼ d.of_count k
      → entropy_from (d.of_count n) e m ≼ d.of_count (k + length m)
  unfolding entropy_from largest
  entropy_capped n [] e k pos small fits room h =
      le_trans e (d.of_count k) _ h (count_mono k (k + 0) (omega arith) room)
  entropy_capped n ((j, v) ∷ m) e k pos small fits room h =
      let p = d.div (d.of_count v) (d.of_count n) in
      let total = d.of_count n in
      let below = (share_bounds v n pos small (omega arith)).1 in
      let same : k + 1 + length m ≡ k + length ((j, v) ∷ m) = omega arith in
      rw (of_int-small {W = W} v (omega arith)) (elim (Bool-cases (d.lt (d.of_count 0) p)) [
        | inl some_ ↦
            rw (some_, ← same)
              (entropy_capped n m (d.sub e (d.mul p (d.log2 p))) (k + 1) pos small (omega arith)
                (omega arith) (entropy_cap p e k (omega arith) some_ below h))
        | inr none_ ↦
            rw (none_, ← same)
              (entropy_capped n m e (k + 1) pos small (omega arith) (omega arith)
                (le_trans e (d.of_count k) _ h (count_mono k (k + 1) (omega arith) (omega arith))))
      ])

  module _ (it : Iteration) (once : IsIteration it) where
    -- The features 1 to 3 of a window without a write.
    pub features_of_reads :
        (w : Window)
        → 0 < length w.records
        → length w.records < 2 ^ 31
        → All IsRead w.records
        → (feature it w 1 ≡ d.lit 0 1)
          × (feature it w 2 ≼ d.lit 10 1)
          × (d.lit 0 1 ≼ feature it w 3)
          × ((k : ℕ) × (k < 2 ^ 31) × (feature it w 3 ≼ d.of_count k))
    unfolding features
    features_of_reads w pos small reads =
        let rs = w.records in
        let n = length rs in
        let t = collect {W = W} no_tallies rs in
        let m = it.addresses t.addr_counts in
        let (total, writes, (p, funcs, (upper, (k, attained))), rest, more) =
          compute_lem exact it w once pos (omega arith) in
        let codes : p ≤ n = omega (arith, attained, count_if_le (λ r. r.function_code == k) rs) in
        let (fs, addrs, ps) = collect_fresh W rs small in
        let size : length m ≤ n = omega (
          arith,
          length-Perm m t.addr_counts (once.addresses_once t.addr_counts),
          ap length addrs,
          length-tally_from (λ r. r.address) [] rs,
        ) in
        let fits = largest_address W exact weighted it once rs pos small in
        let none_ : write_count w ≡ 0 = no_writes rs reads in
        (
          writes ∙ ap (λ (c : ℕ). d.div (d.of_count c) (d.of_count n)) none_ ∙ no_share n pos small,
          rw funcs (share_bounds p n pos small codes).1,
          rw (compute_nonempty it w pos)
              (entropy_nonneg W exact weighted n m (d.lit 0 1) pos small fits nought_le),
          (
            0 + length m,
            omega arith,
            rw (compute_nonempty it w pos) (
                entropy_capped n m (d.lit 0 1) 0 pos small fits (omega arith)
                  (rw (← exact.nought) nought_le)),
          ),
        )
