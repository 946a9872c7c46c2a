-- ===== src/Features/Peak.antt =====
-- The loops of PRISM/src/feature/feat_miner.cpp that add ones and look for a largest count, against
-- counting with numbers.
use mathlib.Core.Logic.{∥∥₁_elim}
use mathlib.Core.List.{Perm, Permᴰ}
use mathlib.Core.List.Permᴰ.{nil, cons, swap, trans}
use mathlib.Core.Path.{ap₂}
use native.Mathlib.Nat.{ℕ_set}
use prism_dev.Common.{
  ltb→lt, ℕ, suc, ◌+◌, ◌≤◌, ◌<◌, ◌^◌, ◌≡◌, refl, ap, ◌∙◌, arith, List, [], ◌∷◌, max, count_if,
  length, if◌then◌else◌, Bool-cases, inl, inr, ltb,
}
use prism_dev.Double.{Double, IsExact}
use prism_dev.Packet.{ParsedRecord}
use prism_dev.Features.{nat_eq, string_eq, Tallies, no_tallies, tally_record, collect, top, of_int}
use prism_dev.Features.Tally.{largest, tally_from, bump-plus_one, largest-plus_one}

module _ {K : Type 0} where
  largest-Permᴰ : {xs ys : List (K × ℕ)} → Permᴰ xs ys → largest xs ≡ largest ys
  unfolding largest
  largest-Permᴰ nil = refl
  largest-Permᴰ (cons {a = x} {b = y} e p) = ap₂ max (ap (λ (q : K × ℕ). q.1) e) (largest-Permᴰ p)
  largest-Permᴰ (swap {a = x} {b = y} {l = l} e f) =
      omega (arith, ap (λ (q : K × ℕ). q.1) e, ap (λ (q : K × ℕ). q.1) f)
  largest-Permᴰ (trans p q) = largest-Permᴰ p ∙ largest-Permᴰ q

  -- The largest count does not depend on the order of the entries.
  pub largest-Perm : (xs ys : List (K × ℕ)) → Perm xs ys → largest xs ≡ largest ys
  largest-Perm xs ys p = ∥∥₁_elim p (ℕ_set _ _) largest-Permᴰ

  length-Permᴰ : {xs ys : List (K × ℕ)} → Permᴰ xs ys → length xs ≡ length ys
  length-Permᴰ nil = refl
  length-Permᴰ (cons e p) = ap suc (length-Permᴰ p)
  length-Permᴰ (swap {l = l} e f) = refl
  length-Permᴰ (trans p q) = length-Permᴰ p ∙ length-Permᴰ q

  pub length-Perm : (xs ys : List (K × ℕ)) → Perm xs ys → length xs ≡ length ys
  length-Perm xs ys p = ∥∥₁_elim p (ℕ_set _ _) length-Permᴰ

module _ {ℓ} {W : Type ℓ} ⦃d : Double W⦄ where
  -- The loop fills each map by itself, and no count reaches 2^31 while the records and the counts
  -- together are fewer.
  pub collect_maps :
      (t : Tallies W) (rs : List ParsedRecord)
      → largest t.func_counts + length rs < 2 ^ 31
      → largest t.addr_counts + length rs < 2 ^ 31
      → largest t.proto_counts + length rs < 2 ^ 31
      → ((collect t rs).func_counts ≡ tally_from (λ r. r.function_code) t.func_counts rs)
        × ((collect t rs).addr_counts ≡ tally_from (λ r. r.address) t.addr_counts rs)
        × ((collect t rs).proto_counts ≡ tally_from (λ r. r.protocol) t.proto_counts rs)
  unfolding collect tally_from tally_record
  collect_maps t [] f a p = (refl, refl, refl)
  collect_maps t (r ∷ rs) f a p =
      let (fs, as_, ps) =
        collect_maps (tally_record t r) rs
          (rw (bump-plus_one r.function_code t.func_counts (omega arith))
            (omega (arith, largest-plus_one r.function_code t.func_counts)))
          (rw (bump-plus_one r.address t.addr_counts (omega arith))
            (omega (arith, largest-plus_one r.address t.addr_counts)))
          (rw (bump-plus_one r.protocol t.proto_counts (omega arith))
            (omega (arith, largest-plus_one r.protocol t.proto_counts))) in
      (
        fs
            ∙ ap (λ m. tally_from (λ q. q.function_code) m rs)
                (bump-plus_one r.function_code t.func_counts (omega arith)),
        as_
            ∙ ap (λ m. tally_from (λ q. q.address) m rs)
                (bump-plus_one r.address t.addr_counts (omega arith)),
        ps
            ∙ ap (λ m. tally_from (λ q. q.protocol) m rs)
                (bump-plus_one r.protocol t.proto_counts (omega arith)),
      )

  pub of_int-small : (v : ℕ) → v < 2 ^ 31 → of_int {W = W} v ≡ d.of_count v
  unfolding of_int
  of_int-small v h = ground arith

  module _ (exact : IsExact W) where
    open exact use {add_one, lt_count, nought}

    tally_writes :
        (t : Tallies W) (r : ParsedRecord) (a : ℕ)
        → t.write_count ≡ d.of_count a
        → a < 2 ^ 53
        → (tally_record t r).write_count ≡ d.of_count (a + (if r.is_write then 1 else 0))
    unfolding tally_record
    tally_writes t r a e h = elim (Bool-cases r.is_write) [
      | inl write ↦ rw (write, e) (add_one a h)
      | inr read ↦ rw (read, e) (ap d.of_count (omega arith))
    ]

    pub collect_writes :
        (t : Tallies W) (a : ℕ) (rs : List ParsedRecord)
        → t.write_count ≡ d.of_count a
        → a + length rs ≤ 2 ^ 53
        → (collect t rs).write_count ≡ d.of_count (a + count_if (λ r. r.is_write) rs)
    unfolding collect
    collect_writes t a [] e h = e ∙ ap d.of_count (omega arith)
    collect_writes t a (r ∷ rs) e h =
        collect_writes (tally_record t r) (a + (if r.is_write then 1 else 0)) rs
          (tally_writes t r a e (omega arith)) (ground arith)
        ∙ ap d.of_count (omega arith)

    pub top_lem :
        {K : Type 0} (a : ℕ) (m : List (K × ℕ))
        → a ≤ 2 ^ 53
        → largest m < 2 ^ 31
        → top (d.of_count a) m ≡ d.of_count (max a (largest m))
    unfolding top largest
    top_lem a [] h k = ap d.of_count (omega arith)
    top_lem a ((j, v) ∷ m) h k =
        rw (of_int-small v (omega arith), lt_count a v h (omega arith))
          (elim (Bool-cases (ltb a v)) [
            | inl more ↦ rw more (
                top_lem v m (omega arith) (omega arith)
                ∙ ap d.of_count (omega (arith, ltb→lt a v more)))
            | inr less ↦
                let le : v ≤ a = ground arith in
                rw less (top_lem a m h (omega arith) ∙ ap d.of_count (omega arith))
          ])

module _ {ℓ} (W : Type ℓ) ⦃d : Double W⦄ where
  -- The loop over all the records of a window.
  pub collect_fresh :
      (rs : List ParsedRecord)
      → length rs < 2 ^ 31
      → let t = collect {W = W} no_tallies rs in
        (t.func_counts ≡ tally_from (λ r. r.function_code) [] rs)
        × (t.addr_counts ≡ tally_from (λ r. r.address) [] rs)
        × (t.proto_counts ≡ tally_from (λ r. r.protocol) [] rs)
  unfolding largest
  collect_fresh rs small =
      collect_maps {W = W} no_tallies rs (omega arith) (omega arith) (omega arith)
