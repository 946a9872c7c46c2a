-- ===== src/Features/Laws.antt =====
-- What the features of PRISM/src/feature/feat_miner.cpp are.
use mathlib.Core.List.{Perm}
use prism_dev.Common.{
  String, ℕ, ◌≤◌, ◌<◌, ◌^◌, ◌≡◌, refl, ap, ◌∙◌, arith, List, [], count_if, count_if_le, length,
  get_or,
}
use prism_dev.Double.{Double, IsExact}
use prism_dev.Packet.{ParsedRecord, Window}
use prism_dev.Features.{
  zeros, Eq, nat_eq, string_eq, Iteration, no_tallies, collect, top, features, compute,
}
use prism_dev.Features.Tally.{largest, tally_from, count_of, largest_lem}
use prism_dev.Features.Peak.{largest-Perm, collect_fresh, collect_writes, top_lem}

-- Going through a map meets each entry once.
pub record IsIteration (it : Iteration) : Type 0 where
  pub codes_once : (m : List (ℕ × ℕ)) → Perm (it.codes m) m
  pub addresses_once : (m : List (ℕ × ℕ)) → Perm (it.addresses m) m
  pub names_once : (m : List (String × ℕ)) → Perm (it.names m) m

module _ {K : Type 0} ⦃e : Eq K⦄ where
  -- The number `p` is the largest number of records with one key.
  abbrev pub IsPeak : (ParsedRecord → K) → List ParsedRecord → ℕ → Type 0
  IsPeak key rs p = ((k : K) → count_of key k rs ≤ p) × ((k : K) × (count_of key k rs ≡ p))

module _ {ℓ} {W : Type ℓ} ⦃d : Double W⦄ where
  -- One of the features.
  abbrev pub feature : Iteration → Window → ℕ → W
  feature it w i = get_or (compute {W = W} it w) i (d.lit 0 1)

  -- A count over the number of records.
  abbrev pub share : Window → ℕ → W
  share w p = d.div (d.of_count p) (d.of_count (length w.records))

  pub compute_nonempty :
      (it : Iteration) (w : Window)
      → 0 < length w.records
      → compute {W = W} it w ≡ features {W = W} it w.records
  unfolding compute
  compute_nonempty it w pos = ground arith

  -- There are always eight features, and on a window with no record all eight are 0.
  pub compute_size :
      (it : Iteration) (w : Window)
      → (length (compute {W = W} it w) ≡ 8) × (w.records ≡ [] → compute {W = W} it w ≡ zeros)
  unfolding compute features
  compute_size it w = ground arith

  module _ (exact : IsExact W) where
    open exact use {nought}

    IsPeak-feature :
        {K : Type 0} ⦃e' : Eq K⦄ (key : ParsedRecord → K) (rs : List ParsedRecord)
        (m visited : List (K × ℕ))
        → 0 < length rs
        → length rs < 2 ^ 31
        → m ≡ tally_from key [] rs
        → Perm visited m
        → (p : ℕ) × (top (d.lit 0 1) visited ≡ d.of_count p) × IsPeak key rs p
    IsPeak-feature {K} ⦃e'⦄ key rs m visited pos small e perm =
        let p = largest (tally_from key [] rs) in
        let (upper, (k, attained)) = largest_lem key rs pos in
        let same : largest visited ≡ p = largest-Perm visited m perm ∙ ap largest e in
        let fits : p < 2 ^ 31 = omega (arith, count_if_le (λ r. e'.same (key r) k) rs) in
        (
          p,
          rw nought
              (top_lem exact 0 visited (omega arith) (omega arith) ∙ ap d.of_count (omega arith)),
          (upper, (k, attained)),
        )

    -- Where counts are exact as IsExact states, on a window of 1 to 2^31 - 1 records, in whatever order
    -- the maps are gone through as long as each entry is met once: feature 0 is the number of
    -- records, feature 1 the number of writes over it, and features 2, 4 and 7 are the largest
    -- number of records with one function code, one protocol and one address over it. Each largest
    -- number is reached by a key and exceeded by none.
    pub compute_lem :
        (it : Iteration) (w : Window)
        → IsIteration it
        → 0 < length w.records
        → length w.records < 2 ^ 31
        → let rs = w.records in
          (feature it w 0 ≡ d.of_count (length rs))
          × (feature it w 1 ≡ share w (count_if (λ r. r.is_write) rs))
          × ((p : ℕ) × (feature it w 2 ≡ share w p) × IsPeak (λ r. r.function_code) rs p)
          × ((p : ℕ) × (feature it w 4 ≡ share w p) × IsPeak (λ r. r.protocol) rs p)
          × ((p : ℕ) × (feature it w 7 ≡ share w p) × IsPeak (λ r. r.address) rs p)
    unfolding features
    compute_lem it w once pos small =
        let rs = w.records in
        let t = collect {W = W} no_tallies rs in
        let (funcs, addrs, protos) = collect_fresh W rs small in
        let over = λ (x : W). d.div x (d.of_count (length rs)) in
        let (fp, f, f_peak) =
          IsPeak-feature (λ r. r.function_code) rs t.func_counts (it.codes t.func_counts) pos small
            funcs (once.codes_once t.func_counts) in
        let (pp, p, p_peak) =
          IsPeak-feature (λ r. r.protocol) rs t.proto_counts (it.names t.proto_counts) pos small
            protos (once.names_once t.proto_counts) in
        let (ap', a, a_peak) =
          IsPeak-feature (λ r. r.address) rs t.addr_counts (it.addresses t.addr_counts) pos small
            addrs (once.addresses_once t.addr_counts) in
        rw (compute_nonempty it w pos) (
          refl,
          ap over (
              collect_writes exact no_tallies 0 rs nought (omega arith)
              ∙ ap d.of_count (omega arith)),
          (fp, ap over f, f_peak),
          (pp, ap over p, p_peak),
          (ap', ap over a, a_peak),
        )
