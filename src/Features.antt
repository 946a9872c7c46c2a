-- ===== src/Features.antt =====
-- PRISM/src/feature/feat_miner.cpp: eight features of a window.
use prism_dev.Common.{
  ◌%◌, ◌^◌, ◌-◌, ltb, ℕ, suc, ◌+◌, String, Bool, List, [], ◌∷◌, length, if◌then◌else◌, ◌==◌, str_eq,
  ==_iff, eq_iff, ◌≡◌, ◌↔◌, true,
}
use prism_dev.Common.Int.{sub_ℕ}
use prism_dev.Double.{Double}
use prism_dev.Packet.{ParsedRecord, Window}
pub mod Tally
pub mod Peak
pub mod Laws
pub mod Gaps
pub mod Shares
pub mod Quiet

-- The equality of the keys of a map.
pub record Eq {ℓ} (A : Type ℓ) : Type ℓ where
  pub same : A → A → Bool
  pub same_iff : (a b : A) → (same a b ≡ true) ↔ (a ≡ b)

instance abbrev pub nat_eq : Eq ℕ
nat_eq = record { same = ◌==◌; same_iff = ==_iff }

instance abbrev pub string_eq : Eq String
string_eq = record { same = str_eq; same_iff = eq_iff }

-- `counts[k]++` on a map from keys to counts, of which a missing one is 0. A count is an `int`, here
-- its 32 bits as a number; the language leaves its overflow undefined, and here it wraps around.
unfoldable pub bump : {K : Type 0} ⦃e : Eq K⦄ → K → List (K × ℕ) → List (K × ℕ)
bump k [] = (k, 1) ∷ []
bump ⦃e⦄ k ((j, n) ∷ m) =
    let rest = bump k m in if e.same j k then (j, (n + 1) % 2 ^ 32) ∷ m else (j, n) ∷ rest

-- The order in which a hash map is gone through is the library's: each map comes with its own.
pub record Iteration : Type 0 where
  pub codes : List (ℕ × ℕ) → List (ℕ × ℕ)
  pub addresses : List (ℕ × ℕ) → List (ℕ × ℕ)
  pub names : List (String × ℕ) → List (String × ℕ)

-- The variables of the loop over the records. The counts are the 32 bits of an `int`.
pub record Tallies {ℓ} (W : Type ℓ) : Type ℓ where
  pub write_count : W
  pub func_counts : List (ℕ × ℕ)
  pub addr_counts : List (ℕ × ℕ)
  pub proto_counts : List (String × ℕ)

module _ {ℓ} {W : Type ℓ} ⦃d : Double W⦄ where
  abbrev pub no_tallies : Tallies W
  no_tallies = record {
    write_count = d.lit 0 1;
    func_counts = [];
    addr_counts = [];
    proto_counts = [];
  }

  unfoldable pub tally_record : Tallies W → ParsedRecord → Tallies W
  tally_record t r = record {
    write_count = if r.is_write then d.add t.write_count (d.lit 10 1) else t.write_count;
    func_counts = bump r.function_code t.func_counts;
    addr_counts = bump r.address t.addr_counts;
    proto_counts = bump r.protocol t.proto_counts;
  }

  unfoldable pub collect : Tallies W → List ParsedRecord → Tallies W
  collect t [] = t
  collect t (r ∷ rs) = collect (tally_record t r) rs

  -- An `int`, given by its 32 bits, as a `double`.
  unfoldable pub of_int : ℕ → W
  of_int v = if ltb v (2 ^ 31) then d.of_count v else d.neg (d.of_count (2 ^ 32 - v))

  -- The loops that look for the largest count.
  unfoldable pub top : {K : Type 0} → W → List (K × ℕ) → W
  top best [] = best
  top best ((k, v) ∷ m) = top (if d.lt best (of_int v) then of_int v else best) m

  unfoldable pub entropy_from : W → W → List (ℕ × ℕ) → W
  entropy_from total entropy [] = entropy
  entropy_from total entropy ((k, v) ∷ m) =
      let p = d.div (of_int v) total in
      entropy_from total
        (if d.lt (d.of_count 0) p then d.sub entropy (d.mul p (d.log2 p)) else entropy) m

  -- The seconds between each record and the one before it.
  unfoldable pub deltas : List ParsedRecord → List W
  deltas [] = []
  deltas (r ∷ []) = []
  deltas (r ∷ q ∷ rs) = d.seconds (sub_ℕ q.timestamp r.timestamp) ∷ deltas (q ∷ rs)

  unfoldable pub sum_from : W → List W → W
  sum_from acc [] = acc
  sum_from acc (x ∷ xs) = sum_from (d.add acc x) xs

  unfoldable pub squares_from : W → W → List W → W
  squares_from mean acc [] = acc
  squares_from mean acc (x ∷ xs) =
      squares_from mean (d.add acc (d.mul (d.sub x mean) (d.sub x mean))) xs

  unfoldable pub mean_gap : List W → W
  unfolding sum_from
  mean_gap xs = d.div (sum_from (d.lit 0 1) xs) (d.of_count (length xs))

  unfoldable pub deviation : List W → W
  unfolding squares_from mean_gap
  deviation xs = d.sqrt (d.div (squares_from (mean_gap xs) (d.lit 0 1) xs) (d.of_count (length xs)))

  abbrev pub zeros : List W
  zeros =
      d.lit 0 1
      ∷ d.lit 0 1
      ∷ d.lit 0 1
      ∷ d.lit 0 1
      ∷ d.lit 0 1
      ∷ d.lit 0 1
      ∷ d.lit 0 1
      ∷ d.lit 0 1
      ∷ []

  -- The features of the records of a window that is not empty.
  unfoldable pub features : Iteration → List ParsedRecord → List W
  features it rs =
      total
      ∷ d.div t.write_count total
      ∷ d.div (top (d.lit 0 1) (it.codes t.func_counts)) total
      ∷ entropy_from total (d.lit 0 1) (it.addresses t.addr_counts)
      ∷ d.div (top (d.lit 0 1) (it.names t.proto_counts)) total
      ∷ (if spread then mean_gap (deltas rs) else d.lit 0 1)
      ∷ (if spread then deviation (deltas rs) else d.lit 0 1)
      ∷ d.div (top (d.lit 0 1) (it.addresses t.addr_counts)) total
      ∷ []
    where
      t : Tallies W
      t = collect no_tallies rs

      total : W
      total = d.of_count (length rs)

      spread : Bool
      spread = ltb 1 (length rs)

  unfoldable pub compute : Iteration → Window → List W
  compute it window = if length window.records == 0 then zeros else features it window.records
