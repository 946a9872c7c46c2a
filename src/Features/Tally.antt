-- ===== src/Features/Tally.antt =====
-- The counts that the loop of PRISM/src/feature/feat_miner.cpp takes, against counting directly, with
-- counts of any size; below 2^31 the `int` of the code agrees.
use prism_dev.Common.{
  refl, ◌^◌, ◌%◌, leb→le, leb, ℕ, ◌+◌, ◌≤◌, ◌<◌, ◌≡◌, arith, Bool, List, [], ◌∷◌, max, count_if,
  length, if◌then◌else◌, Bool-cases, inl, inr,
}
use prism_dev.Packet.{ParsedRecord}
use prism_dev.Features.{Eq, bump}

abbrev one_if : Bool → ℕ
one_if b = if b then 1 else 0

-- The largest count of a map.
unfoldable pub largest : {K : Type 0} → List (K × ℕ) → ℕ
largest [] = 0
largest ((j, n) ∷ m) = max n (largest m)

module _ {K : Type 0} ⦃e : Eq K⦄ where
  -- One more of a key, without a bound on the count.
  unfoldable pub plus_one : K → List (K × ℕ) → List (K × ℕ)
  plus_one k [] = (k, 1) ∷ []
  plus_one k ((j, n) ∷ m) =
      let rest = plus_one k m in if e.same j k then (j, n + 1) ∷ m else (j, n) ∷ rest

  pub bump-plus_one : (k : K) (m : List (K × ℕ)) → largest m < 2 ^ 31 → bump k m ≡ plus_one k m
  unfolding plus_one bump largest
  bump-plus_one k [] h = refl
  bump-plus_one k ((j, n) ∷ m) h =
      let fits : (n + 1) % 2 ^ 32 ≡ n + 1 = omega arith in
      rw (bump-plus_one k m (omega arith), fits) refl

  pub largest-plus_one : (k : K) (m : List (K × ℕ)) → largest (plus_one k m) ≤ largest m + 1
  unfolding plus_one largest
  largest-plus_one k [] = omega arith
  largest-plus_one k ((j, n) ∷ m) = ground (arith, largest-plus_one k m)

  -- How many records have the key `k`.
  abbrev pub count_of : (ParsedRecord → K) → K → List ParsedRecord → ℕ
  count_of key k rs = count_if (λ r. e.same (key r) k) rs

  -- The count that a map has for a key.
  unfoldable pub count_in : K → List (K × ℕ) → ℕ
  count_in k [] = 0
  count_in k ((j, n) ∷ m) = if e.same j k then n else count_in k m

  -- The loop over one of the maps alone.
  unfoldable pub tally_from : (ParsedRecord → K) → List (K × ℕ) → List ParsedRecord → List (K × ℕ)
  tally_from key m [] = m
  tally_from key m (r ∷ rs) = tally_from key (plus_one (key r) m) rs

  count_in-plus_one :
      (k j : K) (m : List (K × ℕ))
      → count_in j (plus_one k m) ≡ (if e.same k j then count_in j m + 1 else count_in j m)
  unfolding count_in plus_one
  count_in-plus_one k j [] = ground arith
  count_in-plus_one k j ((i, n) ∷ m) =
      ground (arith, count_in-plus_one k j m, e.same_iff i k, e.same_iff k j, e.same_iff i j)

  pub count_in-tally_from :
      (key : ParsedRecord → K) (j : K) (m : List (K × ℕ)) (rs : List ParsedRecord)
      → count_in j (tally_from key m rs) ≡ count_in j m + count_of key j rs
  unfolding tally_from
  count_in-tally_from key j m [] = omega arith
  count_in-tally_from key j m (r ∷ rs) =
      ground
        (arith, count_in-tally_from key j (plus_one (key r) m) rs, count_in-plus_one (key r) j m)

  pub count_in-le-largest : (k : K) (m : List (K × ℕ)) → count_in k m ≤ largest m
  unfolding count_in largest
  count_in-le-largest k [] = omega arith
  count_in-le-largest k ((j, n) ∷ m) = ground (arith, count_in-le-largest k m)

  -- Every entry of the map counts no more than `f` allows its key.
  abbrev Bounded : (K → ℕ) → List (K × ℕ) → Type 0
  Bounded f [] = Unit {0}
  Bounded f ((j, n) ∷ m) = (n ≤ f j) × Bounded f m

  Bounded-weaken :
      (f g : K → ℕ) (m : List (K × ℕ)) → ((j : K) → f j ≤ g j) → Bounded f m → Bounded g m
  Bounded-weaken f g [] le h = tt
  Bounded-weaken f g ((j, n) ∷ m) le h = (omega (arith, le j), Bounded-weaken f g m le h.1)

  Bounded-plus_one :
      (k : K) (f : K → ℕ) (m : List (K × ℕ))
      → Bounded f m
      → Bounded (λ j. f j + one_if (e.same k j)) (plus_one k m)
  unfolding plus_one
  Bounded-plus_one k f [] h = (ground (arith, e.same_iff k k), tt)
  Bounded-plus_one k f ((j, n) ∷ m) h = elim (Bool-cases (e.same j k)) [
    | inl same ↦ rw same (
      ground (arith, e.same_iff j k, e.same_iff k j),
      Bounded-weaken f (λ i. f i + one_if (e.same k i)) m (λ i. omega arith) h.1,
    )
    | inr other ↦ rw other (omega arith, Bounded-plus_one k f m h.1)
  ]

  Bounded-tally_from :
      (key : ParsedRecord → K) (f : K → ℕ) (m : List (K × ℕ)) (rs : List ParsedRecord)
      → Bounded f m
      → Bounded (λ j. f j + count_of key j rs) (tally_from key m rs)
  unfolding tally_from
  Bounded-tally_from key f m [] h = Bounded-weaken f (λ j. f j + 0) m (λ j. omega arith) h
  Bounded-tally_from key f m (r ∷ rs) h =
      Bounded-weaken (λ j. f j + one_if (e.same (key r) j) + count_of key j rs)
        (λ j. f j + count_of key j (r ∷ rs)) (tally_from key (plus_one (key r) m) rs)
        (λ j. omega arith)
        (Bounded-tally_from key (λ j. f j + one_if (e.same (key r) j)) (plus_one (key r) m) rs
          (Bounded-plus_one (key r) f m h))

  largest_attained :
      (f : K → ℕ) (m : List (K × ℕ)) → Bounded f m → 0 < largest m → (k : K) × (largest m ≤ f k)
  unfolding largest
  largest_attained f [] h pos = absurd (omega arith)
  largest_attained f ((j, n) ∷ m) h pos = elim (Bool-cases (leb (largest m) n)) [
    | inl big ↦ (j, omega (arith, leb→le (largest m) n big))
    | inr small ↦
        let less : n < largest m = ground arith in
        let (k, le) = largest_attained f m h.1 (omega arith) in (k, omega arith)
  ]

  count_of-le-largest :
      (key : ParsedRecord → K) (rs : List ParsedRecord) (k : K)
      → count_of key k rs ≤ largest (tally_from key [] rs)
  unfolding count_in
  count_of-le-largest key rs k =
      omega (arith, count_in-tally_from key k [] rs, count_in-le-largest k (tally_from key [] rs))

  -- The largest count of the map of a list that is not empty: no key is counted more often, and
  -- one is counted as often.
  pub largest_lem :
      (key : ParsedRecord → K) (rs : List ParsedRecord)
      → 0 < length rs
      → ((k : K) → count_of key k rs ≤ largest (tally_from key [] rs))
        × ((k : K) × (count_of key k rs ≡ largest (tally_from key [] rs)))
  largest_lem key [] pos = absurd (omega arith)
  largest_lem key (r ∷ rs) pos =
      let (k, le) =
        largest_attained (λ j. 0 + count_of key j (r ∷ rs)) (tally_from key [] (r ∷ rs))
          (Bounded-tally_from key (λ j. 0) [] (r ∷ rs) tt)
          (ground (arith, count_of-le-largest key (r ∷ rs) (key r), e.same_iff (key r) (key r))) in
      (count_of-le-largest key (r ∷ rs), (k, omega (arith, count_of-le-largest key (r ∷ rs) k)))

  length-plus_one : (k : K) (m : List (K × ℕ)) → length (plus_one k m) ≤ length m + 1
  unfolding plus_one
  length-plus_one k [] = omega arith
  length-plus_one k ((j, n) ∷ m) = ground (arith, length-plus_one k m)

  -- There are no more keys than records.
  pub length-tally_from :
      (key : ParsedRecord → K) (m : List (K × ℕ)) (rs : List ParsedRecord)
      → length (tally_from key m rs) ≤ length m + length rs
  unfolding tally_from
  length-tally_from key m [] = omega arith
  length-tally_from key m (r ∷ rs) =
      omega (arith, length-tally_from key (plus_one (key r) m) rs, length-plus_one (key r) m)
