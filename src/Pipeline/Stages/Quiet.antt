-- ===== src/Pipeline/Stages/Quiet.antt =====
-- What PRISM/src/main.cpp makes of traffic without a write.
use prism_dev.Common.{
  ◌≡◌, refl, ◌<◌, ◌^◌, arith, true, false, List, [], ◌∷◌, All, length, Option, none, some, ◌==◌,
  Bool-cases, inl, inr,
}
use prism_dev.Double.{Double, ◌≼◌, IsExact, IsOrdered, IsMonotone, IsWeighted, IsSpread, IsQuiet}
use prism_dev.Packet.{ParsedRecord, Window}
use prism_dev.Features.{Iteration, compute}
use prism_dev.Features.Laws.{IsIteration, feature}
use prism_dev.Features.Quiet.{IsRead, features_of_reads}
use prism_dev.Detection.{hst_score, burst_score, base_sigma, epsilon}
use prism_dev.Detection.Laws.{scores_lem}
use prism_dev.Risk.{DetectionResult, sigmoid, max_double, probability_of, fuse}
use prism_dev.Risk.Monotone.{sigmoid_mono}
use prism_dev.Enforcement.{Net}
use prism_dev.Windowing.{WindowManager, add_record, new}
use prism_dev.Windowing.Members.{All-add_record, All-window}
use prism_dev.Pipeline.{Poll, fallback, start}
use prism_dev.Pipeline.Stages.{Assessment, kept, assessed, and_assessed, result_of, called}
use prism_dev.Pipeline.Stages.Alarm.{IsCalm, fallback_calm}

-- A window with a record in it, and without a write.
abbrev pub IsReading : Assessment → Type 0
IsReading a = (0 < length a.window.records) × All IsRead a.window.records

and_assessed-IsReading :
    (r : ParsedRecord) (net : Net) (o : Option Window) (as' : List Assessment)
    → ((w : Window) → o ≡ some w → All IsRead w.records)
    → All IsReading as'
    → All IsReading (and_assessed r net o as')
and_assessed-IsReading r net none as' h k = k
and_assessed-IsReading r net (some w) as' h k = elim (Bool-cases (length w.records == 0)) [
  | inl bare ↦ rw bare k
  | inr filled ↦ let pos : 0 < length w.records = ground arith in rw filled ((pos, h w refl), k)
]

-- The windows that are assessed hold reads only, where the manager was given reads only.
assessed-IsReading :
    (rs : List (ParsedRecord × Net)) (m : WindowManager)
    → All IsRead m.buffer
    → All (λ r. IsRead r.0) rs
    → All IsReading (assessed m rs)
unfolding assessed
assessed-IsReading [] m h k = tt
assessed-IsReading ((r, net) ∷ rs) m h k =
    let (m', w) = add_record m r in
    and_assessed-IsReading r net w (assessed m' rs) (λ v e. All-window IsRead m r h k.0 e)
      (assessed-IsReading rs m' (All-add_record IsRead m r h k.0) k.1)

module _ {ℓ} (W : Type ℓ) ⦃d : Double W⦄ (it : Iteration) where
  -- A window of fewer than 2^31 records whose gaps deviate by 0.8 at most.
  abbrev pub IsSteady : Assessment → Type 0
  IsSteady a =
      (length a.window.records < 2 ^ 31)
      × (d.lit 0 1 ≼ feature it a.window 6)
      × (feature it a.window 6 ≼ d.lit 8 1)

module _ {ℓ} (W : Type ℓ) ⦃d : Double W⦄ (exact : IsExact W) (order : IsOrdered W)
    (mono : IsMonotone W) (weighted : IsWeighted W) (spread : IsSpread W) (quiet : IsQuiet W) where
  open order use {le_trans, lt_of_le_lt, lt_irrefl}
  open mono use {div_ten}
  open spread use {div_base}
  open quiet use {
    no_weight, no_spray, code_weight, low_sum, low_square, low_distance, quiet_tree, quiet_burst,
  }

  not_le : (p : W) → d.lt p (d.lit 7 1) ≡ true → d.le (d.lit 7 1) p ≡ false
  not_le p h = ground (arith, lt_of_le_lt (d.lit 7 1) p (d.lit 7 1), lt_irrefl (d.lit 7 1))

  quiet_score :
      (r : DetectionResult W)
      → r.hst_score ≼ d.lit 25 1
      → r.burst_score
        ≼ d.div
            (d.abs (d.sub (d.mul (d.lit 8 1) (d.lit 8 1)) (d.mul base_sigma base_sigma)))
            (d.add epsilon base_sigma)
      → d.le (d.lit 7 1) (probability_of r) ≡ false
  unfolding probability_of sigmoid
  quiet_score r h b =
      let x = sigmoid (d.div r.hst_score (d.lit 100 1)) in
      let y = sigmoid (d.div r.burst_score (d.lit 100 1)) in
      let limit = d.lit 7 1 in
      let x_low : d.lt x limit ≡ true =
        lt_of_le_lt x _ limit (sigmoid_mono order mono _ _ (div_ten _ _ h)) quiet_tree in
      let y_low : d.lt y limit ≡ true =
        lt_of_le_lt y _ limit (sigmoid_mono order mono _ _ (div_ten _ _ b)) quiet_burst in
      not_le (max_double x y) (ground (arith, x_low, y_low))

  module _ (it : Iteration) (once : IsIteration it) where
    hst_score_of_reads :
        (w : Window)
        → 0 < length w.records
        → length w.records < 2 ^ 31
        → All IsRead w.records
        → hst_score (compute {W = W} it w) ≼ d.lit 25 1
    hst_score_of_reads w pos small reads =
        let (f1, f2, f3_low, (k, room, f3_high)) =
          features_of_reads W exact order weighted quiet it once w pos small reads in
        rw ((scores_lem {W = W} it w).0, f1)
          (low_sum _ _ _ no_weight (code_weight _ f2) (no_spray _ k (omega arith) f3_low f3_high))

    burst_score_of_steady :
        (w : Window)
        → d.lit 0 1 ≼ feature it w 6
        → feature it w 6 ≼ d.lit 8 1
        → burst_score (compute {W = W} it w)
          ≼ d.div
              (d.abs (d.sub (d.mul (d.lit 8 1) (d.lit 8 1)) (d.mul base_sigma base_sigma)))
              (d.add epsilon base_sigma)
    burst_score_of_steady w low high =
        let (square_low, square_high) = low_square (feature it w 6) low high in
        rw (scores_lem {W = W} it w).1 (div_base _ _ (low_distance _ square_low square_high))

    reading-IsCalm : (a : Assessment) → IsReading a → IsSteady W it a → IsCalm W it a
    unfolding result_of fuse
    reading-IsCalm a (pos, reads) (small, low, high) =
        quiet_score (result_of {W = W} it a) (hst_score_of_reads a.window pos small reads)
          (burst_score_of_steady a.window low high)

    All-IsCalm :
        (as' : List Assessment)
        → All IsReading as'
        → All (IsSteady W it) as'
        → All (IsCalm W it) as'
    All-IsCalm [] h k = tt
    All-IsCalm (a ∷ as') h k = (reading-IsCalm a h.0 k.0, All-IsCalm as' h.1 k.1)

    -- Where counts are exact and `double` meets IsOrdered, IsMonotone, IsWeighted, IsSpread and
    -- IsQuiet, of a new monitor: if no record that it keeps, up to a stop, is a write, and every
    -- window that it assesses has fewer than 2^31 records and gaps that deviate by 0.8 at most, then
    -- the alarm and the flag of the enforcer are off at the end, and no socket was ever called.
    pub reads_unlocked :
        (es : List Poll)
        → All (λ r. IsRead r.0) (kept es)
        → All (IsSteady W it) (assessed start.manager (kept es))
        → let (last, steps) = fallback {W = W} it start es in
          (last.is_on ≡ false) × (last.locked ≡ false) × (called steps ≡ [])
    unfolding start new
    reads_unlocked es reads steady = fallback_calm W it es (
        All-IsCalm (assessed start.manager (kept es))
          (assessed-IsReading (kept es) start.manager tt reads) steady)
