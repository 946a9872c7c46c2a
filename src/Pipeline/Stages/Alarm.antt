-- ===== src/Pipeline/Stages/Alarm.antt =====
-- What the windows that PRISM/src/main.cpp assesses make of the alarm and of the lock.
use mathlib.Core.Path.{subst}
use mathlib.Core.List.{Memᴰ}
use prism_dev.Common.{◌≡◌, refl, ap, ◌∙◌, arith, Bool, true, false, List, [], ◌∷◌, ◌++◌, All, map}
use prism_dev.Double.{Double, ◌≼◌, IsOrdered}
use prism_dev.Packet.{high}
use prism_dev.Features.{Iteration}
use prism_dev.Risk
use prism_dev.Risk.{DetectionResult, RiskDecision, probability_of, evaluate, switch, decide_level}
use prism_dev.Risk.Hysteresis.{evaluate-signal_of, evaluate_levels}
use prism_dev.Enforcement.{Net, apply}
use prism_dev.Enforcement.Debounce
use prism_dev.Enforcement.Debounce.{Reaches, apply_lem, never_again}
use prism_dev.Pipeline.{Effect, Poll, fallback, start}
use prism_dev.Pipeline.Stages.{kept, assessed, Assessment, result_of, decisions, calls, called}
use prism_dev.Pipeline.Stages.Agree.{fallback-Agrees}

-- A probability at the threshold or above switches the alarm on, or keeps it on.
pub loud_evaluate {ℓ} :
    {W : Type ℓ} ⦃d : Double W⦄ (laws : IsOrdered W) (is_on : Bool) (r : DetectionResult W)
    → d.lit 7 1 ≼ probability_of r
    → let (on, decision) = evaluate is_on r in
      (on ≡ true) × (decision.level ≡ high) × (decision.restrict_writes ≡ true)
loud_evaluate laws is_on r loud =
    let on : (evaluate is_on r).0 ≡ true = rw (evaluate-signal_of laws is_on r, loud) refl in
    let levels = evaluate_levels is_on r in (on, levels.0.1 on, rw (levels.1) on)

module _ {ℓ} (W : Type ℓ) ⦃d : Double W⦄ (it : Iteration) where
  -- A window whose probability is at the threshold that switches the alarm on, or above.
  abbrev pub IsLoud : Assessment → Type 0
  IsLoud a = d.lit 7 1 ≼ probability_of (result_of {W = W} it a)

  abbrev pub IsCalm : Assessment → Type 0
  IsCalm a = d.le (d.lit 7 1) (probability_of (result_of {W = W} it a)) ≡ false

  calm_round :
      (r : DetectionResult W) (is_on locked : Bool) (net : Net)
      → is_on ≡ false
      → d.le (d.lit 7 1) (probability_of r) ≡ false
      → let (on, decision) = evaluate is_on r in
        (on ≡ false)
        × ((apply locked decision net).0 ≡ locked)
        × ((apply locked decision net).2 ≡ [])
  unfolding evaluate switch decide_level apply
  calm_round r is_on locked net off h = ground arith

  calm_run :
      (as' : List Assessment) (is_on locked : Bool)
      → is_on ≡ false
      → All IsCalm as'
      → (Risk.run is_on (map (result_of {W = W} it) as') ≡ false)
        × (Debounce.run locked (decisions {W = W} it is_on as') ≡ locked)
        × (calls locked (decisions {W = W} it is_on as') ≡ [])
  unfolding Risk.run Debounce.run decisions calls
  calm_run [] is_on locked off h = (off, refl, refl)
  calm_run (a ∷ as') is_on locked off h =
      let (on, decision) = evaluate is_on (result_of {W = W} it a) in
      let (locked', text, effects) = apply locked decision a.net in
      let (still, same, quiet) = calm_round (result_of {W = W} it a) is_on locked a.net off h.0 in
      let (flag, lock, none_made) = calm_run as' on locked' still h.1 in
      (
        flag,
        lock ∙ same,
        ap (λ (es : List Effect). es ++ calls locked' (decisions {W = W} it on as')) quiet
            ∙ none_made,
      )

  module _ (laws : IsOrdered W) where
    loud_round :
        (is_on locked : Bool) (r : DetectionResult W) (net : Net)
        → d.lit 7 1 ≼ probability_of r
        → Reaches net
        → (apply locked (evaluate is_on r).1 net).0 ≡ true
    loud_round is_on locked r net loud reach =
        let (on, level, restricts) = loud_evaluate laws is_on r loud in
        let lem = apply_lem locked (evaluate is_on r).1 net in
        ground (arith, on, level, restricts, lem, reach)

    stays_locked :
        (rounds : List (RiskDecision W × Net)) (locked : Bool)
        → locked ≡ true
        → Debounce.run locked rounds ≡ true
    stays_locked rounds locked set = rw set (never_again rounds).0

    pub loud_run :
        (as' : List Assessment) (is_on locked : Bool) (a : Assessment)
        → Memᴰ a as'
        → IsLoud a
        → Reaches a.net
        → Debounce.run locked (decisions {W = W} it is_on as') ≡ true
    unfolding Debounce.run decisions
    loud_run [] is_on locked a h loud reach = elim h [ ]
    loud_run (b ∷ as') is_on locked a (Memᴰ.head e) loud reach =
        stays_locked (decisions {W = W} it (evaluate is_on (result_of {W = W} it b)).0 as') _ (
          loud_round is_on locked (result_of {W = W} it b) b.net (subst IsLoud e loud)
            (subst (λ (c : Assessment). Reaches c.net) e reach))
    loud_run (b ∷ as') is_on locked a (Memᴰ.tail h) loud reach =
        let (on, decision) = evaluate is_on (result_of {W = W} it b) in
        loud_run as' on (apply locked decision b.net).0 a h loud reach

  -- Of a new monitor: if no window that it assesses, up to a stop, has a probability of 0.7 or
  -- more, then the alarm and the flag of the enforcer are off at the end, and no socket was ever
  -- called.
  pub fallback_calm :
      (es : List Poll)
      → All IsCalm (assessed start.manager (kept es))
      → let (last, steps) = fallback {W = W} it start es in
        (last.is_on ≡ false) × (last.locked ≡ false) × (called steps ≡ [])
  unfolding start
  fallback_calm es h =
      let (manager, flag, lock, ds, cs) = fallback-Agrees W it es start in
      let (off, open_lock, none_made) =
        calm_run (assessed start.manager (kept es)) false false refl h in
      (flag ∙ off, lock ∙ open_lock, cs ∙ none_made)
