-- ===== src/Detection/Laws.antt =====
-- The detectors of PRISM/src/detection on the features of a window.
use prism_dev.Common.{◌≡◌, arith}
use prism_dev.Double.{Double}
use prism_dev.Packet.{Window}
use prism_dev.Features.{Iteration, compute}
use prism_dev.Features.Laws.{feature, compute_size}
use prism_dev.Detection.{hst_score, burst_score, base_sigma, epsilon}

module _ {ℓ} {W : Type ℓ} ⦃d : Double W⦄ where
  -- On the features of any window, with records or without, the tree score is the weighted sum of
  -- feature 1, feature 2, and the product of the features 3 and 1; the burst score is the distance
  -- of the square of feature 6 from the square of its base, over the sum of epsilon and the base.
  pub scores_lem :
      (it : Iteration) (w : Window)
      → (hst_score (compute {W = W} it w)
          ≡ d.add
              (d.add (d.mul (feature it w 1) (d.lit 500 1)) (d.mul (feature it w 2) (d.lit 25 1)))
              (d.mul (d.mul (feature it w 3) (feature it w 1)) (d.lit 200 1)))
        × (burst_score (compute {W = W} it w)
            ≡ d.div
                (d.abs
                  (d.sub (d.mul (feature it w 6) (feature it w 6)) (d.mul base_sigma base_sigma)))
                (d.add epsilon base_sigma))
  unfolding hst_score burst_score
  scores_lem it w = ground (arith, (compute_size {W = W} it w).0)

module _ {ℓ} (W : Type ℓ) ⦃d : Double W⦄ where
  -- Two windows whose features 1, 2, 3 and 6 are the same have the same scores, whatever the number
  -- of their records and the mean of the gaps between them are.
  scores_blind :
      (it : Iteration) (v w : Window)
      → feature {W = W} it v 1 ≡ feature it w 1
      → feature {W = W} it v 2 ≡ feature it w 2
      → feature {W = W} it v 3 ≡ feature it w 3
      → feature {W = W} it v 6 ≡ feature it w 6
      → (hst_score (compute {W = W} it v) ≡ hst_score (compute {W = W} it w))
        × (burst_score (compute {W = W} it v) ≡ burst_score (compute {W = W} it w))
  scores_blind it v w e1 e2 e3 e6 =
      let (hst_v, burst_v) = scores_lem {W = W} it v in
      let (hst_w, burst_w) = scores_lem {W = W} it w in (cc, cc)
