-- ===== src/Pipeline/Stages/Short.antt =====
-- What PRISM/src/main.cpp makes of traffic that ends before the first window does.
use prism_dev.Common.{◌+◌, ◌≡◌, refl, arith, false, List, [], ◌∷◌, ℕ, ◌<◌}
use prism_dev.Double.{Double}
use prism_dev.Packet.{ParsedRecord}
use prism_dev.Features.{Iteration}
use prism_dev.Enforcement.{Net}
use prism_dev.Windowing.{WindowManager, ms, new, add_record}
use prism_dev.Windowing.First.{Before, Gathers, first-Gathers, next-Gathers}
use prism_dev.Pipeline.{Poll, fallback, start}
use prism_dev.Pipeline.Stages.{kept, assessed, decisions, calls, decided, called}
use prism_dev.Pipeline.Stages.Agree.{fallback-Agrees}
use prism_dev.Pipeline.Stages.First.{records_of}
use prism_dev.Risk
use prism_dev.Enforcement.Debounce

gathering :
    (rs : List (ParsedRecord × Net)) (m : WindowManager) (end : ℕ) (taken : List ParsedRecord)
    → Gathers m end taken
    → Before end m.last_time (records_of rs)
    → assessed m rs ≡ []
unfolding assessed
gathering [] m end taken g h = refl
gathering ((q, n) ∷ rs) m end taken g h =
    let (quiet, last, g') = next-Gathers m end taken q g h.0 h.1 in
    rw quiet (gathering rs (add_record m q).0 end _ g' (rw last h.2))

short-assessed :
    (w s : ℕ) (r : ParsedRecord) (n : Net) (rs : List (ParsedRecord × Net))
    → 0 < w
    → Before (r.timestamp + ms w) r.timestamp (records_of rs)
    → assessed (new w s) ((r, n) ∷ rs) ≡ []
unfolding assessed
short-assessed w s r n rs pos h =
    let (quiet, last, g) = first-Gathers w s r pos in
    rw quiet (gathering rs (add_record (new w s) r).0 _ _ g (rw last h))

module _ {ℓ} (W : Type ℓ) ⦃d : Double W⦄ (it : Iteration) where
  -- Of a new monitor: if the records that it keeps, up to a stop, come in the order of their times
  -- and all less than five seconds after the first, then none of them is ever assessed, however many
  -- writes there are: no decision is made, no socket is called, and the alarm and the flag of the
  -- enforcer are off at the end.
  pub short_unseen :
      (es : List Poll) (r : ParsedRecord) (n : Net) (rs : List (ParsedRecord × Net))
      → kept es ≡ (r, n) ∷ rs
      → Before (r.timestamp + ms 5000) r.timestamp (records_of rs)
      → let (last, steps) = fallback {W = W} it start es in
        (decided steps ≡ []) × (called steps ≡ []) × (last.is_on ≡ false) × (last.locked ≡ false)
  unfolding start decisions calls Risk.run Debounce.run
  short_unseen es r n rs e h =
      let (manager, flag, lock, ds, cs) = fallback-Agrees W it es start in
      let none_ : assessed start.manager (kept es) ≡ [] =
        rw e (short-assessed 5000 1000 r n rs (omega arith) h) in
      (rw none_ at ds, rw none_ at cs, rw none_ at flag, rw none_ at lock)
