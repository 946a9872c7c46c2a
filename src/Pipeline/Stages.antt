-- ===== src/Pipeline/Stages.antt =====
-- PRISM/src/main.cpp stage by stage: what each stage makes of all that the stage before it made, as
-- the loop would do if it held back every result until the stop.
use prism_dev.Common.{
  ℕ, Bool, List, [], ◌∷◌, ◌++◌, Option, none, some, map, length, ◌==◌, if◌then◌else◌,
}
use prism_dev.Double.{Double}
use prism_dev.Packet.{RawPacket, ParsedRecord, Window}
use prism_dev.Parser.Classifier.{classify_protocol}
use prism_dev.Windowing.{WindowManager, add_record}
use prism_dev.Features.{Iteration, compute}
use prism_dev.Detection.{hst_score, burst_score}
use prism_dev.Risk.{DetectionResult, RiskDecision, fuse, evaluate}
use prism_dev.Enforcement.{Net, apply}
use prism_dev.Socket.{Effect}
use prism_dev.Pipeline.{Poll, stopped, no_packet, arrived, Step, alerted, parse_as, is_dropped}
pub mod Agree
pub mod Alarm
pub mod Writes
pub mod Short
pub mod Sustained
pub mod Quiet
pub mod First
pub mod Spread

-- The record of a packet that is not dropped.
abbrev pub kept_as : ParsedRecord → Option ParsedRecord
kept_as r = if is_dropped r then none else some r

unfoldable pub parsed : RawPacket → Option ParsedRecord
parsed packet = kept_as (parse_as (classify_protocol packet) packet)

abbrev pub and_kept :
    Option ParsedRecord → Net → List (ParsedRecord × Net) → List (ParsedRecord × Net)
and_kept none net rs = rs
and_kept (some r) net rs = (r, net) ∷ rs

-- The records up to the stop, each with the network of its packet.
unfoldable pub kept : List Poll → List (ParsedRecord × Net)
unfolding parsed
kept [] = []
kept (stopped ∷ es) = []
kept (no_packet ∷ es) = kept es
kept (arrived packet net ∷ es) = and_kept (parsed packet) net (kept es)

-- A window that is assessed, with the record that made it be emitted.
pub record Assessment : Type 0 where
  pub shown : ParsedRecord
  pub window : Window
  pub net : Net

abbrev pub and_assessed : ParsedRecord → Net → Option Window → List Assessment → List Assessment
and_assessed r net none as' = as'
and_assessed r net (some w) as' =
    if length w.records == 0 then as' else record { shown = r; window = w; net = net } ∷ as'

-- The windows with a record in them.
unfoldable pub assessed : WindowManager → List (ParsedRecord × Net) → List Assessment
assessed m [] = []
assessed m ((r, net) ∷ rs) = let (m', w) = add_record m r in and_assessed r net w (assessed m' rs)

module _ {ℓ} {W : Type ℓ} ⦃d : Double W⦄ (it : Iteration) where
  unfoldable pub result_of : Assessment → DetectionResult W
  result_of a = let fv = compute {W = W} it a.window in fuse (hst_score fv) (burst_score fv)

  -- The decisions, from the flag of the risk model on.
  unfoldable pub decisions : Bool → List Assessment → List (RiskDecision W × Net)
  decisions is_on [] = []
  decisions is_on (a ∷ as') =
      let (on, decision) = evaluate is_on (result_of a) in (decision, a.net) ∷ decisions on as'

module _ {ℓ} {W : Type ℓ} where
  -- The calls of sockets that the enforcer makes, from its flag on.
  unfoldable pub calls : Bool → List (RiskDecision W × Net) → List Effect
  calls locked [] = []
  calls locked ((decision, net) ∷ rest) =
      let (locked', text, effects) = apply locked decision net in effects ++ calls locked' rest

  -- What the loop has decided, and the calls that it has made.
  abbrev pub decided : List (Step W) → List (RiskDecision W)
  decided [] = []
  decided (alerted a ∷ ss) = a.decision ∷ decided ss
  decided (_ ∷ ss) = decided ss

  abbrev pub called : List (Step W) → List Effect
  called [] = []
  called (alerted a ∷ ss) = a.effects ++ called ss
  called (_ ∷ ss) = called ss
