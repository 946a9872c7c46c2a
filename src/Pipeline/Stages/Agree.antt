-- ===== src/Pipeline/Stages/Agree.antt =====
-- The loop of PRISM/src/main.cpp against its stages one by one.
use mathlib.Core.Path.{subst}
use prism_dev.Common.{
  ◌≡◌, refl, ap, List, [], ◌∷◌, ◌++◌, Option, none, some, map, length, ◌==◌, Bool-cases, inl, inr,
  if◌then◌else◌,
}
use prism_dev.Double.{Double}
use prism_dev.Packet.{RawPacket, ParsedRecord, Window, Proto, unknown, modbus, dnp3, iec104}
use prism_dev.Parser.Classifier.{classify_protocol}
use prism_dev.Windowing.{WindowManager, add_record, feed}
use prism_dev.Features.{Iteration}
use prism_dev.Risk
use prism_dev.Enforcement.{Net, apply}
use prism_dev.Socket.{Effect}
use prism_dev.Enforcement.Debounce
use prism_dev.Pipeline.{
  Monitor, Step, Poll, stopped, no_packet, arrived, after_record, assess, dropped, observe,
  handle_as, process, fallback, parse_as, is_dropped,
}
use prism_dev.Pipeline.Stages.{
  kept, kept_as, and_kept, parsed, assessed, and_assessed, Assessment, result_of, decisions, calls,
  decided, called,
}

module _ {ℓ} (W : Type ℓ) ⦃d : Double W⦄ (it : Iteration) where
  -- From the state `m`, on the records `rs` and the windows `as'`, the loop ends as the stages do.
  abbrev pub Agrees :
      Monitor → List (ParsedRecord × Net) → List Assessment → Monitor × List (Step W) → Type ℓ
  Agrees m rs as' (last, steps) =
      let found = map (result_of {W = W} it) as' in
      let decided_on = decisions {W = W} it m.is_on as' in
      (last.manager ≡ feed m.manager (map (λ r. r.0) rs))
      × (last.is_on ≡ Risk.run m.is_on found)
      × (last.locked ≡ Debounce.run m.locked decided_on)
      × (decided steps ≡ map (λ p. p.0) decided_on)
      × (called steps ≡ calls m.locked decided_on)

  after_record-Agrees :
      (m : Monitor) (r : ParsedRecord) (net : Net) (w : Option Window)
      (rs : List (ParsedRecord × Net)) (as' : List Assessment) (last : Monitor)
      (steps : List (Step W))
      → let (m', step) = after_record {W = W} it m r w net in
        Agrees m' rs as' (last, steps) → Agrees m rs (and_assessed r net w as') (last, step ∷ steps)
  unfolding result_of after_record assess Risk.run Debounce.run decisions calls
  after_record-Agrees m r net none rs as' last steps h = h
  after_record-Agrees m r net (some w) rs as' last steps h =
      elim (Bool-cases (length w.records == 0)) [
        | inl bare ↦ rw bare (rw bare at h)
        | inr filled ↦
            let (manager, flag, lock, ds, cs) = rw filled at h in
            let (on, decision) =
              Risk.evaluate m.is_on
                (result_of {W = W} it (record { shown = r; window = w; net = net })) in
            rw filled (
              manager,
              flag,
              lock,
              ap (λ (xs : List (Risk.RiskDecision W)). decision ∷ xs) ds,
              ap (λ (xs : List Effect). (apply m.locked decision net).2 ++ xs) cs,
            )
      ]

  -- Behind the window manager nothing touches it.
  after_record-manager :
      (m : Monitor) (r : ParsedRecord) (w : Option Window) (net : Net)
      → (after_record {W = W} it m r w net).0.manager ≡ m.manager
  unfolding after_record assess
  after_record-manager m r none net = refl
  after_record-manager m r (some w) net = elim (Bool-cases (length w.records == 0)) [
    | inl bare ↦ rw bare refl
    | inr filled ↦ rw filled refl
  ]

  observe-manager :
      (m : Monitor) (r : ParsedRecord) (net : Net)
      → (observe {W = W} it m r net).0.manager ≡ (add_record m.manager r).0
  unfolding observe
  observe-manager m r net =
      let (manager, w) = add_record m.manager r in
      after_record-manager (record m { manager = manager }) r w net

  observe-Agrees :
      (m : Monitor) (r : ParsedRecord) (net : Net) (rs : List (ParsedRecord × Net)) (last : Monitor)
      (steps : List (Step W))
      → let (m', step) = observe {W = W} it m r net in
        Agrees m' rs (assessed m'.manager rs) (last, steps)
        → Agrees m ((r, net) ∷ rs) (assessed m.manager ((r, net) ∷ rs)) (last, step ∷ steps)
  unfolding observe assessed feed
  observe-Agrees m r net rs last steps h =
      let (manager, w) = add_record m.manager r in
      after_record-Agrees (record m { manager = manager }) r net w rs (assessed manager rs) last
        steps
        (subst
          (λ (k : WindowManager).
            Agrees (observe {W = W} it m r net).0 rs (assessed k rs) (last, steps))
          (observe-manager m r net) h)

  parsed-Agrees :
      (m : Monitor) (r : ParsedRecord) (net : Net) (rs : List (ParsedRecord × Net)) (last : Monitor)
      (steps : List (Step W))
      → let (m', step) = if is_dropped r then (m, dropped) else observe {W = W} it m r net in
        Agrees m' rs (assessed m'.manager rs) (last, steps)
        → let rs' = and_kept (kept_as r) net rs in
          Agrees m rs' (assessed m.manager rs') (last, step ∷ steps)
  parsed-Agrees m r net rs last steps h = elim (Bool-cases (is_dropped r)) [
    | inl bad ↦ rw bad (rw bad at h)
    | inr good ↦ rw good (observe-Agrees m r net rs last steps (rw good at h))
  ]

  handle_as-Agrees :
      (proto : Proto) (m : Monitor) (packet : RawPacket) (net : Net)
      (rs : List (ParsedRecord × Net)) (last : Monitor) (steps : List (Step W))
      → let (m', step) = handle_as {W = W} it proto m packet net in
        Agrees m' rs (assessed m'.manager rs) (last, steps)
        → let rs' = and_kept (kept_as (parse_as proto packet)) net rs in
          Agrees m rs' (assessed m.manager rs') (last, step ∷ steps)
  unfolding handle_as parse_as is_dropped
  handle_as-Agrees unknown m packet net rs last steps h = h
  handle_as-Agrees modbus m packet net rs last steps h =
      parsed-Agrees m (parse_as modbus packet) net rs last steps h
  handle_as-Agrees dnp3 m packet net rs last steps h =
      parsed-Agrees m (parse_as dnp3 packet) net rs last steps h
  handle_as-Agrees iec104 m packet net rs last steps h =
      parsed-Agrees m (parse_as iec104 packet) net rs last steps h

  -- Handling the packets one by one up to a stop is the same as running the stages one after
  -- another, each on all that the stage before it made, from the same state: the window manager
  -- ends as it does on the kept records; the flag of the risk model and that of the enforcer end as
  -- they do on the windows that are not empty; and the decisions and the calls of sockets are those
  -- that the two make on these windows, in their order.
  pub fallback-Agrees :
      (es : List Poll) (m : Monitor)
      → Agrees m (kept es) (assessed m.manager (kept es)) (fallback {W = W} it m es)
  unfolding fallback kept parsed process assessed decisions calls feed Risk.run Debounce.run
  fallback-Agrees [] m = (refl, refl, refl, refl, refl)
  fallback-Agrees (stopped ∷ es) m = (refl, refl, refl, refl, refl)
  fallback-Agrees (no_packet ∷ es) m = fallback-Agrees es m
  fallback-Agrees (arrived packet net ∷ es) m =
      let (m', step) = process {W = W} it m packet net in
      let (last, steps) = fallback {W = W} it m' es in
      handle_as-Agrees (classify_protocol packet) m packet net (kept es) last steps
        (fallback-Agrees es m')
