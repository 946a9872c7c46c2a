-- ===== src/Pipeline/Stages/Sustained.antt =====
-- What PRISM/src/main.cpp assesses while writes keep coming.
use mathlib.Core.List.Memᴰ.{Memᴰ}
use prism_dev.Common.{
  ℕ, ap, ◌+◌, ◌≤◌, ◌<◌, ◌≡◌, refl, arith, false, List, [], ◌∷◌, Option, some, none, length,
  length-append, count_if, ltb, ◌==◌, Bool-cases, inl, inr,
}
use prism_dev.Packet.{ParsedRecord, Window}
use prism_dev.Enforcement.{Net}
use prism_dev.Enforcement.Debounce.{Reaches}
use prism_dev.Windowing.{WindowManager, ms, new, add_record}
use prism_dev.Windowing.Sustained.{
  WritesAfter, Sustains, first-Sustains, early-Sustains, due-Sustains, due_window,
}
use prism_dev.Windowing.History.{add_record_sizes}
use prism_dev.Pipeline.Stages.{Assessment, assessed, and_assessed}

-- The records come in order, each at most `gap` after the one before, the first after the time `last`;
-- and later than `since` there are writes only, and the network carries a request at each of them.
abbrev pub Besieges : ℕ → ℕ → ℕ → List (ParsedRecord × Net) → Type 0
Besieges since gap last [] = Unit {0}
Besieges since gap last ((r, net) ∷ rs) =
    (last ≤ r.timestamp)
    × (r.timestamp ≤ last + gap)
    × WritesAfter since r
    × (since < r.timestamp → Reaches net)
    × Besieges since gap r.timestamp rs

-- The time of the last record.
abbrev pub last_of : ℕ → List (ParsedRecord × Net) → ℕ
last_of last [] = last
last_of last ((r, net) ∷ rs) = last_of r.timestamp rs

-- An assessment of fewer than `n` records, all of them writes, at a time when the network carries a
-- request.
abbrev pub Sees : ℕ → List Assessment → Type 0
Sees n as' =
    (a : Assessment) × Memᴰ a as'
    × (0 < length a.window.records)
    × (length a.window.records ≤ n)
    × (count_if (λ r. r.is_write) a.window.records ≡ length a.window.records)
    × Reaches a.net

Sees-and_assessed :
    (n : ℕ) (r : ParsedRecord) (net : Net) (o : Option Window) (as' : List Assessment)
    → Sees n as'
    → Sees n (and_assessed r net o as')
Sees-and_assessed n r net none as' h = h
Sees-and_assessed n r net (some w) as' h = elim (Bool-cases (length w.records == 0)) [
  | inl bare ↦ rw bare h
  | inr filled ↦ rw filled (h.0, Memᴰ.tail h.1, h.2, h.3, h.4, h.5)
]

Sees-window :
    (n : ℕ) (r : ParsedRecord) (net : Net) (w : Window) (as' : List Assessment)
    → 0 < length w.records
    → length w.records ≤ n
    → count_if (λ q. q.is_write) w.records ≡ length w.records
    → Reaches net
    → Sees n (and_assessed r net (some w) as')
Sees-window n r net w as' pos le all reach =
    let filled : (length w.records == 0) ≡ false = ground arith in
    rw filled (record { shown = r; window = w; net = net }, Memᴰ.head refl, pos, le, all, reach)

sustained :
    (since n : ℕ) (rs : List (ParsedRecord × Net)) (m : WindowManager)
    → Sustains since m
    → Besieges since (ms m.step_size) m.last_time rs
    → since + ms m.window_size + ms m.step_size < last_of m.last_time rs
    → length m.buffer + length rs ≤ n
    → Sees n (assessed m rs)
unfolding assessed
sustained since n [] m i h late size = absurd (omega (arith, i.up, i.near))
sustained since n ((r, net) ∷ rs) m i (le, close, mark, reach, h) late size =
    let m' = (add_record m r).0 in
    let (same_window, same_step) = add_record_sizes m r in
    let later : Sustains since m'
        → m'.last_time ≡ r.timestamp
        → length m'.buffer ≤ length m.buffer + 1
        → Sees n (assessed m' rs) =
      λ i' last small.
        sustained since n rs m' i' (rw (same_step, last) h) (rw (same_window, same_step, last) late)
          (omega (arith, small)) in
    elim (Bool-cases (ltb r.timestamp m.next_emit_time)) [
      | inl early ↦
          let (quiet, last, step, buffer, i') = early-Sustains since m r i le (ground arith) mark in
          rw quiet
            (later i' last (omega (arith, ap length buffer, length-append m.buffer (r ∷ []))))
      | inr due ↦ elim (Bool-cases (ltb (since + ms m.window_size) m.next_emit_time)) [
        | inl found ↦
            let (w, emitted, pos, small, all) =
              due_window since m r i le close (ground arith) (ground arith) mark in
            rw emitted
              (Sees-window n r net w (assessed m' rs) pos (omega arith) all (reach (ground arith)))
        | inr more ↦
            let (last, step, small, i') =
              due-Sustains since m r i le close (ground arith) (ground arith) mark in
            Sees-and_assessed n r net (add_record m r).1 (assessed m' rs) (later i' last small)
      ]
    ]

-- Where the records come in order and at most one step apart, from `since` on are writes only, and go
-- on for a window and a step after `since`, a window with writes only is assessed.
pub sustained-Sees :
    (w s since : ℕ) (r : ParsedRecord) (net : Net) (rs : List (ParsedRecord × Net))
    → 0 < w
    → s ≤ w
    → r.timestamp ≤ since
    → Besieges since (ms s) r.timestamp rs
    → since + ms w + ms s < last_of r.timestamp rs
    → Sees (length ((r, net) ∷ rs)) (assessed (new w s) ((r, net) ∷ rs))
unfolding assessed new
sustained-Sees w s since r net rs pos fits le h late =
    let (quiet, last, step, one, i) = first-Sustains w s since r pos fits le in
    let (same_window, same_step) = add_record_sizes (new w s) r in
    rw quiet (
      sustained since (length ((r, net) ∷ rs)) rs (add_record (new w s) r).0 i (rw (step, last) h)
        (rw (same_window, step, last) late) (omega (arith, one)))
