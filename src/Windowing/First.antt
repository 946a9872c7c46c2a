-- ===== src/Windowing/First.antt =====
-- The first window that PRISM/src/window/window_manager.cpp emits.
use mathlib.Core.List.{append-nil}
use prism_dev.Common.{
  ℕ, ◌+◌, ◌-◌, ◌≤◌, ◌<◌, ◌≡◌, refl, ap, ◌∙◌, arith, true, false, List, [], ◌∷◌, ◌++◌, none, some,
  keep, ltb, leb, All, All-append,
}
use prism_dev.Packet.{ParsedRecord}
use prism_dev.Windowing.{WindowManager, ms, new, within, arm, emit, add_record}
use prism_dev.Windowing.Slices.{keep-append}

-- The times do not fall, from `last` on, and all are before `end`.
abbrev pub Before : ℕ → ℕ → List ParsedRecord → Type 0
Before end last [] = Unit {0}
Before end last (r ∷ rs) = (last ≤ r.timestamp) × (r.timestamp < end) × Before end r.timestamp rs

-- A started manager whose next window, up to `end`, has taken the records `rs` so far.
pub record Gathers (m : WindowManager) (end : ℕ) (rs : List ParsedRecord) : Type 0 where
  pub on : m.initialized ≡ true
  pub due : m.next_emit_time ≡ end
  pub room : ms m.window_size ≤ end
  pub taken : m.buffer ≡ rs
  pub fits : All (λ r. (end - ms m.window_size ≤ r.timestamp) × (r.timestamp ≤ end)) rs
  pub since : end - ms m.window_size ≤ m.last_time

pub first-Gathers :
    (w s : ℕ) (r : ParsedRecord)
    → 0 < w
    → ((add_record (new w s) r).1 ≡ none)
      × ((add_record (new w s) r).0.last_time ≡ r.timestamp)
      × Gathers (add_record (new w s) r).0 (r.timestamp + ms w) (r ∷ [])
unfolding add_record new arm emit
first-Gathers w s r pos =
    let early : leb (r.timestamp + ms w) r.timestamp ≡ false = ground arith in
    rw early (
      refl,
      refl,
      record {
        on = refl;
        due = refl;
        room = omega arith;
        taken = refl;
        fits = omega arith;
        since = omega arith;
      },
    )

pub next-Gathers :
    (m : WindowManager) (end : ℕ) (rs : List ParsedRecord) (r : ParsedRecord)
    → Gathers m end rs
    → m.last_time ≤ r.timestamp
    → r.timestamp < end
    → ((add_record m r).1 ≡ none)
      × ((add_record m r).0.last_time ≡ r.timestamp)
      × Gathers (add_record m r).0 end (rs ++ r ∷ [])
unfolding add_record arm emit
next-Gathers m end rs r g le lt =
    let fresh : ltb r.timestamp m.last_time ≡ false = ground arith in
    let early : leb m.next_emit_time r.timestamp ≡ false = ground (arith, g.due) in
    rw (g.on, fresh, early)
      (
        refl,
        refl,
        record {
          on = refl;
          due = g.due;
          room = g.room;
          taken = ap (λ (qs : List ParsedRecord). qs ++ r ∷ []) g.taken;
          fits = All-append _ rs (r ∷ []) g.fits (omega (arith, g.since));
          since = omega (arith, g.since);
        },
      )

keep-All :
    (s e : ℕ) (rs : List ParsedRecord)
    → All (λ r. (s ≤ r.timestamp) × (r.timestamp ≤ e)) rs
    → keep (within s e) rs ≡ rs
keep-All s e [] h = refl
keep-All s e (r ∷ rs) h = ground (arith, keep-All s e rs h.1)

-- A record behind the end makes the window be emitted, with the records that it has taken.
pub late-Gathers :
    (m : WindowManager) (end : ℕ) (rs : List ParsedRecord) (r : ParsedRecord)
    → Gathers m end rs
    → m.last_time ≤ r.timestamp
    → end < r.timestamp
    → (add_record m r).1
      ≡ some (record { start_time = end - ms m.window_size; end_time = end; records = rs })
unfolding add_record arm emit
late-Gathers m end rs r g le lt =
    let fresh : ltb r.timestamp m.last_time ≡ false = ground arith in
    let due : leb m.next_emit_time r.timestamp ≡ true = ground (arith, g.due) in
    let out : keep (within (end - ms m.window_size) end) (r ∷ []) ≡ [] = ground arith in
    let held : keep (within (end - ms m.window_size) end) (m.buffer ++ r ∷ []) ≡ rs =
      keep-append _ m.buffer (r ∷ []) ∙ rw (g.taken, out, append-nil) (keep-All _ end rs g.fits) in
    rw (g.on, fresh, due) (rw g.due (rw held refl))
