-- ===== src/Windowing/Buffer.antt =====
-- What the window manager of PRISM/src/window/window_manager.cpp has in its buffer.
use prism_dev.Common.{
  leb→le, leb, ℕ, ◌+◌, ◌-◌, ◌≤◌, ◌≡◌, refl, arith, true, false, List, [], ◌∷◌, ◌++◌, All,
  All-append, ltb, Bool-cases, inl, inr,
}
use prism_dev.Packet.{ParsedRecord}
use prism_dev.Windowing.{add_record, feed, new, WindowManager, ms, drop_older, arm, emit}
use prism_dev.Windowing.History.{arm-initialized, add_record_sizes, is_late}

-- The times do not fall along the list, and none is after the last time seen.
abbrev pub Ascending : ℕ → List ParsedRecord → Type 0
Ascending last [] = Unit {0}
Ascending last (r ∷ rs) =
    (r.timestamp ≤ last) × All (λ q. r.timestamp ≤ q.timestamp) rs × Ascending last rs

abbrev pub Since : ℕ → List ParsedRecord → Type 0
Since t = All (λ r. t ≤ r.timestamp)

Since-later : (s t : ℕ) (rs : List ParsedRecord) → s ≤ t → Since t rs → Since s rs
Since-later s t [] h a = tt
Since-later s t (r ∷ rs) h a = (omega arith, Since-later s t rs h a.1)

-- In ascending order the front decides: what the loop leaves is recent throughout.
drop_older-Since :
    (t last : ℕ) (rs : List ParsedRecord)
    → Ascending last rs
    → Ascending last (drop_older t rs) × Since t (drop_older t rs)
unfolding drop_older
drop_older-Since t last [] h = (tt, tt)
drop_older-Since t last (r ∷ rs) h = elim (Bool-cases (ltb r.timestamp t)) [
  | inl old ↦ rw old (drop_older-Since t last rs h.2)
  | inr recent ↦
      let le : t ≤ r.timestamp = ground arith in
      rw recent (h, (le, Since-later t r.timestamp rs le h.1))
]

Since-push :
    (t : ℕ) (rs : List ParsedRecord) (r : ParsedRecord)
    → Since t rs
    → t ≤ r.timestamp
    → Since t (rs ++ r ∷ [])
Since-push t rs r h le = All-append (λ q. t ≤ q.timestamp) rs (r ∷ []) h (le, tt)

Ascending-push :
    (last : ℕ) (rs : List ParsedRecord) (r : ParsedRecord)
    → Ascending last rs
    → last ≤ r.timestamp
    → Ascending r.timestamp (rs ++ r ∷ [])
Ascending-push last [] r h le = (omega arith, tt, tt)
Ascending-push last (q ∷ rs) r h le =
    (omega arith, Since-push q.timestamp rs r h.1 (omega arith), Ascending-push last rs r h.2 le)

-- The start of the next window.
abbrev pub start : WindowManager → ℕ
start m = m.next_emit_time - ms m.window_size

pub record IsTrimmed (m : WindowManager) : Type 0 where
  pub idle : m.initialized ≡ false → m.buffer ≡ []
  pub order : Ascending m.last_time m.buffer
  pub recent : Since (start m) m.buffer
  pub current : m.initialized ≡ true → start m ≤ m.last_time

pub arm-IsTrimmed :
    (m : WindowManager) (r : ParsedRecord) → IsTrimmed m → is_late m r ≡ false → IsTrimmed (arm m r)
unfolding arm
arm-IsTrimmed m r i fresh = elim (Bool-cases m.initialized) [
  | inl on ↦
      let later : m.last_time ≤ r.timestamp = ground arith in
      rw on (record {
        idle = λ h. cc;
        order = Ascending-push m.last_time m.buffer r i.order later;
        recent = Since-push (start m) m.buffer r i.recent (omega (arith, i.current on));
        current = λ _. omega (arith, i.current on);
      })
  | inr off ↦
      rw (off, i.idle off)
        (record {
          idle = λ h. cc;
          order = (omega arith, tt, tt);
          recent = (omega arith, tt);
          current = λ _. omega arith;
        })
]

emit-IsTrimmed :
    (m : WindowManager)
    → IsTrimmed m
    → m.step_size ≤ m.window_size
    → m.initialized ≡ true
    → m.next_emit_time ≤ m.last_time
    → IsTrimmed (emit m).0
unfolding emit
emit-IsTrimmed m i h on due =
    let (order, recent) =
      drop_older-Since (m.next_emit_time + ms m.step_size - ms m.window_size) m.last_time m.buffer
        i.order in
    record { idle = λ off. cc; order = order; recent = recent; current = λ _. omega arith }

arm_facts :
    (m : WindowManager) (r : ParsedRecord)
    → ((arm m r).last_time ≡ r.timestamp)
      × ((arm m r).window_size ≡ m.window_size)
      × ((arm m r).step_size ≡ m.step_size)
unfolding arm
arm_facts m r = ground arith

pub add_record-IsTrimmed :
    (m : WindowManager) (r : ParsedRecord)
    → IsTrimmed m
    → m.step_size ≤ m.window_size
    → IsTrimmed (add_record m r).0
unfolding add_record
add_record-IsTrimmed m r i h = elim (Bool-cases (is_late m r)) [
  | inl late ↦ rw late i
  | inr fresh ↦ elim (Bool-cases (leb (arm m r).next_emit_time r.timestamp)) [
    | inl due ↦
        let (last, w, s) = arm_facts m r in
        rw (fresh, due)
          (emit-IsTrimmed (arm m r) (arm-IsTrimmed m r i fresh) (omega arith) (arm-initialized m r)
            (omega (arith, leb→le (arm m r).next_emit_time r.timestamp due)))
    | inr early ↦ rw (fresh, early) (arm-IsTrimmed m r i fresh)
  ]
]

pub feed-IsTrimmed :
    (rs : List ParsedRecord) (m : WindowManager)
    → IsTrimmed m
    → m.step_size ≤ m.window_size
    → IsTrimmed (feed m rs)
unfolding feed
feed-IsTrimmed [] m i h = i
feed-IsTrimmed (r ∷ rs) m i h =
    let (w, s) = add_record_sizes m r in
    feed-IsTrimmed rs (add_record m r).0 (add_record-IsTrimmed m r i h) (omega arith)

pub fed-IsTrimmed : (w s : ℕ) (rs : List ParsedRecord) → s ≤ w → IsTrimmed (feed (new w s) rs)
unfolding new
fed-IsTrimmed w s rs h =
    feed-IsTrimmed rs (new w s)
      (record { idle = λ _. refl; order = tt; recent = tt; current = λ on. cc }) h

-- Where the step is at most the window, as in the program, whatever records a new manager has been
-- fed, its buffer is in the order of time, up to the last time seen, and holds no record older than
-- the start of the next window.
pub buffer_trimmed :
    (window_size step_size : ℕ) (rs : List ParsedRecord)
    → step_size ≤ window_size
    → let m = feed (new window_size step_size) rs in
      Ascending m.last_time m.buffer × Since (start m) m.buffer
buffer_trimmed w s rs h = let i = fed-IsTrimmed w s rs h in (i.order, i.recent)
