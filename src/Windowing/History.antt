-- ===== src/Windowing/History.antt =====
-- What the window manager of PRISM/src/window/window_manager.cpp keeps of the records given to it.
use mathlib.Core.Path.{subst}
use mathlib.Core.List.{append-nil, append_assoc}
use prism_dev.Common.{
  ℕ, ◌+◌, ◌-◌, ◌≤◌, ◌≡◌, refl, sym, ap, ◌∙◌, arith, Bool, true, false, ◌&&◌, List, [], ◌∷◌, ◌++◌,
  Option, none, some, keep, ltb, leb, if◌then◌else◌, Bool-cases, inl, inr,
}
use prism_dev.Packet.{ParsedRecord, Window}
use prism_dev.Windowing.{WindowManager, ms, new, within, arm, emit, add_record, feed}
use prism_dev.Windowing.Slices.{since, keep-append, keep-drop_older, same_later, same_within}

-- What the buffer must hold after a history of accepted records: all of it from the start of the
-- next window on.
pub record Covers (m : WindowManager) (history : List ParsedRecord) : Type 0 where
  pub idle : m.initialized ≡ false → (m.buffer ≡ []) × (history ≡ [])
  pub room : m.initialized ≡ true → ms m.window_size ≤ m.next_emit_time
  pub held :
      keep (since (m.next_emit_time - ms m.window_size)) m.buffer
      ≡ keep (since (m.next_emit_time - ms m.window_size)) history

pub arm-Covers :
    (m : WindowManager) (history : List ParsedRecord) (r : ParsedRecord)
    → Covers m history
    → Covers (arm m r) (history ++ r ∷ [])
unfolding arm
arm-Covers m history r c = elim (Bool-cases m.initialized) [
  | inl on ↦ rw on (record {
    idle = λ h. cc;
    room = λ _. c.room on;
    held =
        keep-append (since start) m.buffer (r ∷ [])
        ∙ ap (λ (xs : List ParsedRecord). xs ++ keep (since start) (r ∷ [])) c.held
        ∙ sym (keep-append (since start) history (r ∷ []));
  })
  | inr off ↦
      rw (off, (c.idle off).0, (c.idle off).1)
        (record { idle = λ h. cc; room = λ _. omega arith; held = refl })
]
  where
    start : ℕ
    start = m.next_emit_time - ms m.window_size

pub arm-initialized : (m : WindowManager) (r : ParsedRecord) → (arm m r).initialized ≡ true
unfolding arm
arm-initialized m r = ground arith

emit-Covers :
    (m : WindowManager) (history : List ParsedRecord)
    → Covers m history
    → m.initialized ≡ true
    → Covers (emit m).0 history
unfolding emit
emit-Covers m history c on = record {
  idle = λ off. cc;
  room = λ _. omega (arith, c.room on);
  held =
      keep-drop_older later m.buffer
      ∙ same_later (m.next_emit_time - ms m.window_size) later m.buffer history (omega arith)
          c.held;
}
  where
    later : ℕ
    later = m.next_emit_time + ms m.step_size - ms m.window_size

pub emit_exact :
    (m : WindowManager) (history : List ParsedRecord)
    → Covers m history
    → m.initialized ≡ true
    → let w = (emit m).1 in
      (w.records ≡ keep (within w.start_time w.end_time) history)
      × (w.end_time ≡ w.start_time + ms m.window_size)
unfolding emit
emit_exact m history c on = (
  same_within (m.next_emit_time - ms m.window_size) m.next_emit_time m.buffer history c.held,
  omega (arith, c.room on),
)

pub new-Covers : (w s : ℕ) → Covers (new w s) []
unfolding new
new-Covers w s = record { idle = λ _. (refl, refl); room = λ h. cc; held = refl }

-- The records that are not older than the one accepted last, in order.
unfoldable pub accepted_after : Option ℕ → List ParsedRecord → List ParsedRecord
accepted_after last [] = []
accepted_after none (r ∷ rs) = r ∷ accepted_after (some r.timestamp) rs
accepted_after (some t) (r ∷ rs) =
    let taken = accepted_after (some r.timestamp) rs in
    let skipped = accepted_after (some t) rs in if ltb r.timestamp t then skipped else r ∷ taken

unfoldable pub accepted : List ParsedRecord → List ParsedRecord
unfolding accepted_after
accepted rs = accepted_after none rs

-- The time that the manager compares the next record with.
unfoldable pub last_seen : WindowManager → Option ℕ
last_seen m = if m.initialized then some m.last_time else none

abbrev pub is_late : WindowManager → ParsedRecord → Bool
is_late m r = m.initialized && ltb r.timestamp m.last_time

pub last_seen-arm : (m : WindowManager) (r : ParsedRecord) → last_seen (arm m r) ≡ some r.timestamp
unfolding last_seen arm
last_seen-arm m r = ground arith

pub last_seen-emit : (m : WindowManager) → last_seen (emit m).0 ≡ last_seen m
unfolding last_seen emit
last_seen-emit m = refl

pub accepted_after_late :
    (m : WindowManager) (r : ParsedRecord) (rs : List ParsedRecord)
    → is_late m r ≡ true
    → accepted_after (last_seen m) (r ∷ rs) ≡ accepted_after (last_seen m) rs
unfolding accepted_after last_seen
accepted_after_late m r rs late = ground arith

pub accepted_after_fresh :
    (m : WindowManager) (r : ParsedRecord) (rs : List ParsedRecord)
    → is_late m r ≡ false
    → accepted_after (last_seen m) (r ∷ rs) ≡ r ∷ accepted_after (some r.timestamp) rs
unfolding accepted_after last_seen
accepted_after_fresh m r rs fresh = ground arith

pub add_record_late :
    (m : WindowManager) (r : ParsedRecord) → is_late m r ≡ true → add_record m r ≡ (m, none)
unfolding add_record
add_record_late m r late = rw late

pub add_record-Covers :
    (m : WindowManager) (history : List ParsedRecord) (r : ParsedRecord)
    → Covers m history
    → is_late m r ≡ false
    → Covers (add_record m r).0 (history ++ r ∷ [])
      × (last_seen (add_record m r).0 ≡ some r.timestamp)
unfolding add_record
add_record-Covers m history r c fresh =
    elim (Bool-cases (leb (arm m r).next_emit_time r.timestamp)) [
      | inl due ↦
          rw (fresh, due)
            (
              emit-Covers (arm m r) (history ++ r ∷ []) armed (arm-initialized m r),
              last_seen-emit (arm m r) ∙ last_seen-arm m r,
            )
      | inr early ↦ rw (fresh, early) (armed, last_seen-arm m r)
    ]
  where
    armed : Covers (arm m r) (history ++ r ∷ [])
    armed = arm-Covers m history r c

pub feed-Covers :
    (rs : List ParsedRecord) (m : WindowManager) (history : List ParsedRecord)
    → Covers m history
    → Covers (feed m rs) (history ++ accepted_after (last_seen m) rs)
unfolding feed accepted_after
feed-Covers [] m history c = subst (Covers m) (sym (append-nil history)) c
feed-Covers (r ∷ rs) m history c = elim (Bool-cases (is_late m r)) [
  | inl late ↦
      rw (add_record_late m r late, accepted_after_late m r rs late) (feed-Covers rs m history c)
  | inr fresh ↦
      let (c', seen) = add_record-Covers m history r c fresh in
      rw (accepted_after_fresh m r rs fresh, ← seen)
        (subst (Covers (feed (add_record m r).0 rs)) (append_assoc history (r ∷ []) _)
          (feed-Covers rs (add_record m r).0 (history ++ r ∷ []) c'))
]

-- A call that emits was given a record in time, and its window is that of `emit`.
pub add_record-emit :
    (m : WindowManager) (r : ParsedRecord) {w : Window}
    → (add_record m r).1 ≡ some w
    → (is_late m r ≡ false)
      × (leb (arm m r).next_emit_time r.timestamp ≡ true)
      × (w ≡ (emit (arm m r)).1)
unfolding add_record
add_record-emit m r e = ground arith

-- The sizes are constants of the object.
pub add_record_sizes :
    (m : WindowManager) (r : ParsedRecord)
    → ((add_record m r).0.window_size ≡ m.window_size)
      × ((add_record m r).0.step_size ≡ m.step_size)
unfolding add_record arm emit
add_record_sizes m r = ground arith

pub feed_sizes :
    (rs : List ParsedRecord) (m : WindowManager)
    → ((feed m rs).window_size ≡ m.window_size) × ((feed m rs).step_size ≡ m.step_size)
unfolding feed
feed_sizes [] m = (refl, refl)
feed_sizes (r ∷ rs) m =
    let (w, s) = feed_sizes rs (add_record m r).0 in
    let (w', s') = add_record_sizes m r in (w ∙ w', s ∙ s')

pub arm-window_size : (m : WindowManager) (r : ParsedRecord) → (arm m r).window_size ≡ m.window_size
unfolding arm
arm-window_size m r = ground arith
