-- ===== src/Windowing/Order.antt =====
-- The order of the records in the windows of PRISM/src/window/window_manager.cpp.
use prism_dev.Common.{ℕ, ◌≤◌, ◌≡◌, arith, Bool, List, [], ◌∷◌, some, keep, Bool-cases, inl, inr}
use prism_dev.Packet.{ParsedRecord, Window}
use prism_dev.Windowing.{WindowManager, new, feed, add_record, arm, emit, within}
use prism_dev.Windowing.History.{add_record-emit}
use prism_dev.Windowing.Buffer.{Ascending, Since, IsTrimmed, arm-IsTrimmed, fed-IsTrimmed}

module _ (p : ParsedRecord → Bool) where
  All-keep : (t : ℕ) (rs : List ParsedRecord) → Since t rs → Since t (keep p rs)
  All-keep t [] h = tt
  All-keep t (r ∷ rs) h = ground (arith, All-keep t rs h.1)

keep-Ascending :
    (s e last : ℕ) (rs : List ParsedRecord) → Ascending last rs → Ascending e (keep (within s e) rs)
keep-Ascending s e last [] h = tt
keep-Ascending s e last (r ∷ rs) h = elim (Bool-cases (within s e r)) [
  | inl taken ↦
      let le : r.timestamp ≤ e = ground arith in
      rw taken (le, All-keep (within s e) r.timestamp rs h.1, keep-Ascending s e last rs h.2)
  | inr left ↦ rw left (keep-Ascending s e last rs h.2)
]

emit-Ascending :
    (m : WindowManager) → IsTrimmed m → Ascending (emit m).1.end_time (emit m).1.records
unfolding emit
emit-Ascending m i = keep-Ascending _ m.next_emit_time m.last_time m.buffer i.order

-- The records of every window that a new manager emits, whatever it has been fed, are in the order of
-- their times, and none is after the window's end, where the step is at most the window.
pub emitted_window-Ascending :
    (window_size step_size : ℕ) (rs : List ParsedRecord) (r : ParsedRecord) {w : Window}
    → step_size ≤ window_size
    → (add_record (feed (new window_size step_size) rs) r).1 ≡ some w
    → Ascending w.end_time w.records
emitted_window-Ascending window_size step_size rs r {w} le e =
    let m = feed (new window_size step_size) rs in
    let (fresh, due, same) = add_record-emit m r e in
    let i = fed-IsTrimmed window_size step_size rs le in
    rw same (emit-Ascending (arm m r) (arm-IsTrimmed m r i fresh))
