-- ===== src/Windowing/Complete.antt =====
-- What becomes of each record that PRISM/src/window/window_manager.cpp accepts.
use mathlib.Core.Path.{subst}
use mathlib.Core.List.Memᴰ
use mathlib.Core.List.Memᴰ.{Memᴰ}
use prism_dev.Common.{
  ℕ, ◌+◌, ◌-◌, ◌≤◌, ◌≡◌, ◌⊎◌, refl, sym, ap, ◌∙◌, arith, Bool, true, false, List, [], ◌∷◌, ◌++◌,
  Option, none, some, keep, ltb, leb, Bool-cases, inl, inr,
}
use prism_dev.Packet.{ParsedRecord, Window}
use prism_dev.Windowing.{WindowManager, ms, new, within, drop_older, arm, emit, add_record, feed}
use prism_dev.Windowing.History.{
  accepted, accepted_after, last_seen, is_late, add_record_late, accepted_after_late,
  accepted_after_fresh, add_record_sizes, arm-window_size, last_seen-arm, last_seen-emit,
}
use prism_dev.Windowing.Buffer.{IsTrimmed, Since, start, arm-IsTrimmed, add_record-IsTrimmed}
use prism_dev.Windowing.Schedule.{windows, and_then}

module _ (q : ParsedRecord) where
  Since-Mem : (t : ℕ) (rs : List ParsedRecord) → Since t rs → Memᴰ q rs → t ≤ q.timestamp
  Since-Mem t [] h k = elim k [ ]
  Since-Mem t (r ∷ rs) h (Memᴰ.head e) = subst (λ (x : ParsedRecord). t ≤ x.timestamp) (sym e) h.0
  Since-Mem t (r ∷ rs) h (Memᴰ.tail k) = Since-Mem t rs h.1 k

  pub Mem-keep :
      (p : ParsedRecord → Bool) (rs : List ParsedRecord)
      → p q ≡ true
      → Memᴰ q rs
      → Memᴰ q (keep p rs)
  Mem-keep p [] h k = elim k [ ]
  Mem-keep p (r ∷ rs) h (Memᴰ.head e) = rw (ap p (sym e) ∙ h) (Memᴰ.head e)
  Mem-keep p (r ∷ rs) h (Memᴰ.tail k) = elim (Bool-cases (p r)) [
    | inl yes_ ↦ rw yes_ (Memᴰ.tail (Mem-keep p rs h k))
    | inr no_ ↦ rw no_ (Mem-keep p rs h k)
  ]

  pub Mem-drop_older :
      (t : ℕ) (rs : List ParsedRecord) → t ≤ q.timestamp → Memᴰ q rs → Memᴰ q (drop_older t rs)
  unfolding drop_older
  Mem-drop_older t [] h k = elim k [ ]
  Mem-drop_older t (r ∷ rs) h (Memᴰ.head e) =
      let after : t ≤ r.timestamp = subst (λ (x : ParsedRecord). t ≤ x.timestamp) e h in
      let young : ltb r.timestamp t ≡ false = ground arith in rw young (Memᴰ.head e)
  Mem-drop_older t (r ∷ rs) h (Memᴰ.tail k) = elim (Bool-cases (ltb r.timestamp t)) [
    | inl old ↦ rw old (Mem-drop_older t rs h k)
    | inr young ↦ rw young (Memᴰ.tail k)
  ]

  -- A record of the buffer goes into the window that is emitted, or stays in the buffer.
  Mem-emit :
      (m : WindowManager)
      → IsTrimmed m
      → m.step_size ≤ m.window_size
      → Memᴰ q m.buffer
      → Memᴰ q (emit m).0.buffer ⊎ Memᴰ q (emit m).1.records
  unfolding emit
  Mem-emit m i h k =
      let from : start m ≤ q.timestamp = Since-Mem (start m) m.buffer i.recent k in
      elim (Bool-cases (leb q.timestamp m.next_emit_time)) [
        | inl soon ↦ inr (Mem-keep (within (start m) m.next_emit_time) m.buffer (ground arith) k)
        | inr later ↦ inl (
            Mem-drop_older (m.next_emit_time + ms m.step_size - ms m.window_size) m.buffer
              (ground arith) k)
      ]

  arm-buffer : (m : WindowManager) (r : ParsedRecord) → (arm m r).buffer ≡ m.buffer ++ r ∷ []
  unfolding arm
  arm-buffer m r = ground arith

  arm-step_size : (m : WindowManager) (r : ParsedRecord) → (arm m r).step_size ≡ m.step_size
  unfolding arm
  arm-step_size m r = ground arith

  -- A record that is buffered when a record in time comes is buffered afterwards, or in the window
  -- that is emitted.
  Mem-add_record :
      (m : WindowManager) (r : ParsedRecord)
      → IsTrimmed m
      → m.step_size ≤ m.window_size
      → is_late m r ≡ false
      → Memᴰ q (m.buffer ++ r ∷ [])
      → Memᴰ q (add_record m r).0.buffer
        ⊎ ((w : Window) × ((add_record m r).1 ≡ some w) × Memᴰ q w.records)
  unfolding add_record
  Mem-add_record m r i h fresh k =
      let armed : Memᴰ q (arm m r).buffer = rw (arm-buffer m r) k in
      elim (Bool-cases (leb (arm m r).next_emit_time r.timestamp)) [
        | inr early ↦ rw (fresh, early) (inl armed)
        | inl due ↦
            rw (fresh, due)
              (elim (Mem-emit (arm m r) (arm-IsTrimmed m r i fresh)
                (omega (arith, arm-step_size m r, arm-window_size m r)) armed) [
                  | inl left ↦ inl left
                  | inr shown ↦ inr ((emit (arm m r)).1, refl, shown)
                ])
      ]

  last_seen-add_record :
      (m : WindowManager) (r : ParsedRecord)
      → is_late m r ≡ false
      → last_seen (add_record m r).0 ≡ some r.timestamp
  unfolding add_record
  last_seen-add_record m r fresh = elim (Bool-cases (leb (arm m r).next_emit_time r.timestamp)) [
    | inl due ↦ rw (fresh, due) (last_seen-emit (arm m r) ∙ last_seen-arm m r)
    | inr early ↦ rw (fresh, early) (last_seen-arm m r)
  ]

  -- The record is in the buffer, or in one of the windows.
  abbrev pub Found : WindowManager → List Window → Type 0
  Found m ws = Memᴰ q m.buffer ⊎ ((w : Window) × Memᴰ w ws × Memᴰ q w.records)

  Found-and_then :
      (m : WindowManager) (o : Option Window) (ws : List Window)
      → Found m ws
      → Found m (and_then o ws)
  Found-and_then m none ws h = h
  Found-and_then m (some v) ws (inl k) = inl k
  Found-and_then m (some v) ws (inr (w, k, l)) = inr (w, Memᴰ.tail k, l)

  Mem-snoc :
      (r : ParsedRecord) (rs xs : List ParsedRecord)
      → Memᴰ q (r ∷ xs)
      → Memᴰ q (rs ++ r ∷ []) ⊎ Memᴰ q xs
  Mem-snoc r rs xs (Memᴰ.head e) = inl (Memᴰ.append_right rs (Memᴰ.head e))
  Mem-snoc r rs xs (Memᴰ.tail k) = inr k

  -- With a record in time, what is buffered or to be accepted is buffered with it, or is to be accepted
  -- behind it.
  to_come :
      (m : WindowManager) (r : ParsedRecord) (rs : List ParsedRecord)
      → is_late m r ≡ false
      → Memᴰ q m.buffer ⊎ Memᴰ q (accepted_after (last_seen m) (r ∷ rs))
      → Memᴰ q (m.buffer ++ r ∷ []) ⊎ Memᴰ q (accepted_after (some r.timestamp) rs)
  to_come m r rs fresh (inl k) = inl (Memᴰ.append_left (r ∷ []) k)
  to_come m r rs fresh (inr k) =
      Mem-snoc r m.buffer (accepted_after (some r.timestamp) rs)
        (rw (accepted_after_fresh m r rs fresh) at k)

  feed-Found :
      (rs : List ParsedRecord) (m : WindowManager)
      → IsTrimmed m
      → m.step_size ≤ m.window_size
      → Memᴰ q m.buffer ⊎ Memᴰ q (accepted_after (last_seen m) rs)
      → Found (feed m rs) (windows m rs)
  unfolding feed windows accepted_after
  feed-Found [] m i h (inl k) = inl k
  feed-Found [] m i h (inr k) = elim k [ ]
  feed-Found (r ∷ rs) m i h k = elim (Bool-cases (is_late m r)) [
    | inl late ↦
        subst
          (λ (p : WindowManager × Option Window).
            Found (feed p.0 rs) (and_then p.1 (windows p.0 rs)))
          (sym (add_record_late m r late))
          (feed-Found rs m i h (rw (accepted_after_late m r rs late) at k))
    | inr fresh ↦
        let m' = (add_record m r).0 in
        let (w, s) = add_record_sizes m r in
        let later = feed-Found rs m' (add_record-IsTrimmed m r i h) (omega arith) in
        let put = Found-and_then (feed m' rs) (add_record m r).1 (windows m' rs) in
        elim (to_come m r rs fresh k) [
          | inr k' ↦ put (later (inr (rw (last_seen-add_record m r fresh) k')))
          | inl k' ↦ elim (Mem-add_record m r i h fresh k') [
            | inl left ↦ put (later (inl left))
            | inr (v, e, shown) ↦ inr (v, rw e (Memᴰ.head refl), shown)
          ]
        ]
  ]

-- Where the step is at most the window, every record that a new manager accepts is still in its buffer
-- or in a window that it has emitted: none is lost, whatever the records are and however far the times
-- of two of them lie apart.
pub accepted-Found :
    (window_size step_size : ℕ) (rs : List ParsedRecord) (q : ParsedRecord)
    → step_size ≤ window_size
    → Memᴰ q (accepted rs)
    → let m = new window_size step_size in Found q (feed m rs) (windows m rs)
unfolding new accepted last_seen
accepted-Found window_size step_size rs q h k =
    feed-Found q rs (new window_size step_size)
      (record { idle = λ _. refl; order = tt; recent = tt; current = λ on. cc }) h (inr k)
