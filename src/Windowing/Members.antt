-- ===== src/Windowing/Members.antt =====
-- What the window manager of PRISM/src/window/window_manager.cpp buffers is what it was given.
use prism_dev.Common.{
  ℕ, ◌&&◌, List, [], ◌∷◌, ◌++◌, All, All-append, ltb, leb, Bool-cases, inl, inr, ◌≡◌, Bool, some,
  keep,
}
use prism_dev.Packet.{ParsedRecord, Window}
use prism_dev.Windowing.History.{add_record-emit}
use prism_dev.Windowing.{WindowManager, drop_older, arm, emit, add_record}

module _ (P : ParsedRecord → Type 0) where
  pub All-drop_older : (t : ℕ) (rs : List ParsedRecord) → All P rs → All P (drop_older t rs)
  unfolding drop_older
  All-drop_older t [] h = tt
  All-drop_older t (r ∷ rs) h = elim (Bool-cases (ltb r.timestamp t)) [
    | inl old ↦ rw old (All-drop_older t rs h.1)
    | inr young ↦ rw young h
  ]

  All-arm : (m : WindowManager) (r : ParsedRecord) → All P m.buffer → P r → All P (arm m r).buffer
  unfolding arm
  All-arm m r h p =
      let both : All P (m.buffer ++ r ∷ []) = All-append P m.buffer (r ∷ []) h (p, tt) in
      elim (Bool-cases m.initialized) [ inl later ↦ rw later both | inr first ↦ rw first both ]

  All-emit : (m : WindowManager) → All P m.buffer → All P (emit m).0.buffer
  unfolding emit
  All-emit m h = All-drop_older _ m.buffer h

  -- What holds of all buffered records and of the record that is added holds of all that are buffered
  -- afterwards.
  pub All-add_record :
      (m : WindowManager) (r : ParsedRecord)
      → All P m.buffer
      → P r
      → All P (add_record m r).0.buffer
  unfolding add_record
  All-add_record m r h p = elim (Bool-cases (m.initialized && ltb r.timestamp m.last_time)) [
    | inl late ↦ rw late h
    | inr fresh ↦ rw fresh (elim (Bool-cases (leb (arm m r).next_emit_time r.timestamp)) [
      | inl due ↦ rw due (All-emit (arm m r) (All-arm m r h p))
      | inr early ↦ rw early (All-arm m r h p)
    ])
  ]

  All-keep : (p : ParsedRecord → Bool) (rs : List ParsedRecord) → All P rs → All P (keep p rs)
  All-keep p [] h = tt
  All-keep p (r ∷ rs) h = elim (Bool-cases (p r)) [
    | inl in_ ↦ rw in_ (h.0, All-keep p rs h.1)
    | inr out ↦ rw out (All-keep p rs h.1)
  ]

  -- It holds of the records of a window too.
  pub All-window :
      (m : WindowManager) (r : ParsedRecord) {w : Window}
      → All P m.buffer
      → P r
      → (add_record m r).1 ≡ some w
      → All P w.records
  unfolding emit
  All-window m r h p e =
      let (fresh, due, same) = add_record-emit m r e in
      rw same (All-keep _ (arm m r).buffer (All-arm m r h p))
