-- ===== src/Windowing/Sustained.antt =====
-- The windows of PRISM/src/window/window_manager.cpp while records keep coming.
use mathlib.Core.List.Memᴰ
use mathlib.Core.List.Memᴰ.{Memᴰ}
use prism_dev.Common.{
  ℕ, ◌+◌, ◌-◌, ◌≤◌, ◌<◌, ◌≡◌, refl, arith, Bool, true, false, List, [], ◌∷◌, ◌++◌, some, none, keep,
  count_if, length-append, ltb, leb, length, All, All-append, Bool-cases, inl, inr,
}
use prism_dev.Packet.{ParsedRecord, Window}
use prism_dev.Windowing.{WindowManager, ms, new, within, drop_older, arm, emit, add_record}
use prism_dev.Windowing.Members.{All-drop_older}
use prism_dev.Windowing.Complete.{Mem-keep, Mem-drop_older}

-- Later than `since` there are writes only.
abbrev pub WritesAfter : ℕ → ParsedRecord → Type 0
WritesAfter since r = since < r.timestamp → r.is_write ≡ true

-- A started manager that keeps up with the records, and whose next window ends at most a window and a
-- step after `since`.
pub record Sustains (since : ℕ) (m : WindowManager) : Type 0 where
  pub on : m.initialized ≡ true
  pub up : m.last_time ≤ m.next_emit_time
  pub near : m.next_emit_time ≤ since + ms m.window_size + ms m.step_size
  pub fits : m.step_size ≤ m.window_size
  pub tail : (q : ParsedRecord) × Memᴰ q m.buffer × (q.timestamp ≡ m.last_time)
  pub marked : All (WritesAfter since) m.buffer

pub first-Sustains :
    (w s since : ℕ) (r : ParsedRecord)
    → 0 < w
    → s ≤ w
    → r.timestamp ≤ since
    → ((add_record (new w s) r).1 ≡ none)
      × ((add_record (new w s) r).0.last_time ≡ r.timestamp)
      × ((add_record (new w s) r).0.step_size ≡ s)
      × (length (add_record (new w s) r).0.buffer ≡ 1)
      × Sustains since (add_record (new w s) r).0
unfolding add_record new arm emit
first-Sustains w s since r pos fits le =
    let early : leb (r.timestamp + ms w) r.timestamp ≡ false = ground arith in
    rw early (
      refl,
      refl,
      refl,
      refl,
      record {
        on = refl;
        up = omega arith;
        near = omega arith;
        fits = fits;
        tail = (r, Memᴰ.head refl, refl);
        marked = ((λ lt. absurd (omega arith)), tt);
      },
    )

pub early-Sustains :
    (since : ℕ) (m : WindowManager) (r : ParsedRecord)
    → Sustains since m
    → m.last_time ≤ r.timestamp
    → r.timestamp < m.next_emit_time
    → WritesAfter since r
    → let (m', w) = add_record m r in
      (w ≡ none)
      × (m'.last_time ≡ r.timestamp)
      × (m'.step_size ≡ m.step_size)
      × (m'.buffer ≡ m.buffer ++ r ∷ [])
      × Sustains since m'
unfolding add_record arm
early-Sustains since m r i le lt p =
    let fresh : ltb r.timestamp m.last_time ≡ false = ground arith in
    let early : leb m.next_emit_time r.timestamp ≡ false = ground arith in
    rw (i.on, fresh, early)
      (
        refl,
        refl,
        refl,
        refl,
        record {
          on = refl;
          up = omega arith;
          near = i.near;
          fits = i.fits;
          tail = (r, Memᴰ.append_right m.buffer (Memᴰ.head refl), refl);
          marked = All-append _ m.buffer (r ∷ []) i.marked (p, tt);
        },
      )

length-keep : (p : ParsedRecord → Bool) (rs : List ParsedRecord) → length (keep p rs) ≤ length rs
length-keep p [] = omega arith
length-keep p (r ∷ rs) = ground (arith, length-keep p rs)

length-drop_older : (t : ℕ) (rs : List ParsedRecord) → length (drop_older t rs) ≤ length rs
unfolding drop_older
length-drop_older t [] = omega arith
length-drop_older t (r ∷ rs) = ground (arith, length-drop_older t rs)

Mem-pos : (q : ParsedRecord) (rs : List ParsedRecord) → Memᴰ q rs → 0 < length rs
Mem-pos q [] h = elim h [ ]
Mem-pos q (r ∷ rs) h = omega arith

-- A record that makes a window be emitted, one step at most after the record before.
pub due-Sustains :
    (since : ℕ) (m : WindowManager) (r : ParsedRecord)
    → Sustains since m
    → m.last_time ≤ r.timestamp
    → r.timestamp ≤ m.last_time + ms m.step_size
    → m.next_emit_time ≤ r.timestamp
    → m.next_emit_time ≤ since + ms m.window_size
    → WritesAfter since r
    → let m' = (add_record m r).0 in
      (m'.last_time ≡ r.timestamp)
      × (m'.step_size ≡ m.step_size)
      × (length m'.buffer ≤ length m.buffer + 1)
      × Sustains since m'
unfolding add_record arm emit
due-Sustains since m r i le close due early p =
    let fresh : ltb r.timestamp m.last_time ≡ false = ground arith in
    let ready : leb m.next_emit_time r.timestamp ≡ true = ground arith in
    let all = m.buffer ++ r ∷ [] in
    let oldest = m.next_emit_time + ms m.step_size - ms m.window_size in
    rw (i.on, fresh, ready)
      (
        refl,
        refl,
        omega (arith, length-drop_older oldest all, length-append m.buffer (r ∷ [])),
        record {
          on = refl;
          up = omega arith;
          near = omega arith;
          fits = i.fits;
          tail = (
            r,
            Mem-drop_older r oldest all (omega (arith, i.fits))
                (Memᴰ.append_right m.buffer (Memᴰ.head refl)),
            refl,
          );
          marked =
              All-drop_older (WritesAfter since) oldest all
                (All-append _ m.buffer (r ∷ []) i.marked (p, tt));
        },
      )

writes_only :
    (since start end : ℕ) (rs : List ParsedRecord)
    → since < start
    → All (WritesAfter since) rs
    → let ws = keep (within start end) rs in count_if (λ r. r.is_write) ws ≡ length ws
writes_only since start end [] lt h = refl
writes_only since start end (r ∷ rs) lt h = elim (Bool-cases (within start end r)) [
  | inl in_ ↦
      let write : r.is_write ≡ true = h.0 (ground arith) in
      rw in_ (rw write (omega (arith, writes_only since start end rs lt h.1)))
  | inr out ↦ rw out (writes_only since start end rs lt h.1)
]

-- Its window, where that begins after `since`, has records, and all of them are writes.
pub due_window :
    (since : ℕ) (m : WindowManager) (r : ParsedRecord)
    → Sustains since m
    → m.last_time ≤ r.timestamp
    → r.timestamp ≤ m.last_time + ms m.step_size
    → m.next_emit_time ≤ r.timestamp
    → since + ms m.window_size < m.next_emit_time
    → WritesAfter since r
    → (w : Window) × ((add_record m r).1 ≡ some w)
      × (0 < length w.records)
      × (length w.records ≤ length m.buffer + 1)
      × (count_if (λ q. q.is_write) w.records ≡ length w.records)
unfolding add_record arm emit
due_window since m r i le close due late p =
    let fresh : ltb r.timestamp m.last_time ≡ false = ground arith in
    let ready : leb m.next_emit_time r.timestamp ≡ true = ground arith in
    let all = m.buffer ++ r ∷ [] in
    let start = m.next_emit_time - ms m.window_size in
    let (q, held, time) = i.tail in
    let inside : within start m.next_emit_time q ≡ true = ground (arith, i.fits, i.up) in
    let kept =
      Mem-keep q (within start m.next_emit_time) all inside (Memᴰ.append_left (r ∷ []) held) in
    (
      record {
        start_time = start;
        end_time = m.next_emit_time;
        records = keep (within start m.next_emit_time) all;
      },
      rw (i.on, fresh, ready) refl,
      Mem-pos q _ kept,
      omega
          (arith, length-keep (within start m.next_emit_time) all, length-append m.buffer (r ∷ [])),
      writes_only since start m.next_emit_time all (omega arith)
          (All-append _ m.buffer (r ∷ []) i.marked (p, tt)),
    )
