-- ===== src/Logging/Lines.antt =====
-- The lines of two threads that log at once, `main` and `sig_watcher` of PRISM/src/main.cpp, with each
-- of the two loggers: that of PRISM/include/prism.hpp reads the time before it takes the lock, that of
-- PRISM/src/utils/logger.cpp under it.
use prism_dev.Common.{ℕ, suc, ◌+◌, ◌≤◌, ◌≡◌, refl, arith, List, [], ◌∷◌, Option, none, some}

-- The clock, the time that either thread has read and not written yet, and the times of the lines,
-- the newest first.
pub record Log : Type 0 where
  pub clock : ℕ
  pub main : Option ℕ
  pub watcher : Option ℕ
  pub lines : List ℕ

-- A step with the logger of the header. The clock does not go back.
pub data Step (s t : Log) : Type 0 where
  tick : (n : ℕ) → t ≡ record s { clock = s.clock + n } → Step s t
  main_reads : s.main ≡ none → t ≡ record s { main = some s.clock } → Step s t
  watcher_reads : s.watcher ≡ none → t ≡ record s { watcher = some s.clock } → Step s t
  main_writes :
      (n : ℕ) → s.main ≡ some n → t ≡ record s { main = none; lines = n ∷ s.lines } → Step s t
  watcher_writes :
      (n : ℕ) → s.watcher ≡ some n → t ≡ record s { watcher = none; lines = n ∷ s.lines } → Step s t

-- A step with the other logger, whose region under the lock holds both.
pub data LockedStep (s t : Log) : Type 0 where
  locked_tick : (n : ℕ) → t ≡ record s { clock = s.clock + n } → LockedStep s t
  locked_line : t ≡ record s { lines = s.clock ∷ s.lines } → LockedStep s t

pub data Run (R : Log → Log → Type 0) (s : Log) : ℕ → Log → Type 0 where
  here : Run R s 0 s
  next : {n : ℕ} {t u : Log} → Run R s n t → R t u → Run R s (suc n) u

-- No line is newer than the clock, and none is newer than the line that was written after it.
abbrev pub InOrder : ℕ → List ℕ → Type 0
InOrder now [] = Unit {0}
InOrder now (t ∷ ts) = (t ≤ now) × InOrder t ts

InOrder-later : (a b : ℕ) (ts : List ℕ) → a ≤ b → InOrder a ts → InOrder b ts
InOrder-later a b [] h k = tt
InOrder-later a b (t ∷ ts) h k = (omega arith, k.1)

LockedStep-InOrder :
    {s t : Log} → LockedStep s t → InOrder s.clock s.lines → InOrder t.clock t.lines
LockedStep-InOrder {s} (locked_tick n e) h =
    rw e (InOrder-later s.clock (s.clock + n) s.lines (omega arith) h)
LockedStep-InOrder {s} (locked_line e) h = rw e (omega arith, h)

-- With the logger that reads the time under the lock, on a clock that does not go back, whatever the
-- two threads log, and in whatever order they run: lines that were in the order of their times are so
-- ever after.
Run-InOrder :
    {s : Log} {n : ℕ} {t : Log}
    → InOrder s.clock s.lines
    → Run LockedStep s n t
    → InOrder t.clock t.lines
Run-InOrder h here = h
Run-InOrder h (next r step) = LockedStep-InOrder step (Run-InOrder h r)

-- With the logger that reads the time before it takes the lock, though the clock does not go back, from
-- any state in which neither thread logs, the two may write their lines against the order of their
-- times, by any distance.
pub lines_cross :
    (s : Log) (apart : ℕ)
    → s.main ≡ none
    → s.watcher ≡ none
    → (t : Log) × Run Step s 5 t × (t.lines ≡ s.clock ∷ (s.clock + apart) ∷ s.lines)
lines_cross s apart m w = (s5, write_main, refl)
  where
    s1 : Log
    s1 = record s { main = some s.clock }

    s2 : Log
    s2 = record s1 { clock = s.clock + apart }

    s3 : Log
    s3 = record s2 { watcher = some (s.clock + apart) }

    s4 : Log
    s4 = record s3 { watcher = none; lines = (s.clock + apart) ∷ s.lines }

    s5 : Log
    s5 = record s4 { main = none; lines = s.clock ∷ (s.clock + apart) ∷ s.lines }

    read_main : Run Step s 1 s1
    read_main = next here (main_reads m refl)

    wait : Run Step s 2 s2
    wait = next read_main (tick apart refl)

    read_watcher : Run Step s 3 s3
    read_watcher = next wait (watcher_reads w refl)

    write_watcher : Run Step s 4 s4
    write_watcher = next read_watcher (watcher_writes (s.clock + apart) refl refl)

    write_main : Run Step s 5 s5
    write_main = next write_watcher (main_writes s.clock refl refl)
