-- ===== src/Tests/Endings.antt =====
-- Examples for the threads of the monitor and for how it ends.
use prism_dev.Logging.Lines.{Log, locked_tick, locked_line, InOrder, lines_cross}
use prism_dev.Logging.Lines
use prism_dev.Common.{none, ◌≡◌, ◌≤◌, refl, arith, true, false, List, [], ◌∷◌, some}
use prism_dev.Shutdown.{
  Threads, start, Run, here, next, enter_loop, poll_ready, signalled, watcher_stop_active,
  watcher_broke, cleared, end_batch, polling, stopping, breaking_loop,
}
use prism_dev.Shutdown.Safety.{Run-safe}
use prism_dev.Shutdown.Ending.{Run-ends}
use prism_dev.Shutdown.Races.{poll_failed_races}
use prism_dev.Double.Fixed.{Fixed, fixed_double}
use prism_dev.Pipeline
use prism_dev.Pipeline.{Poll, no_packet, stopped, arrived, fallback}
use prism_dev.Pipeline.Program.{timed_out, readable, main, status}
use prism_dev.Pipeline.Program.Stops.{main-ends}
use prism_dev.Capture.{dlt_en10mb}
use prism_dev.Tests.{packet_of, in_order, good_net}

-- A signal arrives while `main` is at the head of its inner loop.
breaks_in_loop : (s : Threads) × Run false (start true) 4 s
breaks_in_loop = (
  _,
  next
      (next (next (next here (enter_loop refl refl refl)) (poll_ready refl refl))
        (signalled refl refl))
      (watcher_stop_active refl refl refl),
)

stopped_in_loop : (s : Threads) × Run false (start true) 6 s × (s.running ≡ false)
unfolding breaks_in_loop
stopped_in_loop =
    (_, next (next breaks_in_loop.1 (watcher_broke refl refl)) (cleared refl refl), refl)

Run-safe_example : breaks_in_loop.0.closed ≡ false
unfolding breaks_in_loop
Run-safe_example = (Run-safe breaks_in_loop.1).0 refl

Run-ends_example : 1 ≤ 10
unfolding breaks_in_loop stopped_in_loop
Run-ends_example =
    (Run-ends stopped_in_loop.1 stopped_in_loop.2 (next here (end_batch refl refl))).0

abbrev woken : Threads
woken = record (start true) { main = polling; watcher = stopping }

poll_failed_races_example :
    (t : Threads) × Run true woken 5 t × (t.watcher ≡ breaking_loop) × (t.closed ≡ true)
poll_failed_races_example = poll_failed_races woken refl refl refl refl

abbrev met : List Poll
met = arrived (packet_of 80 []) good_net ∷ no_packet ∷ stopped ∷ []

main-ends_example :
    main {W = Fixed} in_order
      ("prism" ∷ "eth0" ∷ [])
      true
      (some dlt_en10mb)
      (some 3)
      (readable ∷ timed_out ∷ readable ∷ readable ∷ [])
      met
    ≡ (status 0, (fallback {W = Fixed} in_order Pipeline.start met).1)
main-ends_example =
    main-ends Fixed in_order ("prism" ∷ "eth0" ∷ []) dlt_en10mb (some 3)
      (readable ∷ timed_out ∷ readable ∷ readable ∷ []) met (omega arith) refl refl (omega arith)

-- Neither thread logs, and one line was written.
abbrev one_line : Log
one_line = record { clock = 7; main = none; watcher = none; lines = 5 ∷ [] }

lines_cross_example : (t : Log) × Lines.Run Lines.Step one_line 5 t × (t.lines ≡ 7 ∷ 10 ∷ 5 ∷ [])
lines_cross_example = lines_cross one_line 3 refl refl
