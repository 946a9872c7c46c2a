-- ===== src/Tests/Analysis.antt =====
-- Examples for the window manager, the features and the detectors.
use prism_dev.Common.{◌≡◌, ◌≤◌, ◌+◌, refl, arith, [], ◌∷◌, ◌++◌, length, keep, count_if}
use prism_dev.Packet.{Window}
use prism_dev.Tests.{in_order-IsIteration, record_at, in_order}
use prism_dev.Windowing.{new, feed, add_record, arm, emit, drop_older, within, ms}
use prism_dev.Windowing.History.{accepted}
use prism_dev.Common.{◌*◌}
use prism_dev.Windowing.Lag.{feed_lags, feed_keeps_up}
use prism_dev.Windowing.Exact.{emitted_window_exact}
use prism_dev.Windowing.Schedule.{windows, windows_schedule, every, ends}
use prism_dev.Double.Fixed.{Fixed, fixed_double, Fixed-IsExact}
use prism_dev.Features.Laws.{compute_lem, feature, share}

-- Of three records in time the first two are in the window of two milliseconds, and the third makes
-- it be emitted; the late one between them is skipped.
abbrev first_window : Window
first_window = record {
  start_time = 0;
  end_time = 2_000_000;
  records = record_at 0 ∷ record_at 1 ∷ [];
}

emitted_window_exact_example :
    first_window.records
    ≡ keep
        (within 0 2_000_000)
        (accepted (record_at 0 ∷ record_at 1 ∷ record_at 0 ∷ []) ++ record_at 3 ∷ [])
unfolding new feed add_record arm emit drop_older
emitted_window_exact_example =
    (emitted_window_exact 2 1 (record_at 0 ∷ record_at 1 ∷ record_at 0 ∷ []) (record_at 3)
      {w = first_window} refl).1

windows_schedule_example :
    let ws = windows (new 2 1) (record_at 0 ∷ record_at 9 ∷ record_at 10 ∷ []) in
    (ends ws ≡ every (ms 1) (0 + ms 2) (length ws)) × (length ws ≤ 3)
windows_schedule_example = windows_schedule 2 1 (record_at 0) (record_at 9 ∷ record_at 10 ∷ [])

compute_lem_example :
    feature {W = Fixed} in_order first_window 1
    ≡ share {W = Fixed} first_window (count_if (λ r. r.is_write) first_window.records)
compute_lem_example =
    (compute_lem Fixed-IsExact in_order first_window in_order-IsIteration (omega arith)
      (omega arith)).1

feed_keeps_up_example :
    let m = feed (new 5 1) (record_at 0 ∷ record_at 1 ∷ record_at 2 ∷ []) in
    m.last_time ≤ m.next_emit_time
feed_keeps_up_example =
    feed_keeps_up 5 1 (record_at 0) (record_at 1 ∷ record_at 2 ∷ []) (omega arith)

feed_lags_example :
    let m = feed (new 5 1) (record_at 0 ∷ record_at 9 ∷ record_at 18 ∷ []) in
    m.next_emit_time + 2 * 8_000_000 ≤ m.last_time + ms 5 + ms 1
feed_lags_example =
    feed_lags 5 1 8_000_000 (record_at 0) (record_at 9 ∷ record_at 18 ∷ []) (omega arith)
