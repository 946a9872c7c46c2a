-- ===== src/Windowing/Exact.antt =====
-- What a window that PRISM/src/window/window_manager.cpp emits holds.
use prism_dev.Common.{ℕ, ◌+◌, ◌≡◌, ap, ◌∙◌, List, [], ◌∷◌, ◌++◌, some, keep}
use prism_dev.Packet.{ParsedRecord, Window}
use prism_dev.Windowing.{ms, new, within, arm, emit, add_record, feed}
use prism_dev.Windowing.History.{
  arm-Covers, arm-initialized, emit_exact, new-Covers, feed-Covers, arm-window_size, accepted,
  accepted_after, last_seen, add_record-emit, feed_sizes,
}

-- Whatever records have been fed to a new manager, a window that the next one makes it emit spans
-- exactly the window size, and holds exactly those of the accepted records (the next one among
-- them) whose times lie between its start and its end, ends included, in their order of arrival:
-- none is lost by the trimming of the buffer, and none is duplicated.
pub emitted_window_exact :
    (window_size step_size : ℕ) (rs : List ParsedRecord) (r : ParsedRecord) {w : Window}
    → (add_record (feed (new window_size step_size) rs) r).1 ≡ some w
    → (w.end_time ≡ w.start_time + ms window_size)
      × (w.records ≡ keep (within w.start_time w.end_time) (accepted rs ++ r ∷ []))
unfolding new accepted accepted_after last_seen
emitted_window_exact window_size step_size rs r e =
    let m = feed (new window_size step_size) rs in
    let (fresh, due, w) = add_record-emit m r e in
    let covers = feed-Covers rs (new window_size step_size) [] (new-Covers window_size step_size) in
    let (records, span) =
      emit_exact (arm m r) (accepted rs ++ r ∷ []) (arm-Covers m (accepted rs) r covers)
        (arm-initialized m r) in
    rw w (
      span
          ∙ ap (λ (d : ℕ). (emit (arm m r)).1.start_time + ms d)
              (arm-window_size m r ∙ (feed_sizes rs (new window_size step_size)).0),
      records,
    )
