-- ===== src/Pipeline/Stages/First.antt =====
-- The first window that PRISM/src/main.cpp assesses.
use mathlib.Core.List.{Memᴰ}
use mathlib.Core.List.{append_assoc, append-nil}
use prism_dev.Common.{
  ℕ, ◌+◌, ◌≤◌, ◌<◌, ◌≡◌, refl, arith, false, List, [], ◌∷◌, ◌++◌, map, length, ◌==◌,
}
use prism_dev.Packet.{ParsedRecord}
use prism_dev.Enforcement.{Net}
use prism_dev.Windowing.{WindowManager, ms, new, add_record}
use prism_dev.Windowing.First.{Before, Gathers, first-Gathers, next-Gathers, late-Gathers}
use prism_dev.Pipeline.Stages.{Assessment, assessed, and_assessed}

abbrev pub records_of : List (ParsedRecord × Net) → List ParsedRecord
records_of = map (λ r. r.0)

-- Some assessment of the list is one of the records `rs`, with the network `net`.
abbrev pub Assesses : List ParsedRecord → Net → List Assessment → Type 0
Assesses rs net as' = (a : Assessment) × Memᴰ a as' × (a.window.records ≡ rs) × (a.net ≡ net)

gathered :
    (rs : List (ParsedRecord × Net)) (m : WindowManager) (end : ℕ) (r : ParsedRecord)
    (taken : List ParsedRecord) (late : ParsedRecord) (net : Net) (rest : List (ParsedRecord × Net))
    → Gathers m end (r ∷ taken)
    → m.last_time ≤ end
    → Before end m.last_time (records_of rs)
    → end < late.timestamp
    → Assesses (r ∷ taken ++ records_of rs) net (assessed m (rs ++ (late, net) ∷ rest))
unfolding assessed
gathered [] m end r taken late net rest g le h lt =
    let emitted = late-Gathers m end (r ∷ taken) late g (omega arith) lt in
    let filled : (length (r ∷ taken) == 0) ≡ false = ground arith in
    rw (emitted, append-nil) (rw (and_assessed, filled) (_, Memᴰ.head refl, refl, refl))
gathered ((q, n) ∷ rs) m end r taken late net rest g le h lt =
    let (quiet, last, g') = next-Gathers m end (r ∷ taken) q g h.0 h.1 in
    let found =
      gathered rs (add_record m q).0 end r (taken ++ q ∷ []) late net rest g' (omega (arith, last))
        (rw last h.2) lt in
    rw quiet (rw (append_assoc) at found)

-- Where the records from the first one on come in order and before its window ends, and the next one
-- comes behind it, the window with all of them is assessed.
pub first-Assesses :
    (w s : ℕ) (r : ParsedRecord) (n : Net) (rs : List (ParsedRecord × Net)) (late : ParsedRecord)
    (net : Net) (rest : List (ParsedRecord × Net))
    → 0 < w
    → Before (r.timestamp + ms w) r.timestamp (records_of rs)
    → r.timestamp + ms w < late.timestamp
    → Assesses (r ∷ records_of rs) net (assessed (new w s) ((r, n) ∷ rs ++ (late, net) ∷ rest))
unfolding assessed
first-Assesses w s r n rs late net rest pos h lt =
    let (quiet, last, g) = first-Gathers w s r pos in
    rw quiet (
      gathered rs (add_record (new w s) r).0 (r.timestamp + ms w) r [] late net rest g
        (omega (arith, last)) (rw last h) lt)
