-- ===== src/Windowing/Slices.antt =====
-- Slices of a list of records by time, for PRISM/src/window/window_manager.cpp.
use prism_dev.Common.{ℕ, ◌≤◌, ◌≡◌, refl, sym, ap, ◌∙◌, arith, Bool, List, [], ◌∷◌, ◌++◌, keep, leb}
use prism_dev.Packet.{ParsedRecord}
use prism_dev.Windowing.{within, drop_older}

abbrev pub since : ℕ → ParsedRecord → Bool
since t r = leb t r.timestamp

pub keep-append :
    (p : ParsedRecord → Bool) (xs ys : List ParsedRecord)
    → keep p (xs ++ ys) ≡ keep p xs ++ keep p ys
keep-append p [] ys = refl
keep-append p (x ∷ xs) ys = ground (arith, keep-append p xs ys)

-- The loop drops only what is older.
pub keep-drop_older :
    (t : ℕ) (xs : List ParsedRecord) → keep (since t) (drop_older t xs) ≡ keep (since t) xs
unfolding drop_older
keep-drop_older t [] = refl
keep-drop_older t (x ∷ xs) = ground (arith, keep-drop_older t xs)

-- What is kept by a later time is kept by an earlier one.
keep_later :
    (s t : ℕ) (xs : List ParsedRecord)
    → s ≤ t
    → keep (since t) (keep (since s) xs) ≡ keep (since t) xs
keep_later s t [] h = refl
keep_later s t (x ∷ xs) h = ground (arith, keep_later s t xs h)

keep-within :
    (s e : ℕ) (xs : List ParsedRecord)
    → keep (within s e) (keep (since s) xs) ≡ keep (within s e) xs
keep-within s e [] = refl
keep-within s e (x ∷ xs) = ground (arith, keep-within s e xs)

pub same_later :
    (s t : ℕ) (xs ys : List ParsedRecord)
    → s ≤ t
    → keep (since s) xs ≡ keep (since s) ys
    → keep (since t) xs ≡ keep (since t) ys
same_later s t xs ys h e = sym (keep_later s t xs h) ∙ ap (keep (since t)) e ∙ keep_later s t ys h

pub same_within :
    (s e : ℕ) (xs ys : List ParsedRecord)
    → keep (since s) xs ≡ keep (since s) ys
    → keep (within s e) xs ≡ keep (within s e) ys
same_within s e xs ys h = sym (keep-within s e xs) ∙ ap (keep (within s e)) h ∙ keep-within s e ys
