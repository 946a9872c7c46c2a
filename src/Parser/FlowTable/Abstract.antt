-- ===== src/Parser/FlowTable/Abstract.antt =====
-- The table of PRISM/src/parser/flow_table.cpp as a map from keys to states, whatever the order is in
-- which its entries are kept.
use mathlib.Core.Quot
use mathlib.Core.Quot.{Quot, Quot-set}
use prism_dev.Common.{
  ℕ, ◌≡◌, refl, sym, ◌∙◌, arith, true, false, Option, none, some, if◌then◌else◌, ◌⊎◌,
}
use prism_dev.Packet.{RawPacket}
use prism_dev.Parser.FlowTable.{
  FlowKey, key_eq, FlowState, Table, find, forward, reverse, settle, classify,
}
use prism_dev.Parser.FlowTable.Direction.{key_eq_iff, find-put, key_eq-reverse, key_eq-reverse_left}

-- Two tables hold the same state under each key.
abbrev pub SameFlows : Table → Table → Type 0
SameFlows t u = (k : FlowKey) → find k t ≡ find k u

abbrev pub Flows : Type 0
Flows = Quot SameFlows

-- What is found under `k` after a packet with key `f`, from what was found under `f`, under its
-- reverse, and under `k`.
abbrev touched :
    FlowKey
    → FlowKey
    → ℕ
    → Option FlowState
    → Option FlowState
    → Option FlowState
    → Option FlowState
touched k f now (some s) b old = if key_eq f k then some (record s { last_seen = now }) else old
touched k f now none (some s) old =
    if key_eq (reverse f) k then some (record s { last_seen = now }) else old
touched k f now none none old =
    if key_eq f k then some (record { client_is_src = true; last_seen = now }) else old

find-settle :
    (k f : FlowKey) (now : ℕ) (t : Table) (a b : Option FlowState)
    → find k (settle f now t a b).0 ≡ touched k f now a b (find k t)
unfolding settle
find-settle k f now t (some s) b = find-put f k (record s { last_seen = now }) t
find-settle k f now t none (some s) = find-put (reverse f) k (record s { last_seen = now }) t
find-settle k f now t none none = find-put f k (record { client_is_src = true; last_seen = now }) t

find-classify :
    (k : FlowKey) (t : Table) (p : RawPacket)
    → find k (classify t p).0
      ≡ touched k
          (forward p)
          p.timestamp
          (find (forward p) t)
          (find (reverse (forward p)) t)
          (find k t)
unfolding classify
find-classify k t p =
    find-settle k (forward p) p.timestamp t (find (forward p) t) (find (reverse (forward p)) t)

pub classify-SameFlows :
    (p : RawPacket) (t u : Table) → SameFlows t u → SameFlows (classify t p).0 (classify u p).0
classify-SameFlows p t u same k =
    rw
      (
        find-classify k t p,
        find-classify k u p,
        same (forward p),
        same (reverse (forward p)),
        same k,
      )
      refl

-- A packet, on the map.
unfoldable pub next : RawPacket → Flows → Flows
next p =
    Quot.lift Quot-set (λ t. Quot.mk (classify t p).0)
      (λ t u same. Quot.sound (classify-SameFlows p t u same))

-- Two packets are of different flows.
abbrev pub Unrelated : RawPacket → RawPacket → Type 0
Unrelated p q =
    (key_eq (forward p) (forward q) ≡ false) × (key_eq (forward p) (reverse (forward q)) ≡ false)

-- No key is of both flows, in either direction.
abbrev Apart : FlowKey → FlowKey → FlowKey → Type 0
Apart k f g =
    ((key_eq f k ≡ true) ⊎ (key_eq (reverse f) k ≡ true))
    → ((key_eq g k ≡ true) ⊎ (key_eq (reverse g) k ≡ true))
    → ⊥

Unrelated-Apart : (p q : RawPacket) (k : FlowKey) → Unrelated p q → Apart k (forward p) (forward q)
Unrelated-Apart p q k h x y =
    let f = forward p in
    let g = forward q in
    ground (
      arith,
      key_eq_iff f k,
      key_eq_iff (reverse f) k,
      key_eq_iff g k,
      key_eq_iff (reverse g) k,
      key_eq_iff f g,
      key_eq_iff f (reverse g),
    )

touched_kept :
    (k f : FlowKey) (now : ℕ) (a b old : Option FlowState)
    → key_eq f k ≡ false
    → key_eq (reverse f) k ≡ false
    → touched k f now a b old ≡ old
touched_kept k f now (some s) b old h h' = rw h refl
touched_kept k f now none (some s) old h h' = rw h' refl
touched_kept k f now none none old h h' = rw h refl

-- A packet leaves what is found under another flow's keys.
find-kept :
    (t : Table) (p : RawPacket) (k : FlowKey)
    → key_eq (forward p) k ≡ false
    → key_eq (reverse (forward p)) k ≡ false
    → find k (classify t p).0 ≡ find k t
find-kept t p k h h' =
    find-classify k t p
    ∙ touched_kept k (forward p) p.timestamp (find (forward p) t) (find (reverse (forward p)) t)
        (find k t) h h'

touched_comm :
    (k f g : FlowKey) (m n : ℕ) (a b a' b' old : Option FlowState)
    → Apart k f g
    → touched k f m a b (touched k g n a' b' old) ≡ touched k g n a' b' (touched k f m a b old)
touched_comm k f g m n (some s) b (some r) b' old apart = ground (arith, apart)
touched_comm k f g m n (some s) b none (some r) old apart = ground (arith, apart)
touched_comm k f g m n (some s) b none none old apart = ground (arith, apart)
touched_comm k f g m n none (some s) (some r) b' old apart = ground (arith, apart)
touched_comm k f g m n none (some s) none (some r) old apart = ground (arith, apart)
touched_comm k f g m n none (some s) none none old apart = ground (arith, apart)
touched_comm k f g m n none none (some r) b' old apart = ground (arith, apart)
touched_comm k f g m n none none none (some r) old apart = ground (arith, apart)
touched_comm k f g m n none none none none old apart = ground (arith, apart)

key_eq_sym : (k o : FlowKey) → key_eq k o ≡ key_eq o k
key_eq_sym k o = ground (arith, key_eq_iff k o, key_eq_iff o k)

-- What is found after two packets, in terms of what was found before both.
find_twice :
    (t : Table) (p q : RawPacket) (k : FlowKey)
    → Unrelated p q
    → find k (classify (classify t q).0 p).0
      ≡ touched k (forward p) p.timestamp (find (forward p) t) (find (reverse (forward p)) t) (
          touched k
            (forward q)
            q.timestamp
            (find (forward q) t)
            (find (reverse (forward q)) t)
            (find k t))
find_twice t p q k h =
    let f = forward p in
    let g = forward q in
    let there : find f (classify t q).0 ≡ find f t =
      find-kept t q f (key_eq_sym g f ∙ h.0) (key_eq_sym (reverse g) f ∙ h.1) in
    let back : find (reverse f) (classify t q).0 ≡ find (reverse f) t =
      find-kept t q (reverse f) (key_eq_sym g (reverse f) ∙ key_eq-reverse_left f g ∙ h.1)
        (key_eq-reverse g f ∙ key_eq_sym g f ∙ h.0) in
    rw (find-classify k (classify t q).0 p, there, back, find-classify k t q) refl

Unrelated-sym : (p q : RawPacket) → Unrelated p q → Unrelated q p
Unrelated-sym p q h =
    let f = forward p in
    let g = forward q in
    (key_eq_sym g f ∙ h.0, key_eq_sym g (reverse f) ∙ key_eq-reverse_left f g ∙ h.1)

-- Of two packets, where the key of neither is that of the other or its reverse, either may be
-- classified first: the table that both leave, as a map from keys to states, is the same.
pub next_comm :
    (p q : RawPacket)
    → Unrelated p q
    → (flows : Flows) → next p (next q flows) ≡ next q (next p flows)
unfolding next
next_comm p q apart =
    Quot.ind (λ flows. Quot-set _ _)
      (λ t. Quot.sound (λ k.
        find_twice t p q k apart
        ∙ touched_comm k (forward p) (forward q) p.timestamp q.timestamp (find (forward p) t)
            (find (reverse (forward p)) t) (find (forward q) t) (find (reverse (forward q)) t)
            (find k t) (Unrelated-Apart p q k apart)
        ∙ sym (find_twice t q p k (Unrelated-sym p q apart))))
