-- ===== src/Parser/FlowTable/Direction.antt =====
-- Whom PRISM/src/parser/flow_table.cpp takes for the client of a flow.
use prism_dev.Common.{
  str_eq, ◌&&◌, ◌==◌, ℕ, ◌≡◌, ◌↔◌, refl, arith, Bool, true, false, not, List, [], ◌∷◌, ◌++◌, Option,
  none, some, eq_iff, if◌then◌else◌, ap, sym, ◌∙◌,
}
use prism_dev.Packet.{RawPacket}
use prism_dev.Parser.FlowTable.{
  FlowKey, key_eq, FlowState, Table, find, put, forward, reverse, classify, settle, feed,
}

pub key_eq_iff : (k o : FlowKey) → (key_eq k o ≡ true) ↔ (k ≡ o)
key_eq_iff k o = ground (arith, eq_iff k.src o.src, eq_iff k.dst o.dst)

abbrev pub or_else : Option Bool → Option Bool → Option Bool
or_else none b = b
or_else (some a) b = some a

-- The way of a packet with key `f` in the flow of `k`; `none` if it is of another flow.
abbrev pub turn : FlowKey → FlowKey → Option Bool
turn f k = if key_eq f k then some true else if key_eq f (reverse k) then some false else none

-- Whether the first packet of a flow went the way of the key; `none` if the flow has had none.
abbrev pub first_way : FlowKey → List RawPacket → Option Bool
first_way k [] = none
first_way k (p ∷ ps) = or_else (turn (forward p) k) (first_way k ps)

-- The same, as the table has it.
abbrev way_of : Option FlowState → Option FlowState → Option Bool
way_of (some s) o = some s.client_is_src
way_of none (some s) = some (not s.client_is_src)
way_of none none = none

abbrev way : Table → FlowKey → Option Bool
way t k = way_of (find k t) (find (reverse k) t)

pub find-put :
    (k j : FlowKey) (s : FlowState) (t : Table)
    → find j (put k s t) ≡ (if key_eq k j then some s else find j t)
unfolding find put
find-put k j s [] = refl
find-put k j s ((i, q) ∷ t) =
    ground (arith, find-put k j s t, key_eq_iff i k, key_eq_iff k j, key_eq_iff i j)

pub key_eq-reverse : (k o : FlowKey) → key_eq (reverse k) (reverse o) ≡ key_eq k o
key_eq-reverse k o = ground arith

pub key_eq-reverse_left : (k o : FlowKey) → key_eq (reverse k) o ≡ key_eq k (reverse o)
key_eq-reverse_left k o = ground arith

way-settle :
    (f : FlowKey) (now : ℕ) (t : Table) (k : FlowKey) (a b : Option FlowState)
    → find f t ≡ a
    → find (reverse f) t ≡ b
    → way (settle f now t a b).0 k ≡ or_else (way t k) (turn f k)
unfolding settle
way-settle f now t k (some s) b e e' = ground (
  arith,
  find-put f k (record s { last_seen = now }) t,
  find-put f (reverse k) (record s { last_seen = now }) t,
  key_eq_iff f k,
  key_eq_iff f (reverse k),
)
way-settle f now t k none (some s) e e' = ground (
  arith,
  find-put (reverse f) k (record s { last_seen = now }) t,
  find-put (reverse f) (reverse k) (record s { last_seen = now }) t,
  key_eq-reverse f k,
  key_eq-reverse_left f k,
  key_eq_iff f k,
  key_eq_iff f (reverse k),
)
way-settle f now t k none none e e' = ground (
  arith,
  find-put f k fresh t,
  find-put f (reverse k) fresh t,
  key_eq_iff f k,
  key_eq_iff f (reverse k),
)
  where
    fresh : FlowState
    fresh = record { client_is_src = true; last_seen = now }

-- One packet settles the way of its own flow, if it was open, and of no other.
way-classify :
    (t : Table) (p : RawPacket) (k : FlowKey)
    → way (classify t p).0 k ≡ or_else (way t k) (turn (forward p) k)
unfolding classify
way-classify t p k =
    way-settle (forward p) p.timestamp t k (find (forward p) t) (find (reverse (forward p)) t) refl
      refl

or_else_assoc : (a b c : Option Bool) → or_else (or_else a b) c ≡ or_else a (or_else b c)
or_else_assoc none b c = refl
or_else_assoc (some a) b c = refl

way-feed :
    (ps : List RawPacket) (t : Table) (k : FlowKey)
    → way (feed t ps) k ≡ or_else (way t k) (first_way k ps)
unfolding feed
way-feed [] t k = ground arith
way-feed (p ∷ ps) t k =
    way-feed ps (classify t p).0 k
    ∙ ap (λ w. or_else w (first_way k ps)) (way-classify t p k)
    ∙ or_else_assoc (way t k) (turn (forward p) k) (first_way k ps)

first_way-append :
    (k : FlowKey) (ps qs : List RawPacket)
    → first_way k (ps ++ qs) ≡ or_else (first_way k ps) (first_way k qs)
first_way-append k [] qs = refl
first_way-append k (p ∷ ps) qs =
    ap (or_else (turn (forward p) k)) (first_way-append k ps qs)
    ∙ sym (or_else_assoc (turn (forward p) k) (first_way k ps) (first_way k qs))

settle-way :
    (f : FlowKey) (now : ℕ) (t : Table) (a b : Option FlowState)
    → (or_else (way_of a b) (some true) ≡ some (settle f now t a b).1.client_is_src)
      × ((settle f now t a b).1.last_seen ≡ now)
unfolding settle
settle-way f now t (some s) b = (refl, refl)
settle-way f now t none (some s) = (refl, refl)
settle-way f now t none none = (refl, refl)

-- The same with the ways that keys have.
classify-first_way :
    (ps : List RawPacket) (p : RawPacket)
    → let state = (classify (feed [] ps) p).1 in
      (first_way (forward p) (ps ++ p ∷ []) ≡ some state.client_is_src)
      × (state.last_seen ≡ p.timestamp)
unfolding classify find
classify-first_way ps p =
    let f = forward p in
    let t = feed [] ps in
    let (answer, time) = settle-way f p.timestamp t (find f t) (find (reverse f) t) in
    let own : turn f f ≡ some true = ground (arith, key_eq_iff f f) in
    (
      first_way-append f ps (p ∷ [])
          ∙ ap (λ w. or_else w (or_else (turn f f) none)) (sym (way-feed ps [] f))
          ∙ ap (λ w. or_else (way t f) (or_else w none)) own
          ∙ answer,
      time,
    )

-- Whether a packet goes between the ends of another: the same way, or the other way; `none` if it is
-- of another flow.
abbrev pub same_way : RawPacket → RawPacket → Option Bool
same_way q p =
    if str_eq q.src_ip p.src_ip
      && str_eq q.dst_ip p.dst_ip
      && q.src_port == p.src_port
      && q.dst_port == p.dst_port
    then some true
    else if str_eq q.src_ip p.dst_ip
        && str_eq q.dst_ip p.src_ip
        && q.src_port == p.dst_port
        && q.dst_port == p.src_port
    then some false
    else none

-- Whether the first packet between the ends of `p` went the way of `p`.
abbrev pub begun_by : RawPacket → List RawPacket → Option Bool
begun_by p [] = none
begun_by p (q ∷ qs) = or_else (same_way q p) (begun_by p qs)

begun_by-first_way :
    (p : RawPacket) (qs : List RawPacket) → begun_by p qs ≡ first_way (forward p) qs
begun_by-first_way p [] = refl
begun_by-first_way p (q ∷ qs) = ap (or_else (same_way q p)) (begun_by-first_way p qs)

-- After any sequence of packets, a packet is taken to come from the client of its flow exactly if the
-- first of the packets, itself included, that went between its two addresses and ports in either
-- direction went the same way; and its time is the one that is noted.
pub classify-begun_by :
    (ps : List RawPacket) (p : RawPacket)
    → let state = (classify (feed [] ps) p).1 in
      (begun_by p (ps ++ p ∷ []) ≡ some state.client_is_src) × (state.last_seen ≡ p.timestamp)
classify-begun_by ps p =
    let (client, time) = classify-first_way ps p in
    (begun_by-first_way p (ps ++ p ∷ []) ∙ client, time)
