-- ===== src/Enforcement/Debounce.antt =====
-- When PRISM/src/enforcement/enforcer.cpp signals the PLC.
use prism_dev.Common.{
  ◌==◌, length, not, some, ℕ, ◌+◌, ◌≡◌, ◌↔◌, ◌⊎◌, refl, arith, Bool, true, false, ◌&&◌, List, [],
  ◌∷◌,
}
use prism_dev.Packet.{high}
use prism_dev.Risk.{RiskDecision}
use prism_dev.Socket.{logs, taken, opens, closes, sends}
use prism_dev.Enforcement.{wrote, Effect, Net, coil_request, apply}

abbrev pub bit : Bool → ℕ
bit true = 1
bit false = 0

-- The network carries the request and takes all of its bytes.
abbrev pub Reaches : Net → Type 0
Reaches net = (net.made ≡ true) × (net.connected ≡ true) × (net.written ≡ some 12)

-- The Modbus request to write a single coil: that of address 0xFFFF, on.
abbrev pub lock_bytes : List ℕ
lock_bytes = 0x00 ∷ 0x01 ∷ 0x00 ∷ 0x00 ∷ 0x00 ∷ 0x06 ∷ 0x01 ∷ 0x05 ∷ 0xff ∷ 0xff ∷ 0xff ∷ 0x00 ∷ []

abbrev same_bytes : List ℕ → List ℕ → Bool
same_bytes [] [] = true
same_bytes [] (c ∷ cs) = false
same_bytes (b ∷ bs) [] = false
same_bytes (b ∷ bs) (c ∷ cs) = b == c && same_bytes bs cs

-- How often the socket took all the bytes of the lock request.
abbrev pub full_writes : List Effect → ℕ
full_writes [] = 0
full_writes (wrote b (some n) ∷ es) =
    bit (same_bytes b lock_bytes && n == length lock_bytes) + full_writes es
full_writes (_ ∷ es) = full_writes es

module _ {ℓ} {W : Type ℓ} where
  -- A decision that asks for the lock, on an enforcer that has not set it.
  abbrev pub Asks : Bool → RiskDecision W → Type 0
  Asks locked decision =
      (locked ≡ false) × (decision.level ≡ high) × (decision.restrict_writes ≡ true)

  -- The lock is set afterwards exactly when it was before, or when a decision asks for it and the
  -- request reaches the PLC; the lock request is handed to `write` when a decision asks for it and
  -- the connection is made, and otherwise nothing is; every socket that is opened is closed.
  pub apply_lem :
      (locked : Bool) (decision : RiskDecision W) (net : Net)
      → let (locked', text, effects) = apply locked decision net in
        ((locked' ≡ true) ↔ ((locked ≡ true) ⊎ (Asks locked decision × Reaches net)))
        × (Asks locked decision × (net.made ≡ true) × (net.connected ≡ true)
            → sends effects ≡ coil_request 0xff00 ∷ [])
        × ((¬ (Asks locked decision × (net.made ≡ true) × (net.connected ≡ true)))
            → sends effects ≡ [])
        × (opens effects ≡ closes effects)
  unfolding apply
  apply_lem locked decision net = ground arith

  -- What the socket takes and what is logged in the cases that the PLC and the log depend on: an
  -- enforcer with its lock set makes no call; one that sets it has the whole request taken, and one
  -- error line is logged then and at no other time.
  pub apply_outcome :
      (locked : Bool) (decision : RiskDecision W) (net : Net)
      → let (locked', text, effects) = apply locked decision net in
        (locked ≡ true → taken effects ≡ [])
        × (Asks locked decision × Reaches net → taken effects ≡ lock_bytes ∷ [])
        × (length (logs effects) ≡ bit (locked' && not locked))
  unfolding apply coil_request
  apply_outcome locked decision net = ground arith

  -- The lock after a sequence of decisions, each with what the network does then.
  unfoldable pub run : Bool → List (RiskDecision W × Net) → Bool
  run locked [] = locked
  run locked ((decision, net) ∷ rest) = run (apply locked decision net).0 rest

  -- How often the socket took the whole request in a run.
  unfoldable pub delivered : Bool → List (RiskDecision W × Net) → ℕ
  delivered locked [] = 0
  delivered locked ((decision, net) ∷ rest) =
      let (locked', text, effects) = apply locked decision net in
      full_writes effects + delivered locked' rest

  -- The rounds in which a socket was opened.
  unfoldable pub attempts : Bool → List (RiskDecision W × Net) → ℕ
  attempts locked [] = 0
  attempts locked ((decision, net) ∷ rest) =
      let (locked', text, effects) = apply locked decision net in
      opens effects + attempts locked' rest

  one_round :
      (locked : Bool) (decision : RiskDecision W) (net : Net)
      → let (locked', text, effects) = apply locked decision net in
        full_writes effects + bit locked ≡ bit locked'
  unfolding apply coil_request
  one_round locked decision net = ground arith

  -- Over any run the socket takes all twelve bytes of the lock request exactly once if the run sets
  -- the lock, and never if it does not, or if the lock was set at its start.
  pub delivered_once :
      (locked : Bool) (rounds : List (RiskDecision W × Net))
      → delivered locked rounds + bit locked ≡ bit (run locked rounds)
  unfolding delivered run
  delivered_once locked [] = omega arith
  delivered_once locked ((decision, net) ∷ rest) =
      omega
        (arith, one_round locked decision net, delivered_once (apply locked decision net).0 rest)

  locked_quiet :
      (decision : RiskDecision W) (net : Net)
      → ((apply true decision net).0 ≡ true) × (opens (apply true decision net).2 ≡ 0)
  unfolding apply
  locked_quiet decision net = ground arith

  -- Once the lock is set it stays set over any later decisions, and none of them opens a socket.
  pub never_again :
      (rounds : List (RiskDecision W × Net)) → (run true rounds ≡ true) × (attempts true rounds ≡ 0)
  unfolding run attempts
  never_again [] = (refl, refl)
  never_again ((decision, net) ∷ rest) =
      let (still, quiet) = locked_quiet decision net in
      let ih = never_again rest in rw still (ih.0, omega arith)
