-- ===== src/Enforcement.antt =====
-- PRISM/src/enforcement/enforcer.cpp. The only state is the flag `locked_`.
use prism_dev.Common.{
  ℕ, String, Bool, true, false, List, [], ◌∷◌, ◌++◌, Option, none, some, bit_and, length, ◌==◌,
  if◌then◌else◌,
}
use prism_dev.Common.Bits.{u8, shr}
use prism_dev.Packet.{RiskLevel, low, medium, high}
use prism_dev.Risk.{RiskDecision}
use prism_dev.Socket.{Effect, opened, closed, wrote, logged}
pub mod Debounce

-- Whether `socket` and `connect` succeed, and what `write` returns: `none` is an error.
pub record Net : Type 0 where
  pub made : Bool
  pub connected : Bool
  pub written : Option ℕ

-- The twelve bytes of the FC5 request to coil 0xFFFF.
unfoldable pub coil_request : ℕ → List ℕ
coil_request value =
    0x00
    ∷ 0x01
    ∷ 0x00
    ∷ 0x00
    ∷ 0x00
    ∷ 0x06
    ∷ 0x01
    ∷ 0x05
    ∷ 0xff
    ∷ 0xff
    ∷ u8 (shr value 8)
    ∷ u8 (bit_and value 0xff)
    ∷ []

-- `sent == sizeof(pdu)`.
abbrev pub all_written : Option ℕ → Bool
all_written none = false
all_written (some n) = n == 12

-- Whether all of the request was written, and the calls made.
unfoldable pub send_safety_coil : ℕ → Net → Bool × List Effect
send_safety_coil value net =
    if net.made
    then (if net.connected
        then (
          all_written net.written,
          opened ∷ wrote (coil_request value) net.written ∷ closed ∷ [],
        )
        else (false, opened ∷ closed ∷ []))
    else (false, [])

abbrev pub engaged_line : String
engaged_line =
    "ENFORCEMENT: Safety coil 0xFFFF engaged — write-lock signal sent to PLC (Modbus FC5)"

-- The case `High` with `restrictWrites`, on an enforcer that is not locked yet.
unfoldable pub engage : Net → Bool × String × List Effect
unfolding send_safety_coil
engage net =
    let (done, effects) = send_safety_coil 0xff00 net in
    if done
    then (true, "Write-lock ENGAGED (coil 0xFFFF)", effects ++ logged engaged_line ∷ [])
    else (false, "Write-lock FAILED (could not reach PLC)", effects)

apply_high : Bool → Bool → Net → Bool × String × List Effect
unfolding engage
apply_high locked true net =
    if locked then (true, "Write-lock active (already engaged)", []) else engage net
apply_high locked false net = (locked, "Escalation without restriction", [])

apply_at : RiskLevel → Bool → Bool → Net → Bool × String × List Effect
unfolding apply_high
apply_at low locked restrict net = (locked, "Monitoring only", [])
apply_at medium locked restrict net = (locked, "Alert operators", [])
apply_at high locked restrict net = apply_high locked restrict net

-- `apply`: `locked_` afterwards, the text that is returned, and the calls made.
unfoldable pub apply {ℓ} : {W : Type ℓ} → Bool → RiskDecision W → Net → Bool × String × List Effect
unfolding apply_at
apply locked decision net = apply_at decision.level locked decision.restrict_writes net
