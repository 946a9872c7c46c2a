-- ===== src/Alerting.antt =====
-- PRISM/src/alert/alert_system.cpp: the dispatcher of alerts, with the types of
-- PRISM/include/prism.hpp. A handler is what it does to a state that all handlers share.
use prism_dev.Common.{◌≡◌, refl, String, List, [], ◌∷◌, ◌++◌}

pub data AlertLevel : Type 0 where
  info warning critical : AlertLevel

pub record AlertContext {ℓ} (W : Type ℓ) : Type ℓ where
  pub level : AlertLevel
  pub risk_probability : W
  pub message : String

abbrev pub AlertHandler {ℓ ℓ'} : Type ℓ → Type ℓ' → Type (ℓ ⊔ ℓ')
AlertHandler W S = AlertContext W → S → S

module _ {ℓ ℓ'} {W : Type ℓ} {S : Type ℓ'} where
  -- `handlers_` after the handler was pushed to its back.
  unfoldable pub register_handler :
      AlertHandler W S → List (AlertHandler W S) → List (AlertHandler W S)
  register_handler h hs = hs ++ h ∷ []

  unfoldable pub dispatch : List (AlertHandler W S) → AlertContext W → S → S
  dispatch [] ctx s = s
  dispatch (h ∷ hs) ctx s = dispatch hs ctx (h ctx s)

  -- The handlers registered before run first, and the one registered last runs last, on what they
  -- leave.
  dispatch-register_handler :
      (h : AlertHandler W S) (hs : List (AlertHandler W S)) (ctx : AlertContext W) (s : S)
      → dispatch (register_handler h hs) ctx s ≡ h ctx (dispatch hs ctx s)
  unfolding dispatch register_handler
  dispatch-register_handler h [] ctx s = refl
  dispatch-register_handler h (k ∷ hs) ctx s = dispatch-register_handler h hs ctx (k ctx s)
