-- ===== src/Socket.antt =====
-- What the programs ask of the system's sockets. The outcome of each call is an input of the
-- model, and the calls that were made are a list of effects, with the lines that are logged between
-- them.
use prism_dev.Common.{ℕ, ◌+◌, String, Bool, List, [], ◌∷◌, Option, some, take}

-- Whether `socket`, `getaddrinfo`, `connect` and `send` succeed.
pub record ClientNet : Type 0 where
  pub made : Bool
  pub resolved : Bool
  pub connected : Bool
  pub delivered : Bool

-- Whether `socket`, `bind` and `listen` succeed.
pub record ServerNet : Type 0 where
  pub made : Bool
  pub bound : Bool
  pub listening : Bool

-- `wrote` is a call of `write` with its result, `none` for an error; `sent` one whose result the code
-- does not use, or of which the network's outcome tells.
pub data Effect : Type 0 where
  opened closed : Effect
  sent : List ℕ → Effect
  wrote : List ℕ → Option ℕ → Effect
  logged : String → Effect

abbrev pub opens : List Effect → ℕ
opens [] = 0
opens (opened ∷ es) = 1 + opens es
opens (_ ∷ es) = opens es

abbrev pub closes : List Effect → ℕ
closes [] = 0
closes (closed ∷ es) = 1 + closes es
closes (_ ∷ es) = closes es

-- What was handed to `send` or `write`.
abbrev pub sends : List Effect → List (List ℕ)
sends [] = []
sends (sent b ∷ es) = b ∷ sends es
sends (wrote b n ∷ es) = b ∷ sends es
sends (_ ∷ es) = sends es

-- What the peer gets of the calls of `write`: the bytes that each of them took.
abbrev pub taken : List Effect → List (List ℕ)
taken [] = []
taken (wrote b (some n) ∷ es) = take n b ∷ taken es
taken (_ ∷ es) = taken es

-- The lines that were logged, each as an error.
abbrev pub logs : List Effect → List String
logs [] = []
logs (logged s ∷ es) = s ∷ logs es
logs (_ ∷ es) = logs es
