-- ===== src/Pipeline/Names/Writes.antt =====
-- The names of function codes in PRISM/src/main.cpp, against what PRISM/src/parser takes for a write.
use prism_dev.Common.{
  ℕ, ◌≡◌, refl, String, Bool, false, ◌||◌, str_eq, ◌==◌, List, [], ◌∷◌, All, Bool-cases, inl, inr,
  ==_iff,
}
use prism_dev.Parser.Modbus
use prism_dev.Pipeline.Names.{fc_name}

-- A claim about a number holds if it holds at each number of a list, and where it is none of them.
by_code :
    (P : ℕ → Type 0) (fc : ℕ) (ks : List ℕ)
    → All P ks
    → (All (λ k. (fc == k) ≡ false) ks → P fc)
    → P fc
by_code P fc [] h rest = rest tt
by_code P fc (k ∷ ks) h rest = elim (Bool-cases (fc == k)) [
  | inl e ↦ (let same : fc ≡ k = (==_iff fc k).0 e in rw same h.0)
  | inr e ↦ by_code P fc ks h.1 (λ es. rest (e, es))
]

-- One of the four names that begin with "Write".
abbrev pub is_write_name : String → Bool
is_write_name s =
    str_eq s "Write Single Coil"
    || str_eq s "Write Single Register"
    || str_eq s "Write Multiple Coils"
    || str_eq s "Write Multiple Registers"

-- The name that is shown for a Modbus function code is one of those that begin with "Write" exactly if
-- the parser takes the code for a write, whatever the code is.
pub fc_name-is_write_code :
    (to_string : ℕ → String) (fc : ℕ)
    → is_write_name (fc_name to_string "Modbus" fc) ≡ Modbus.is_write_code fc
unfolding fc_name Modbus.is_write_code
fc_name-is_write_code to_string fc =
    by_code (λ k. is_write_name (fc_name to_string "Modbus" k) ≡ Modbus.is_write_code k) fc
      (1 ∷ 2 ∷ 3 ∷ 4 ∷ 5 ∷ 6 ∷ 8 ∷ 15 ∷ 16 ∷ [])
      (refl, (refl, (refl, (refl, (refl, (refl, (refl, (refl, (refl, tt)))))))))
      (λ h.
        rw
          (
            h.0, h.1.0, h.1.1.0, h.1.1.1.0, h.1.1.1.1.0, h.1.1.1.1.1.0, h.1.1.1.1.1.1.0,
            h.1.1.1.1.1.1.1.0, h.1.1.1.1.1.1.1.1.0,
          )
          refl)
