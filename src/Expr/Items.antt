-- ===== src/Expr/Items.antt =====
-- Runs of operands and operators. A class is a type without its lowest bit.
use fpga_npc.Base.{
  ℕ, ◌/◌, ◌≤◌, ◌<◌, ◌≡◌, ◌⊎◌, true, false, List, [], ◌∷◌, ◌++◌, arith, length, length-append,
}
use fpga_npc.Expr.{Token, token, type_at}
use fpga_npc.Expr.Eval.{is_operand}
use fpga_npc.Expr.Brackets.{Balanced, lb, rb}

-- A number, or a balanced list in brackets.
pub data Operand : List Token → Type 0 where
  atom : (t : Token) → is_operand t.type ≡ true → Operand (t ∷ [])
  bracketed : {inner : List Token} → Balanced inner → Operand (lb ∷ inner ++ rb ∷ [])

abbrev pub IsOperator : ℕ → Type 0
IsOperator op = (260 ≤ op) × (op < 268)

-- Operands with operators of a class `k` or above between them.
pub data Items (k : ℕ) : List Token → Type 0 where
  last : {xs : List Token} → Operand xs → Items k xs
  more :
      {xs ys : List Token} (op : ℕ)
      → Operand xs
      → IsOperator op
      → k ≤ op / 2
      → Items k ys
      → Items k (xs ++ token op ∷ ys)

-- An operator of class `k` takes over from the main operation `m`.
abbrev pub Low : ℕ → List Token → ℕ → ℕ → Type 0
Low k tokens p m = (k ≤ type_at tokens m / 2) ⊎ ((m ≡ p) × (is_operand (type_at tokens m) ≡ true))

-- No operator of class `k` or above takes over from it.
abbrev pub High : ℕ → List Token → ℕ → Type 0
High k tokens m = (type_at tokens m / 2 < k) × (is_operand (type_at tokens m) ≡ false)

pub Operand-length : {xs : List Token} → Operand xs → 0 < length xs
Operand-length (atom t o) = omega arith
Operand-length (bracketed b) = omega arith

pub Items-length : (k : ℕ) {xs : List Token} → Items k xs → 0 < length xs
Items-length k (last o) = Operand-length o
Items-length k (more {xs} {ys} op o w c items) =
    omega (arith, Operand-length o, length-append xs (token op ∷ ys))

pub operator-operand : (op : ℕ) → IsOperator op → is_operand op ≡ false
unfolding is_operand
operator-operand op h = ground arith
