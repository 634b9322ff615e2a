-- ===== src/Expr/Operators.antt =====
-- Which operator `get_main_operation_index` finds.
use fpga_npc.Base.{
  drop-past, ℕ, zero, suc, ◌+◌, ◌-◌, ◌/◌, ◌≤◌, ◌<◌, ◌≡◌, ap, ◌∙◌, List, [], ◌∷◌, ◌++◌,
  if◌then◌else◌, done, arith, length, drop,
}
use mathlib.Core.List.{append_assoc}
use fpga_npc.Expr.{Token, token, type_at}
use fpga_npc.Expr.Eval.{main_loop, get_main_operation_index}
use fpga_npc.Expr.Items.{IsOperator, Items, Low, Items-length, operator-operand}
use fpga_npc.Expr.Rounds.{type_at-drop, takes_over-Low, operator-step}
use fpga_npc.Expr.LowScan.{items-Low, Items-start}
use fpga_npc.Expr.HighScan.{items-High}

module _ (tokens : List Token) (p q : ℕ) where
  -- From a low main operation the operator takes over, and is kept.
  found-here :
      (k op fuel m i : ℕ) {ys : List Token} (rest : List Token)
      → k ≤ 134
      → IsOperator op
      → op / 2 ≡ k
      → type_at tokens i ≡ op
      → Low k tokens p m
      → (behind : List Token) → drop i tokens ≡ token op ∷ behind
      → i < q
      → Items (k + 1) ys
      → drop (i + 1) tokens ≡ ys ++ rest
      → i + 1 + length ys ≡ q + 1
      → length ys < fuel
      → main_loop fuel tokens p q m i ≡ done i
  found-here k op zero m i rest h w c u low behind e l b e2 r f = absurd (omega arith)
  found-here k op (suc fuel) m i rest h w c u low behind e l b e2 r f =
      operator-step tokens p q fuel m i op behind w e l
      ∙ ap (λ b. main_loop fuel tokens p q (if b then i else m) (i + 1))
          (takes_over-Low tokens p q k m i op u c low)
      ∙ items-High tokens p q (k + 1) fuel i (i + 1) rest (omega arith) b e2 r (omega arith)
          (rw u (omega arith, operator-operand op w))

  main_loop-finds :
      (k op fuel : ℕ) {xs ys : List Token} (rest : List Token)
      → k ≤ 134
      → Items k xs
      → IsOperator op
      → op / 2 ≡ k
      → Items (k + 1) ys
      → drop p tokens ≡ xs ++ token op ∷ ys ++ rest
      → q ≡ p + length xs + length ys
      → fuel ≡ length xs + 1 + length ys
      → main_loop fuel tokens p q p p ≡ done (p + length xs)
  main_loop-finds k op fuel {xs} {ys} rest h a w c b e r f =
      let y : 0 < length ys = Items-length (k + 1) b in
      let i = p + length xs in
      let e' = e ∙ append_assoc xs (token op ∷ ys) rest in
      let (fuel1, m1, g1, low1, b1) =
        items-Low tokens p q k fuel p p (token op ∷ ys ++ rest) (omega arith) a e' (omega arith)
          (omega arith) (Items-start tokens p q k (token op ∷ ys ++ rest) (omega arith) a e') in
      let e1 = drop-past p tokens xs (token op ∷ ys ++ rest) e' in
      let u : type_at tokens i ≡ op = type_at-drop tokens p q i (token op) (ys ++ rest) e1 in
      let e2 = drop-past i tokens (token op ∷ []) (ys ++ rest) e1 in
      g1
      ∙ found-here k op fuel1 m1 i rest h w c u low1 (ys ++ rest) e1 (omega arith) b e2
          (omega arith) (omega arith)

-- In a range of tokens that is a run of operands and operators of class k and above, an operator
-- of class k, and a run of class k + 1 and above, get_main_operation_index gives the position of
-- that operator; brackets around balanced lists count as operands.
pub main_operation :
    (k : ℕ) (tokens : List Token) (p op : ℕ) {xs ys : List Token} (rest : List Token)
    → k ≤ 134
    → Items k xs
    → IsOperator op
    → op / 2 ≡ k
    → Items (k + 1) ys
    → drop p tokens ≡ xs ++ token op ∷ ys ++ rest
    → get_main_operation_index tokens p (p + length xs + 1 + length ys) ≡ done (p + length xs)
unfolding get_main_operation_index
main_operation k tokens p op {xs} {ys} rest h a w c b e =
    main_loop-finds tokens p (p + length xs + 1 + length ys - 1) k op
      (p + length xs + 1 + length ys - p) rest h a w c b e (omega arith) (omega arith)
