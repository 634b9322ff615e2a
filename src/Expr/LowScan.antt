-- ===== src/Expr/LowScan.antt =====
-- The loop over items while the main operation is low.
use fpga_npc.Base.{
  drop-past, ℕ, zero, suc, ◌+◌, ◌/◌, ◌≤◌, ◌<◌, ◌≡◌, refl, ap, ◌∙◌, inl, inr, List, [], ◌∷◌, ◌++◌,
  if◌then◌else◌, arith, length, drop, length-append,
}
use mathlib.Core.List.{append_assoc}
use fpga_npc.Expr.{Token, token}
use fpga_npc.Expr.Eval.{is_operand, takes_over, main_loop}
use fpga_npc.Expr.Brackets.{lb, rb}
use fpga_npc.Expr.Items.{Operand, atom, bracketed, IsOperator, Items, last, more, Low}
use fpga_npc.Expr.Rounds.{
  main_loop-operand, main_loop-other, type_at-drop, skip_bracket-group, closing-type, Low-either,
  operator-step,
}

module _ (tokens : List Token) (p q : ℕ) where
  -- One operand, whatever the main operation is: it stays low.
  Operand-Low :
      (k fuel m i : ℕ) {xs : List Token} (rest : List Token)
      → k ≤ 135
      → Operand xs
      → drop i tokens ≡ xs ++ rest
      → i + length xs ≤ q
      → length xs ≤ fuel
      → Low k tokens p m
      → (fuel' : ℕ) × (m' : ℕ) × (main_loop fuel tokens p q m i
          ≡ main_loop fuel' tokens p q m' (i + length xs))
        × Low k tokens p m'
        × (fuel ≤ fuel' + length xs)
  unfolding is_operand
  Operand-Low k zero m i rest h (atom t o) e r f low = absurd (omega arith)
  Operand-Low k (suc fuel) m i rest h (atom t o) e r f low =
      let u = type_at-drop tokens p q i t rest e in
      (fuel, m, main_loop-operand tokens p q fuel m i (omega arith) (rw u o), low, omega arith)
  Operand-Low k zero m i rest h (bracketed b) e r f low = absurd (omega arith)
  Operand-Low k (suc fuel) m i rest h (bracketed {inner} b) e r f low =
      let e' = e ∙ ap (◌∷◌ lb) (append_assoc inner (rb ∷ []) rest) in
      let u = type_at-drop tokens p q i lb (inner ++ rb ∷ rest) e' in
      let j = i + length inner + 1 in
      let s = skip_bracket-group tokens p q i inner rest b e' in
      let m' = if takes_over tokens p m j then j else m in
      let w : length (inner ++ rb ∷ []) ≡ length inner + 1 = length-append inner (rb ∷ []) in
      (
        fuel,
        m',
        main_loop-other tokens p q fuel m i j (omega arith) (rw u refl) s
            ∙ ap (main_loop fuel tokens p q m') (omega arith),
        Low-either tokens p q k m j (closing-type tokens p q i inner rest e') h low,
        omega arith,
      )

  operator-Low :
      (k fuel m i op : ℕ) (rest : List Token)
      → IsOperator op
      → k ≤ op / 2
      → drop i tokens ≡ token op ∷ rest
      → i < q
      → 0 < fuel
      → Low k tokens p m
      → (fuel' : ℕ) × (m' : ℕ) × (main_loop fuel tokens p q m i
          ≡ main_loop fuel' tokens p q m' (i + 1))
        × Low k tokens p m'
        × (fuel ≡ suc fuel')
  operator-Low k zero m i op rest w c e r f low = absurd (omega arith)
  operator-Low k (suc fuel) m i op rest w c e r f low = (
    fuel,
    (if takes_over tokens p m i then i else m),
    operator-step tokens p q fuel m i op rest w e r,
    Low-either tokens p q k m i (type_at-drop tokens p q i (token op) rest e) c low,
    refl,
  )

  -- A run of items with operators of class `k` or above keeps the main operation low.
  pub items-Low :
      (k fuel m i : ℕ) {xs : List Token} (rest : List Token)
      → k ≤ 135
      → Items k xs
      → drop i tokens ≡ xs ++ rest
      → i + length xs ≤ q
      → length xs ≤ fuel
      → Low k tokens p m
      → (fuel' : ℕ) × (m' : ℕ) × (main_loop fuel tokens p q m i
          ≡ main_loop fuel' tokens p q m' (i + length xs))
        × Low k tokens p m'
        × (fuel ≤ fuel' + length xs)
  items-Low k fuel m i rest h (last o) e r f low = Operand-Low k fuel m i rest h o e r f low
  items-Low k fuel m i rest h (more {xs} {ys} op o w c items) e r f low =
      let n : length (xs ++ token op ∷ ys) ≡ length xs + suc (length ys) =
        length-append xs (token op ∷ ys) in
      let e' = e ∙ append_assoc xs (token op ∷ ys) rest in
      let (fuel1, m1, g1, low1, b1) =
        Operand-Low k fuel m i (token op ∷ ys ++ rest) h o e' (omega arith) (omega arith) low in
      let e1 = drop-past i tokens xs (token op ∷ ys ++ rest) e' in
      let (fuel2, m2, g2, low2, b2) =
        operator-Low k fuel1 m1 (i + length xs) op (ys ++ rest) w c e1 (omega arith) (omega arith)
          low1 in
      let e2 = drop-past (i + length xs) tokens (token op ∷ []) (ys ++ rest) e1 in
      let (fuel3, m3, g3, low3, b3) =
        items-Low k fuel2 m2 (i + length xs + 1) rest h items e2 (omega arith) (omega arith) low2 in
      (
        fuel3,
        m3,
        g1 ∙ g2 ∙ g3 ∙ ap (main_loop fuel3 tokens p q m3) (omega arith),
        low3,
        omega arith,
      )

  Operand-start :
      (k : ℕ) {xs : List Token} (rest : List Token)
      → k ≤ 135
      → Operand xs
      → drop p tokens ≡ xs ++ rest
      → Low k tokens p p
  Operand-start k rest h (atom t o) e = inr (refl, rw (type_at-drop tokens p q p t rest e) o)
  Operand-start k rest h (bracketed {inner} b) e =
      inl (rw (type_at-drop tokens p q p lb ((inner ++ rb ∷ []) ++ rest) e) h)

  pub Items-start :
      (k : ℕ) {xs : List Token} (rest : List Token)
      → k ≤ 135
      → Items k xs
      → drop p tokens ≡ xs ++ rest
      → Low k tokens p p
  Items-start k rest h (last o) e = Operand-start k rest h o e
  Items-start k rest h (more {xs} {ys} op o w c items) e =
      Operand-start k (token op ∷ ys ++ rest) h o (e ∙ append_assoc xs (token op ∷ ys) rest)
