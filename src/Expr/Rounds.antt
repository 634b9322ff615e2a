-- ===== src/Expr/Rounds.antt =====
-- The rounds of the loop in `get_main_operation_index`, by what stands at the position.
use fpga_npc.Base.{
  get_or-drop, drop-past, ℕ, zero, suc, ◌+◌, ◌/◌, ◌≤◌, ◌<◌, ◌≡◌, ap, ◌∙◌, inl, inr, true, false,
  List, ◌∷◌, ◌++◌, if◌then◌else◌, done, arith, length, drop, Bool-cases,
}
use fpga_npc.Expr.{Token, token, zero_token, type_at, tk_lbracket, tk_rbracket}
use fpga_npc.Expr.Eval.{is_operand, skip_loop, skip_bracket, takes_over, main_loop}
use fpga_npc.Expr.Brackets.{Balanced, lb, rb, skip_loop-group}
use fpga_npc.Expr.Items.{IsOperator, Low, High, operator-operand}

module _ (tokens : List Token) (p q : ℕ) where
  pub main_loop-stop : (fuel m i : ℕ) → q ≤ i → main_loop fuel tokens p q m i ≡ done m
  unfolding main_loop
  main_loop-stop zero m i h = ground arith
  main_loop-stop (suc fuel) m i h = ground arith

  pub main_loop-operand :
      (fuel m i : ℕ)
      → i < q
      → is_operand (type_at tokens i) ≡ true
      → main_loop (suc fuel) tokens p q m i ≡ main_loop fuel tokens p q m (i + 1)
  unfolding main_loop
  main_loop-operand fuel m i h e = ground arith

  pub main_loop-other :
      (fuel m i j : ℕ)
      → i < q
      → is_operand (type_at tokens i) ≡ false
      → skip_bracket tokens i ≡ j
      → main_loop (suc fuel) tokens p q m i
        ≡ main_loop fuel tokens p q (if takes_over tokens p m j then j else m) (j + 1)
  unfolding main_loop
  main_loop-other fuel m i j h e s = ground arith

  pub type_at-drop :
      (i : ℕ) (t : Token) (rest : List Token) → drop i tokens ≡ t ∷ rest → type_at tokens i ≡ t.type
  type_at-drop i t rest e = ap (λ u. u.type) (get_or-drop tokens i zero_token t rest e)

  pub skip_bracket-group :
      (i : ℕ) (inner rest : List Token)
      → Balanced inner
      → drop i tokens ≡ lb ∷ inner ++ rb ∷ rest
      → skip_bracket tokens i ≡ i + length inner + 1
  unfolding skip_bracket
  skip_bracket-group i inner rest b e =
      let t : type_at tokens i ≡ tk_lbracket = type_at-drop i lb (inner ++ rb ∷ rest) e in
      let s = ap (skip_loop 0 i) e ∙ skip_loop-group i rest b in ground arith

  pub skip_bracket-operator :
      (i op : ℕ) (rest : List Token)
      → IsOperator op
      → drop i tokens ≡ token op ∷ rest
      → skip_bracket tokens i ≡ i
  unfolding skip_bracket
  skip_bracket-operator i op rest h e =
      let t : type_at tokens i ≡ op = type_at-drop i (token op) rest e in ground arith

  -- An operator of class `k` takes over from a low main operation.
  pub takes_over-Low :
      (k m j op : ℕ)
      → type_at tokens j ≡ op
      → op / 2 ≡ k
      → Low k tokens p m
      → takes_over tokens p m j ≡ true
  unfolding takes_over
  takes_over-Low k m j op e c (inl h) = rw e (ground arith)
  takes_over-Low k m j op e c (inr h) = ground arith

  -- Nothing of a higher class takes over from a high one.
  pub takes_over-High :
      (k m j t : ℕ)
      → type_at tokens j ≡ t
      → k ≤ t / 2
      → High k tokens m
      → takes_over tokens p m j ≡ false
  unfolding takes_over
  takes_over-High k m j t e c h = rw e (ground arith)

  pub closing-type :
      (i : ℕ) (inner rest : List Token)
      → drop i tokens ≡ lb ∷ inner ++ rb ∷ rest
      → type_at tokens (i + length inner + 1) ≡ tk_rbracket
  closing-type i inner rest e =
      ap (type_at tokens) (omega arith)
      ∙ type_at-drop (i + length (lb ∷ inner)) rb rest
          (drop-past i tokens (lb ∷ inner) (rb ∷ rest) e)

  pub Low-either :
      (k m j : ℕ) {t : ℕ}
      → type_at tokens j ≡ t
      → k ≤ t / 2
      → Low k tokens p m
      → Low k tokens p (if takes_over tokens p m j then j else m)
  Low-either k m j e h low = elim (Bool-cases (takes_over tokens p m j)) [
    | inl y ↦ rw y (inl (rw e h))
    | inr n ↦ rw n low
  ]

  -- The operator behind an operand.
  pub operator-step :
      (fuel m i op : ℕ) (rest : List Token)
      → IsOperator op
      → drop i tokens ≡ token op ∷ rest
      → i < q
      → main_loop (suc fuel) tokens p q m i
        ≡ main_loop fuel tokens p q (if takes_over tokens p m i then i else m) (i + 1)
  operator-step fuel m i op rest h e r =
      let u = type_at-drop i (token op) rest e in
      main_loop-other fuel m i i r (rw u (operator-operand op h))
        (skip_bracket-operator i op rest h e)
