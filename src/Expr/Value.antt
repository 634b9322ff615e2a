-- ===== src/Expr/Value.antt =====
-- The value of an expression's tokens is the value of its tree.
use mathlib.Core.List.{append_assoc, append-nil}
use fpga_npc.Base.{
  get_or-drop, drop-past, ℕ, zero, suc, ◌+◌, ◌-◌, ◌<◌, ◌≡◌, refl, sym, ap, ◌∙◌, Bool, true, false,
  ◌||◌, not, some, none, List, [], ◌∷◌, ◌++◌, leb, ◌==◌, done, arith, length, take, drop,
  length-append, Bool-cases, ◌⊎◌, inl, inr,
}
use fpga_npc.Reg.{Cpu}
use fpga_npc.Expr.{Token, token, zero_token, type_at}
use fpga_npc.Expr.Eval.{paren_loop, check_parentheses, eval_token, apply_operation, eval}
use fpga_npc.Expr.Entry.{eval_tokens}
use fpga_npc.Expr.Brackets.{Balanced, nil, plain, group, lb, rb, paren_loop-inside}
use fpga_npc.Expr.Items.{Items-length}
use fpga_npc.Expr.Operators.{main_operation}
use fpga_npc.Expr.Syntax.{
  Op, op_type, Tree, bin, class, class-le, level, wrap, render, Means, operand, operation,
  render-Balanced, left-Items, right-Items, right-Balanced, op-IsOperator,
}
use fpga_npc.Expr.Correct.{eval-single, eval-parens, eval-operation, check-group, check-operation}

module _ (c : Cpu) (tokens : List Token) where
  -- `eval` gives a value on the tokens `xs`, wherever they stand.
  Gives : List Token → ℕ → Type 0
  Gives xs v =
      (fuel p : ℕ) (rest : List Token) (success : Bool)
      → drop p tokens ≡ xs ++ rest
      → length xs < fuel
      → eval c tokens fuel p (p + length xs) success ≡ done (v, true)

  Gives-group :
      (xs : List Token) (v : ℕ)
      → Balanced xs
      → 0 < length xs
      → Gives xs v
      → Gives (lb ∷ xs ++ rb ∷ []) v
  unfolding Gives
  Gives-group xs v b l g zero p rest success e f = absurd (omega arith)
  Gives-group xs v b l g (suc fuel) p rest success e f =
      let n = length-append xs (rb ∷ []) in
      let e' = e ∙ ap (◌∷◌ lb) (append_assoc xs (rb ∷ []) rest) in
      ap (λ r. eval c tokens (suc fuel) p r success) (omega arith)
      ∙ eval-parens c tokens fuel p (p + (length xs + 2)) success (omega arith)
          (check-group tokens p xs rest b e')
      ∙ ap (λ r. eval c tokens fuel (p + 1) r success) (omega arith)
      ∙ g fuel (p + 1) (rb ∷ rest) success (drop-past p tokens (lb ∷ []) (xs ++ rb ∷ rest) e')
          (omega arith)

  Gives-wrap :
      (k : ℕ) (e : Tree) (xs : List Token) (v : ℕ)
      → Balanced xs
      → 0 < length xs
      → Gives xs v
      → Gives (wrap k e xs) v
  Gives-wrap k e xs v b l g = elim (Bool-cases (leb k (level e))) [
    | inl y ↦ rw y g
    | inr n ↦ rw n (Gives-group xs v b l g)
  ]

  Gives-operation :
      (op : Op) {a b : Tree} {x y v : ℕ}
      → Means c a x
      → Means c b y
      → apply_operation (op_type op) x y true ≡ done (v, true)
      → Gives (wrap (class op) a (render a)) x
      → Gives (wrap (class op + 1) b (render b)) y
      → Gives (render (bin op a b)) v
  unfolding Gives
  Gives-operation op {a} {b} {x} {y} ma mb h ga gb zero p rest success e f = absurd (omega arith)
  Gives-operation op {a} {b} {x} {y} ma mb h ga gb (suc fuel) p rest success e f =
      let xs = wrap (class op) a (render a) in
      let ys = wrap (class op + 1) b (render b) in
      let t = token (op_type op) in
      let i = p + length xs in
      let lx = Items-length (class op) (left-Items c op ma) in
      let ly = Items-length (class op + 1) (right-Items c op mb) in
      let n : length (xs ++ t ∷ ys) ≡ length xs + suc (length ys) = length-append xs (t ∷ ys) in
      let e1 = e ∙ append_assoc xs (t ∷ ys) rest in
      let e2 = drop-past p tokens xs (t ∷ ys ++ rest) e1 in
      let e3 = drop-past i tokens (t ∷ []) (ys ++ rest) e2 in
      let r : p + length (xs ++ t ∷ ys) ≡ p + length xs + 1 + length ys = omega arith in
      let u : type_at tokens i ≡ op_type op =
        ap (λ w. w.type) (get_or-drop tokens i zero_token t (ys ++ rest) e2) in
      eval-operation c tokens fuel p (p + length (xs ++ t ∷ ys)) i x y success (omega arith)
        (check-operation tokens p (class op) (op_type op) ys rest (left-Items c op ma)
          (op-IsOperator op) (right-Balanced c op mb) e)
        (rw r (
          main_operation (class op) tokens p (op_type op) rest (omega (arith, class-le op))
            (left-Items c op ma) (op-IsOperator op) refl (right-Items c op mb) e))
        (ga fuel p (t ∷ ys ++ rest) success e1 (omega arith))
        (rw r (gb fuel (i + 1) rest true e3 (omega arith)))
      ∙ ap (λ w. apply_operation w x y true) u
      ∙ h

  render-length : {e : Tree} {v : ℕ} → Means c e v → 0 < length (render e)
  render-length (operand o h) = omega arith
  render-length (operation op {a} {b} ma mb h) = omega (
    arith,
    length-append (wrap (class op) a (render a))
        (token (op_type op) ∷ wrap (class op + 1) b (render b)),
  )

  Gives-leaf : (t : Token) (v : ℕ) → eval_token c t ≡ done (v, true) → Gives (t ∷ []) v
  unfolding Gives
  Gives-leaf t v h zero p rest success e f = absurd (omega arith)
  Gives-leaf t v h (suc fuel) p rest success e f =
      eval-single c tokens fuel p success
      ∙ ap (eval_token c) (get_or-drop tokens p zero_token t rest e)
      ∙ h

  Means-Gives : {e : Tree} {v : ℕ} → Means c e v → Gives (render e) v
  Means-Gives (operand {t} {v} o h) = Gives-leaf t v h
  Means-Gives (operation op {a} {b} {x} {y} ma mb h) =
      Gives-operation op ma mb h
        (Gives-wrap (class op) a (render a) x (render-Balanced c ma) (render-length ma)
          (Means-Gives ma))
        (Gives-wrap (class op + 1) b (render b) y (render-Balanced c mb) (render-length mb)
          (Means-Gives mb))

pub take-all : (xs : List Token) → take (length xs) xs ≡ xs
take-all [] = refl
take-all (x ∷ xs) = ap (◌∷◌ x) (take-all xs)

-- A balanced list is never a bad one.
Balanced-zero : (flag : Bool) {ts : List Token} → Balanced ts → (paren_loop 0 flag ts).0 ≡ true
unfolding paren_loop
Balanced-zero flag nil = refl
Balanced-zero flag (plain h b) = rw (h.0, h.1) (Balanced-zero flag b)
Balanced-zero flag (group {inner} {ts} i b) =
    ap (λ (w : Bool × Bool). w.0) (paren_loop-inside 0 flag (rb ∷ ts) i)
    ∙ Balanced-zero (flag || not (length ts == 0)) b

check-not_bad :
    (tokens : List Token)
    → Balanced tokens
    → let bad = (check_parentheses tokens 0 (length tokens)).1 in (bad ≡ none) ⊎ (bad ≡ some false)
unfolding check_parentheses
check-not_bad tokens b =
    let all : take (length tokens - 0) tokens ≡ tokens =
      ap (λ n. take n tokens) (omega arith) ∙ take-all tokens in
    let z = Balanced-zero false b in rw (all, z) (ground arith)

-- The tokens of an expression tree, with brackets only where the grammar of classes needs them,
-- evaluate to the tree's value: if every operand of the tree has a value and every operation gives
-- one without an error, then evaluation ends with that value and *success = true, whatever
-- *success was, with the fuel that expr gives.
pub eval_tokens-render :
    (c : Cpu) (e : Tree) (v : ℕ) (success : Bool)
    → Means c e v
    → eval_tokens c (render e) success ≡ done (v, true)
unfolding eval_tokens Gives
eval_tokens-render c e v success m =
    let value : eval c (render e) (length (render e) + 1) 0 (length (render e)) true
        ≡ done (v, true) =
      ap (λ r. eval c (render e) (length (render e) + 1) 0 r true) (omega arith)
      ∙ Means-Gives c (render e) m (length (render e) + 1) 0 [] true (sym (append-nil (render e)))
          (omega arith) in
    elim (check-not_bad (render e) (render-Balanced c m)) [
      | inl n ↦ rw (n, eval_tokens) value
      | inr n ↦ rw (n, eval_tokens) value
    ]
