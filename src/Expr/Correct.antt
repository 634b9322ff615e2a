-- ===== src/Expr/Correct.antt =====
-- `eval` on the tokens of a tree gives the value of the tree.
use mathlib.Core.List.{append_assoc, append-nil}
use fpga_npc.Base.{
  get_or-drop, drop-past, take-append, ℕ, suc, ◌+◌, ◌-◌, ◌<◌, ◌≡◌, refl, sym, ap, ◌∙◌, Bool, true,
  false, not, List, [], ◌∷◌, ◌++◌, ◌==◌, done, arith, length, get_or, take, drop, length-append,
}
use fpga_npc.Reg.{Cpu}
use fpga_npc.Expr.{Token, token, zero_token, type_at, tk_lbracket, tk_rbracket}
use fpga_npc.Expr.Eval.{
  paren_loop, check_parentheses, get_main_operation_index, eval_token, apply_operation, eval,
}
use fpga_npc.Expr.Brackets.{
  Balanced, plain, Balanced-append, lb, rb, paren_loop-open, paren_loop-inside, paren_loop-flagged,
}
use fpga_npc.Expr.Items.{Operand, atom, bracketed, Items, last, more, IsOperator}
use fpga_npc.Expr.Syntax.{operator-IsPlain, operand-IsPlain, Items-Balanced}

-- The tokens of a range.
range :
    (tokens : List Token) (p : ℕ) (xs rest : List Token)
    → drop p tokens ≡ xs ++ rest
    → take (p + length xs - p) (drop p tokens) ≡ xs
range tokens p xs rest e =
    ap (λ n. take n (drop p tokens)) (omega arith) ∙ ap (take (length xs)) e ∙ take-append xs rest

paren_loop-group :
    (ts : List Token) → Balanced ts → paren_loop 0 false (lb ∷ ts ++ rb ∷ []) ≡ (true, false)
unfolding paren_loop
paren_loop-group ts b =
    paren_loop-open 0 false (ts ++ rb ∷ []) ∙ paren_loop-inside 0 false (rb ∷ []) b

paren_loop-closes :
    (t : Token) (rest : List Token)
    → paren_loop 1 false (rb ∷ t ∷ rest) ≡ paren_loop 0 true (t ∷ rest)
unfolding paren_loop
paren_loop-closes t rest =
    let h : (suc (length rest) == 0) ≡ false = ground arith in
    ap (λ b. paren_loop 0 (not b) (t ∷ rest)) h

paren_loop-end : paren_loop 0 true [] ≡ (true, true)
unfolding paren_loop
paren_loop-end = refl

-- A group that closes before the end sets the flag.
paren_loop-groups :
    (ts : List Token) (t : Token) (rest : List Token)
    → Balanced ts
    → Balanced (t ∷ rest)
    → paren_loop 0 false (lb ∷ ts ++ rb ∷ t ∷ rest) ≡ (true, true)
paren_loop-groups ts t rest b b' =
    paren_loop-open 0 false (ts ++ rb ∷ t ∷ rest)
    ∙ paren_loop-inside 0 false (rb ∷ t ∷ rest) b
    ∙ paren_loop-closes t rest
    ∙ ap (paren_loop 0 true) (sym (append-nil (t ∷ rest)))
    ∙ paren_loop-flagged 0 [] b'
    ∙ paren_loop-end

-- One round of `eval` on each branch.
module _ (c : Cpu) (tokens : List Token) where
  pub eval-single :
      (fuel p : ℕ) (success : Bool)
      → eval c tokens (suc fuel) p (p + 1) success ≡ eval_token c (get_or tokens p zero_token)
  unfolding eval
  eval-single fuel p success = ground arith

  pub eval-parens :
      (fuel p r : ℕ) (success : Bool)
      → p + 1 < r
      → (check_parentheses tokens p r).0 ≡ true
      → eval c tokens (suc fuel) p r success ≡ eval c tokens fuel (p + 1) (r - 1) success
  unfolding eval
  eval-parens fuel p r success h e = ground arith

  pub eval-operation :
      (fuel p r op x y : ℕ) (success : Bool)
      → p + 1 < r
      → (check_parentheses tokens p r).0 ≡ false
      → get_main_operation_index tokens p r ≡ done op
      → eval c tokens fuel p op success ≡ done (x, true)
      → eval c tokens fuel (op + 1) r true ≡ done (y, true)
      → eval c tokens (suc fuel) p r success ≡ apply_operation (type_at tokens op) x y true
  unfolding eval
  eval-operation fuel p r op x y success h e m a b = ground arith

-- `check_parentheses` on a group, and on an operation.
module _ (tokens : List Token) (p : ℕ) where
  pub check-group :
      (ts rest : List Token)
      → Balanced ts
      → drop p tokens ≡ lb ∷ ts ++ rb ∷ rest
      → (check_parentheses tokens p (p + (length ts + 2))).0 ≡ true
  unfolding check_parentheses
  check-group ts rest b e =
      let first : type_at tokens p ≡ tk_lbracket = type_at-first p lb (ts ++ rb ∷ rest) e in
      let final : type_at tokens (p + (length ts + 2) - 1) ≡ tk_rbracket =
        ap (type_at tokens) (omega arith)
        ∙ type_at-first (p + length (lb ∷ ts)) rb rest
            (drop-past p tokens (lb ∷ ts) (rb ∷ rest) e) in
      let all : take (p + (length ts + 2) - p) (drop p tokens) ≡ lb ∷ ts ++ rb ∷ [] =
        ap (λ n. take n (drop p tokens)) (omega (arith, length-append ts (rb ∷ [])))
        ∙ range tokens p (lb ∷ ts ++ rb ∷ []) rest
            (e ∙ sym (ap (◌∷◌ lb) (append_assoc ts (rb ∷ []) rest))) in
      rw (first, final, all, paren_loop-group ts b)
    where
      type_at-first :
          (i : ℕ) (t : Token) (ys : List Token) → drop i tokens ≡ t ∷ ys → type_at tokens i ≡ t.type
      type_at-first i t ys e = ap (λ u. u.type) (get_or-drop tokens i zero_token t ys e)

  -- The first token of an operand is its own closing bracket's, or no bracket.
  check-Operand :
      (t : Token) (ys : List Token) {xs : List Token} (rest : List Token)
      → Operand xs
      → Balanced (t ∷ ys)
      → drop p tokens ≡ (xs ++ t ∷ ys) ++ rest
      → (check_parentheses tokens p (p + length (xs ++ t ∷ ys))).0 ≡ false
  unfolding check_parentheses
  check-Operand t ys rest (atom a o) b e =
      let first : type_at tokens p ≡ a.type =
        ap (λ u. u.type) (get_or-drop tokens p zero_token a (t ∷ ys ++ rest) e) in
      let plain : (a.type == tk_lbracket) ≡ false = (operand-IsPlain a o).0 in
      rw (first, plain) refl
  check-Operand t ys rest (bracketed {inner} i) b e =
      let xs = lb ∷ inner ++ rb ∷ [] in
      let all : take (p + length (xs ++ t ∷ ys) - p) (drop p tokens) ≡ lb ∷ inner ++ rb ∷ t ∷ ys =
        range tokens p (xs ++ t ∷ ys) rest e
        ∙ ap (◌∷◌ lb) (append_assoc inner (rb ∷ []) (t ∷ ys)) in
      rw (all, paren_loop-groups inner t ys i b) (ground arith)

-- So no operation is taken for a group.
pub check-operation :
    (tokens : List Token) (p k op : ℕ) {xs : List Token} (ys rest : List Token)
    → Items k xs
    → IsOperator op
    → Balanced ys
    → drop p tokens ≡ (xs ++ token op ∷ ys) ++ rest
    → (check_parentheses tokens p (p + length (xs ++ token op ∷ ys))).0 ≡ false
check-operation tokens p k op ys rest (last o) w b e =
    check-Operand tokens p (token op) ys rest o (plain (operator-IsPlain op w) b) e
check-operation tokens p k op ys rest (more {xs} {ys = zs} op1 o w1 c1 items) w b e =
    let a = append_assoc xs (token op1 ∷ zs) (token op ∷ ys) in
    rw a (
      check-Operand tokens p (token op1) (zs ++ token op ∷ ys) rest o
        (plain (operator-IsPlain op1 w1)
          (Balanced-append (Items-Balanced k items) (plain (operator-IsPlain op w) b)))
        (rw a at e))
