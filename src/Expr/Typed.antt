-- ===== src/Expr/Typed.antt =====
-- `expr` on the text of an expression tree.
use mathlib.Core.List.{append_assoc, append-nil}
use fpga_npc.Base.{
  ℕ, ◌+◌, ◌*◌, ◌≤◌, ◌≡◌, refl, sym, subst, Bool, true, false, some, List, [], ◌∷◌, ◌++◌, ◌==◌, leb,
  done, length, length-append, arith, Bool-cases, inl, inr,
}
use fpga_npc.Reg.{Cpu}
use fpga_npc.Expr.{Token, token, tk_mult}
use fpga_npc.Expr.Brackets.{rb}
use fpga_npc.Expr.Lexer.{last_type, make_token}
use fpga_npc.Expr.Eval.{is_operand}
use fpga_npc.Expr.Entry.{expr}
use fpga_npc.Expr.Syntax.{
  Op, or, and, eq, ueq, plus, sub, mult, div, op_type, Tree, leaf, bin, class, level, wrap, render,
  Means, operand, operation,
}
use fpga_npc.Expr.Value.{eval_tokens-render}
use fpga_npc.Expr.Printing.{
  Readable, reads_or, reads_and, reads_eq, reads_ueq, reads_plus, reads_sub, reads_mult, reads_div,
  reads_lbracket, reads_rbracket, spell, print,
}
use fpga_npc.Expr.Reading.{closes, Written, spell-starts, token_loop-print}

-- Every operand of the tree can be written as a text.
abbrev pub Leaves : Tree → Type 0
Leaves (leaf t) = Readable t
Leaves (bin op a b) = Leaves a × Leaves b

op-Readable : (op : Op) → Readable (token (op_type op))
op-Readable or = reads_or
op-Readable and = reads_and
op-Readable eq = reads_eq
op-Readable ueq = reads_ueq
op-Readable plus = reads_plus
op-Readable sub = reads_sub
op-Readable mult = reads_mult
op-Readable div = reads_div

-- What can be written behind a closing token can be written behind the tokens of an operand.
abbrev Placed : List Token → Type 0
Placed ts = (b : Bool) (rest : List Token) → Written true rest → Written b (ts ++ rest)

wrap-Placed : (k : ℕ) (e : Tree) (ts : List Token) → Placed ts → Placed (wrap k e ts)
wrap-Placed k e ts p b rest w = elim (Bool-cases (leb k (level e))) [
  | inl y ↦ rw y (p b rest w)
  | inr n ↦ rw n (
    reads_lbracket,
    (λ m. ground arith),
    subst (Written false) (sym (append_assoc ts (rb ∷ []) rest))
        (p false (rb ∷ rest) (reads_rbracket, (λ m. refl), w)),
  )
]

operand-closes : (t : Token) → is_operand t.type ≡ true → closes t.type ≡ true
unfolding is_operand
operand-closes t o = ground arith

operand-not_mult : (t : Token) → is_operand t.type ≡ true → (t.type == tk_mult) ≡ false
unfolding is_operand
operand-not_mult t o = ground arith

render-Placed : {c : Cpu} {e : Tree} {v : ℕ} → Means c e v → Leaves e → Placed (render e)
render-Placed (operand {t} o h) l b rest w =
    (l, (λ m. ground (arith, operand-not_mult t o, m)), rw (operand-closes t o) w)
render-Placed (operation op {a} {b} ma mb h) l flag rest w =
    let right = wrap (class op + 1) b (render b) in
    subst (Written flag)
      (sym (append_assoc (wrap (class op) a (render a)) (token (op_type op) ∷ right) rest))
      (wrap-Placed (class op) a (render a) (render-Placed ma l.0) flag
        (token (op_type op) ∷ right ++ rest)
        (
          op-Readable op,
          (λ m. refl),
          wrap-Placed (class op + 1) b (render b) (render-Placed mb l.1) (closes (op_type op)) rest
              w,
        ))

length-spell : {t : Token} → Readable t → 1 ≤ length (spell t)
length-spell r = let (c, s, e, n) = spell-starts r in rw e (omega arith)

length-print : (b : Bool) (ts : List Token) → Written b ts → 2 * length ts ≤ length (print ts)
length-print b [] w = omega arith
length-print b (t ∷ ts) w = omega (
  arith,
  length-spell w.0,
  length-print (closes t.type) ts w.2,
  length-append (spell t) (32 ∷ print ts),
)

-- At most 1024 readable tokens, each TK_MULT behind an operand or a closing bracket, written with
-- a space behind each, are what make_token gives for that text.
pub make_token-print :
    (ts : List Token) → Written false ts → length ts ≤ 1024 → make_token (print ts) ≡ done (some ts)
unfolding make_token
make_token-print ts w l =
    token_loop-print (length (print ts)) false ts [] w (unfold last_type in refl)
      (length-print false ts w) (omega (arith, l))

-- The text of an expression tree, its tokens with brackets where they are needed and a space
-- behind each, is evaluated by expr to the tree's value with *success = true, whatever *success
-- was, if the tree has a value, its operands are numbers of less than 32 digits, hexadecimal
-- numbers of less than 30 digits behind the 0x or registers of two characters, and it has at most
-- 1024 tokens.
pub expr-render :
    (c : Cpu) (e : Tree) (v : ℕ) (success : Bool)
    → Means c e v
    → Leaves e
    → length (render e) ≤ 1024
    → expr c (print (render e)) success ≡ done (v, true)
unfolding expr
expr-render c e v success m l short =
    let w = subst (Written false) (append-nil (render e)) (render-Placed m l false [] tt) in
    rw (make_token-print (render e) w short) (eval_tokens-render c e v success m)
