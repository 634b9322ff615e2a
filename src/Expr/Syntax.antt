-- ===== src/Expr/Syntax.antt =====
-- Expressions as trees: how they are written in tokens, and what they mean.
use mathlib.Core.List.{append_assoc}
use fpga_npc.Base.{
  ℕ, ◌+◌, ◌/◌, ◌≤◌, ◌≡◌, true, List, [], ◌∷◌, ◌++◌, leb, if◌then◌else◌, done, arith, Bool-cases,
  inl, inr,
}
use fpga_npc.Reg.{Cpu}
use fpga_npc.Expr.{Token, token, tk_or, tk_and, tk_eq, tk_ueq, tk_plus, tk_sub, tk_mult, tk_div}
use fpga_npc.Expr.Eval.{is_operand, eval_token, apply_operation}
use fpga_npc.Expr.Brackets.{IsPlain, Balanced, nil, plain, group, Balanced-append, lb, rb}
use fpga_npc.Expr.Items.{Operand, atom, bracketed, IsOperator, Items, last, more}

pub data Op : Type 0 where
  or and eq ueq plus sub mult div : Op

abbrev pub op_type : Op → ℕ
op_type or = tk_or
op_type and = tk_and
op_type eq = tk_eq
op_type ueq = tk_ueq
op_type plus = tk_plus
op_type sub = tk_sub
op_type mult = tk_mult
op_type div = tk_div

pub data Tree : Type 0 where
  leaf : Token → Tree
  bin : Op → Tree → Tree → Tree

-- The two types of a class bind equally, and a higher class binds tighter.
abbrev pub class : Op → ℕ
class op = op_type op / 2

abbrev pub level : Tree → ℕ
level (leaf t) = 135
level (bin op a b) = class op

-- Brackets where the tree does not bind tightly enough for its place.
abbrev pub wrap : ℕ → Tree → List Token → List Token
wrap k e ts = if leb k (level e) then ts else lb ∷ ts ++ rb ∷ []

-- Operators of one class group to the left.
abbrev pub render : Tree → List Token
render (leaf t) = t ∷ []
render (bin op a b) =
    wrap (class op) a (render a) ++ token (op_type op) ∷ wrap (class op + 1) b (render b)

-- The value of a tree: each operand has one, and each operation gives one without an error.
pub data Means (c : Cpu) : Tree → ℕ → Type 0 where
  operand :
      {t : Token} {v : ℕ}
      → is_operand t.type ≡ true
      → eval_token c t ≡ done (v, true)
      → Means c (leaf t) v
  operation :
      (op : Op) {a b : Tree} {x y v : ℕ}
      → Means c a x
      → Means c b y
      → apply_operation (op_type op) x y true ≡ done (v, true)
      → Means c (bin op a b) v

pub op-IsOperator : (op : Op) → IsOperator (op_type op)
op-IsOperator op = ground arith

pub class-le : (op : Op) → class op ≤ 133
class-le op = ground arith

pub operator-IsPlain : (op : ℕ) → IsOperator op → IsPlain (token op)
operator-IsPlain op h = (ground arith, ground arith)

op-IsPlain : (op : Op) → IsPlain (token (op_type op))
op-IsPlain op = operator-IsPlain (op_type op) (op-IsOperator op)

pub operand-IsPlain : (t : Token) → is_operand t.type ≡ true → IsPlain t
unfolding is_operand
operand-IsPlain t h = (ground arith, ground arith)

Operand-Balanced : {xs : List Token} → Operand xs → Balanced xs
Operand-Balanced (atom t o) = plain (operand-IsPlain t o) nil
Operand-Balanced (bracketed b) = group b nil

pub Items-Balanced : (k : ℕ) {xs : List Token} → Items k xs → Balanced xs
Items-Balanced k (last o) = Operand-Balanced o
Items-Balanced k (more op o w c items) =
    Balanced-append (Operand-Balanced o) (plain (operator-IsPlain op w) (Items-Balanced k items))

wrap-Balanced : (k : ℕ) (e : Tree) {ts : List Token} → Balanced ts → Balanced (wrap k e ts)
wrap-Balanced k e b = elim (Bool-cases (leb k (level e))) [
  | inl y ↦ rw y b
  | inr n ↦ rw n (group b nil)
]

pub render-Balanced : (c : Cpu) {e : Tree} {v : ℕ} → Means c e v → Balanced (render e)
render-Balanced c (operand {t} o h) = plain (operand-IsPlain t o) nil
render-Balanced c (operation op {a} {b} ma mb h) =
    Balanced-append (wrap-Balanced (class op) a (render-Balanced c ma))
      (plain (op-IsPlain op) (wrap-Balanced (class op + 1) b (render-Balanced c mb)))

Items-mono : (j k : ℕ) {xs : List Token} → j ≤ k → Items k xs → Items j xs
Items-mono j k h (last o) = last o
Items-mono j k h (more op o w c items) = more op o w (omega arith) (Items-mono j k h items)

Items-append :
    (k op : ℕ) {xs ys : List Token}
    → Items k xs
    → IsOperator op
    → k ≤ op / 2
    → Items k ys
    → Items k (xs ++ token op ∷ ys)
Items-append k op (last o) w c b = more op o w c b
Items-append k op {ys = ys} (more {xs} {ys = zs} op1 o w1 c1 a) w c b =
    rw (append_assoc xs (token op1 ∷ zs) (token op ∷ ys))
      (more op1 o w1 c1 (Items-append k op a w c b))

wrap-Items :
    (k : ℕ) (e : Tree) {ts : List Token}
    → (k ≤ level e → Items k ts)
    → Balanced ts
    → Items k (wrap k e ts)
wrap-Items k e items b = elim (Bool-cases (leb k (level e))) [
  | inl y ↦ rw y (items (ground arith))
  | inr n ↦ rw n (last (bracketed b))
]

pub render-Items :
    (c : Cpu) (k : ℕ) {e : Tree} {v : ℕ} → Means c e v → k ≤ level e → Items k (render e)
render-Items c k (operand {t} o h) l = last (atom t o)
render-Items c k (operation op {a} {b} ma mb h) l =
    Items-append k (op_type op)
      (Items-mono k (class op) l
        (wrap-Items (class op) a (render-Items c (class op) ma) (render-Balanced c ma)))
      (op-IsOperator op) l
      (Items-mono k (class op + 1) (omega arith)
        (wrap-Items (class op + 1) b (render-Items c (class op + 1) mb) (render-Balanced c mb)))

-- The two sides of an operation as items of the classes that `main_operation` asks for.
pub left-Items :
    (c : Cpu) (op : Op) {a : Tree} {x : ℕ}
    → Means c a x
    → Items (class op) (wrap (class op) a (render a))
left-Items c op {a} m = wrap-Items (class op) a (render-Items c (class op) m) (render-Balanced c m)

pub right-Items :
    (c : Cpu) (op : Op) {b : Tree} {y : ℕ}
    → Means c b y
    → Items (class op + 1) (wrap (class op + 1) b (render b))
right-Items c op {b} m =
    wrap-Items (class op + 1) b (render-Items c (class op + 1) m) (render-Balanced c m)

pub right-Balanced :
    (c : Cpu) (op : Op) {b : Tree} {y : ℕ}
    → Means c b y
    → Balanced (wrap (class op + 1) b (render b))
right-Balanced c op {b} m = wrap-Balanced (class op + 1) b (render-Balanced c m)
