-- ===== src/Expr/Errors.antt =====
-- What `eval` makes of malformed input: a bracket that is never closed, an error in a left operand,
-- and two operands side by side.
use mathlib.Core.List.{append-nil}
use fpga_npc.Base.{
  ℕ, zero, suc, ◌+◌, ◌-◌, ◌<◌, ◌≡◌, refl, sym, ap, ◌∙◌, Bool, true, false, none, List, [], ◌∷◌,
  ◌++◌, ◌==◌, if◌then◌else◌, done, aborted, out_of_fuel, arith, length, take, u32,
}
use fpga_npc.Reg.{Cpu}
use fpga_npc.Expr.{Token, token, type_at, tk_lbracket, tk_plus, tk_div}
use fpga_npc.Expr.Eval.{
  is_operand, paren_loop, check_parentheses, skip_loop, skip_bracket, takes_over, main_loop,
  get_main_operation_index, eval_token, apply_operation, eval,
}
use fpga_npc.Expr.Entry.{eval_tokens}
use fpga_npc.Expr.Value.{take-all}
use fpga_npc.Expr.Items.{Items, last, more, atom}
use fpga_npc.Expr.Rounds.{main_loop-stop, main_loop-other, main_loop-operand}
use fpga_npc.Expr.Operators.{main_operation}
use fpga_npc.Expr.Syntax.{operand-IsPlain}
use fpga_npc.Expr.Correct.{eval-operation, eval-single, check-operation}
use fpga_npc.Expr.Brackets.{
  Balanced, nil, plain, lb, skip_loop-inside, skip_loop-open, paren_loop-open, paren_loop-inside,
}

type_at-length : (tokens : List Token) → type_at tokens (length tokens) ≡ 0
type_at-length [] = refl
type_at-length (t ∷ tokens) = type_at-length tokens

paren_loop-nil : paren_loop 1 false [] ≡ (false, false)
unfolding paren_loop
paren_loop-nil = refl

eval-zero :
    (c : Cpu) (tokens : List Token) (p r : ℕ) (success : Bool)
    → eval c tokens zero p r success ≡ out_of_fuel
unfolding eval
eval-zero c tokens p r success = refl

eval-diverges :
    (c : Cpu) (tokens : List Token) (fuel p r op : ℕ) (success : Bool)
    → p + 1 < r
    → (check_parentheses tokens p r).0 ≡ false
    → get_main_operation_index tokens p r ≡ done op
    → eval c tokens fuel p op success ≡ out_of_fuel
    → eval c tokens (suc fuel) p r success ≡ out_of_fuel
unfolding eval
eval-diverges c tokens fuel p r op success h e m a = ground arith

-- The flag after an operation is what the right operand makes of the left one's.
eval-step :
    (c : Cpu) (tokens : List Token) (fuel p r op x y : ℕ) (success left right : Bool)
    → p + 1 < r
    → (check_parentheses tokens p r).0 ≡ false
    → get_main_operation_index tokens p r ≡ done op
    → eval c tokens fuel p op success ≡ done (x, left)
    → eval c tokens fuel (op + 1) r left ≡ done (y, right)
    → eval c tokens (suc fuel) p r success ≡ apply_operation (type_at tokens op) x y right
unfolding eval
eval-step c tokens fuel p r op x y success left right h e m a b = ground arith

module _ (ts : List Token) (b : Balanced ts) (l : 0 < length ts) where
  -- The loop over the brackets runs to the end of the array.
  unclosed-skip : skip_bracket (lb ∷ ts) 0 ≡ length (lb ∷ ts)
  unfolding skip_bracket
  unclosed-skip =
      skip_loop-open 0 0 ts
      ∙ ap (skip_loop 1 (0 + 1)) (sym (append-nil ts))
      ∙ skip_loop-inside 0 (0 + 1) [] b
      ∙ skip_loop-nil (0 + 1 + length ts)
      ∙ omega arith
    where
      skip_loop-nil : (j : ℕ) → skip_loop 1 j [] ≡ j
      skip_loop-nil j = unfold skip_loop in refl

  -- So the main operation is behind the last token.
  unclosed-main : get_main_operation_index (lb ∷ ts) 0 (length (lb ∷ ts)) ≡ done (length (lb ∷ ts))
  unfolding get_main_operation_index is_operand takes_over
  unclosed-main =
      let tokens = lb ∷ ts in
      let n = length tokens in
      let beyond : type_at tokens n ≡ 0 = type_at-length tokens in
      let takes : takes_over tokens 0 0 n ≡ true = ground arith in
      ap (λ fuel. main_loop fuel tokens 0 (n - 1) 0 0) (omega arith)
      ∙ main_loop-other tokens 0 (n - 1) (length ts) 0 0 n (omega arith) refl unclosed-skip
      ∙ ap (λ b. main_loop (length ts) tokens 0 (n - 1) (if b then n else 0) (n + 1)) takes
      ∙ main_loop-stop tokens 0 (n - 1) (length ts) n (n + 1) (omega arith)

  unclosed-check : (check_parentheses (lb ∷ ts) 0 (length (lb ∷ ts))).0 ≡ false
  unfolding check_parentheses
  unclosed-check =
      let all : take (length (lb ∷ ts) - 0) (lb ∷ ts) ≡ lb ∷ ts =
        let e : length (lb ∷ ts) - 0 ≡ length (lb ∷ ts) = omega arith in
        ap (λ n. take n (lb ∷ ts)) e ∙ take-all (lb ∷ ts) in
      let f : paren_loop 0 false (lb ∷ ts) ≡ (false, false) =
        paren_loop-open 0 false ts
        ∙ ap (paren_loop 1 false) (sym (append-nil ts))
        ∙ paren_loop-inside 0 false [] b
        ∙ paren_loop-nil in
      rw (all, f) (ground arith)

  -- An opening bracket in front of a non-empty balanced list of tokens makes eval call itself on
  -- the same range: every depth of recursion runs out of fuel.
  pub eval_unclosed :
      (c : Cpu) (fuel : ℕ) (success : Bool)
      → eval c (lb ∷ ts) fuel 0 (length (lb ∷ ts)) success ≡ out_of_fuel
  eval_unclosed c zero success = eval-zero c (lb ∷ ts) 0 (length (lb ∷ ts)) success
  eval_unclosed c (suc fuel) success =
      eval-diverges c (lb ∷ ts) fuel 0 (length (lb ∷ ts)) (length (lb ∷ ts)) success (omega arith)
        unclosed-check unclosed-main (eval_unclosed c fuel success)

-- Three operands `a / z + b` where `z` has the value 0.
module _ (c : Cpu) (a z b : Token) (x y : ℕ) (oa : is_operand a.type ≡ true)
    (oz : is_operand z.type ≡ true) (ob : is_operand b.type ≡ true)
    (va : eval_token c a ≡ done (x, true)) (vz : eval_token c z ≡ done (0, true))
    (vb : eval_token c b ≡ done (y, true)) where
  abbrev quotient : List Token
  quotient = a ∷ token tk_div ∷ z ∷ []

  abbrev pub sum_tokens : List Token
  sum_tokens = quotient ++ token tk_plus ∷ b ∷ []

  quotient-Items : Items 132 quotient
  quotient-Items = more tk_div (atom a oa) (omega arith) (omega arith) (last (atom z oz))

  sum-Balanced : Balanced (b ∷ [])
  sum-Balanced = plain (operand-IsPlain b ob) nil

  quotient-fails : (fuel : ℕ) → eval c sum_tokens (suc (suc fuel)) 0 3 true ≡ done (0, false)
  unfolding apply_operation
  quotient-fails fuel =
      eval-operation c sum_tokens (suc fuel) 0 3 1 x 0 true (omega arith)
        (check-operation sum_tokens 0 133 tk_div (z ∷ []) (token tk_plus ∷ b ∷ [])
          (last (atom a oa)) (omega arith) (plain (operand-IsPlain z oz) nil) refl)
        (main_operation 133 sum_tokens 0 tk_div (token tk_plus ∷ b ∷ []) (omega arith)
          (last (atom a oa)) (omega arith) refl (last (atom z oz)) refl)
        (eval-single c sum_tokens fuel 0 true ∙ va) (eval-single c sum_tokens fuel 2 true ∙ vz)

  -- For three operands a, z and b with values, the value of z being 0, the tokens a / z + b
  -- evaluate to 0 plus the value of b with *success = true: the division by 0 is not reported.
  pub eval-lost_error : eval c sum_tokens 6 0 5 true ≡ done (u32 (0 + y), true)
  unfolding apply_operation
  eval-lost_error =
      eval-step c sum_tokens 5 0 5 3 0 y true false true (omega arith)
        (check-operation sum_tokens 0 132 tk_plus (b ∷ []) [] quotient-Items (omega arith)
          sum-Balanced refl)
        (main_operation 132 sum_tokens 0 tk_plus [] (omega arith) quotient-Items (omega arith) refl
          (last (atom b ob)) refl)
        (quotient-fails 3) (eval-single c sum_tokens 4 4 false ∙ vb)

adjacent-main :
    (t u : Token) → is_operand t.type ≡ true → get_main_operation_index (t ∷ u ∷ []) 0 2 ≡ done 0
unfolding get_main_operation_index
adjacent-main t u h =
    main_loop-operand (t ∷ u ∷ []) 0 1 1 0 0 (omega arith) h
    ∙ main_loop-stop (t ∷ u ∷ []) 0 1 1 0 1 (omega arith)

-- The empty range in front of the first token.
eval-empty :
    (c : Cpu) (tokens : List Token) (fuel : ℕ) (success : Bool)
    → eval c tokens (suc fuel) 0 0 success ≡ done (0, success)
unfolding eval
eval-empty c tokens fuel success = refl

apply-operand :
    (t x y : ℕ) (success : Bool) → is_operand t ≡ true → apply_operation t x y success ≡ aborted
unfolding apply_operation is_operand
apply-operand t x y success h = ground arith

-- Two operands with no operator between them fail the assert of eval, if the second one has a
-- value or reports an error.
pub eval_adjacent :
    (c : Cpu) (t u : Token) (y : ℕ) (b success : Bool)
    → is_operand t.type ≡ true
    → is_operand u.type ≡ true
    → eval_token c u ≡ done (y, b)
    → eval_tokens c (t ∷ u ∷ []) success ≡ aborted
unfolding eval_tokens check_parentheses
eval_adjacent c t u y b success ht hu e =
    let tokens = t ∷ u ∷ [] in
    let plain : (t.type == tk_lbracket) ≡ false = (operand-IsPlain t ht).0 in
    let checked : (check_parentheses tokens 0 2).0 ≡ false = rw plain refl in
    let value : eval c tokens 3 0 2 true ≡ aborted =
      eval-step c tokens 2 0 2 0 0 y true true b (omega arith) checked (adjacent-main t u ht)
        (eval-empty c tokens 1 true) (eval-single c tokens 1 1 true ∙ e)
      ∙ apply-operand t.type 0 y b ht in
    let unset : (check_parentheses tokens 0 2).1 ≡ none = rw plain refl in
    rw (unset, eval_tokens) value
