-- ===== src/Expr/Examples.antt =====
-- Small expressions and their values.
use fpga_npc.Base.{
  ◌≡◌, refl, true, false, some, List, [], Ends, ◌∷◌, done, out_of_fuel, arith, codes, replicate,
}
use Prim.Native.String.{String}
use fpga_npc.Reg.{Cpu}
use fpga_npc.Expr.{Token, token, num, reg_name, tk_plus, tk_mult}
use fpga_npc.Expr.Eval.{is_operand, eval_token, eval, apply_operation, atoi, decimal}
use fpga_npc.Expr.Entry.{eval_tokens, expr}
use fpga_npc.Expr.Lexer.{is_digit, is_name, make_token}
use fpga_npc.Expr.Printing.{digits, register, reads_mult}
use fpga_npc.Expr.Fits.{Tokens, make_token-Fits}
use fpga_npc.Expr.Typed.{Leaves, make_token-print, expr-render}
use fpga_npc.Expr.Brackets.{Balanced, nil, plain, lb}
use fpga_npc.Expr.Syntax.{plus, mult, Tree, leaf, bin, render, Means, operand, operation}
use fpga_npc.Expr.Value.{eval_tokens-render}
use fpga_npc.Expr.Errors.{eval_unclosed}

abbrev cpu : Cpu
cpu = record { pc_if = 0x30000000; gpr_file = replicate 31 5 }

abbrev number : String → Token
number s = record { type = num; str = codes s }

number-operand : (s : String) → is_operand (number s).type ≡ true
unfolding is_operand
number-operand s = refl

value_0 : eval_token cpu (number "0") ≡ done (0, true)
unfolding eval_token atoi decimal
value_0 = refl

value_1 : eval_token cpu (number "1") ≡ done (1, true)
unfolding eval_token atoi decimal
value_1 = refl

value_2 : eval_token cpu (number "2") ≡ done (2, true)
unfolding eval_token atoi decimal
value_2 = refl

value_3 : eval_token cpu (number "3") ≡ done (3, true)
unfolding eval_token atoi decimal
value_3 = refl

-- `(1 + 2) * 3`
abbrev product_tree : Tree
product_tree = bin mult (bin plus (leaf (number "1")) (leaf (number "2"))) (leaf (number "3"))

product-Means : Means cpu product_tree 9
unfolding apply_operation
product-Means =
    operation mult
      (operation plus (operand (number-operand "1") value_1) (operand (number-operand "2") value_2)
        refl)
      (operand (number-operand "3") value_3) refl

eval_tokens-render_example : eval_tokens cpu (render product_tree) false ≡ done (9, true)
eval_tokens-render_example = eval_tokens-render cpu product_tree 9 false product-Means

-- The lexer reads the tokens of `( 1 + 2 ) * 3` back.
product-Leaves : Leaves product_tree
unfolding is_digit
product-Leaves = (
  (digits (refl, tt) (omega arith), digits (refl, tt) (omega arith)),
  digits (refl, tt) (omega arith),
)

make_token-print_example :
    make_token (codes "7 * $a0 ")
    ≡ done (some (number "7" ∷ token tk_mult ∷ record { type = reg_name; str = codes "a0" } ∷ []))
unfolding is_digit is_name
make_token-print_example =
    make_token-print
      (number "7" ∷ token tk_mult ∷ record { type = reg_name; str = codes "a0" } ∷ [])
      (
        digits (refl, tt) (omega arith),
        (λ m. ground arith),
        (reads_mult, (λ m. refl), (register refl refl, (λ m. ground arith), tt)),
      )
      (omega arith)

expr-render_example : expr cpu (codes "( 1 + 2 ) * 3 ") false ≡ done (9, true)
expr-render_example =
    expr-render cpu product_tree 9 false product-Means product-Leaves (omega arith)

-- `1 + 2 * 3`
abbrev sum_of_product : List Token
sum_of_product = number "1" ∷ token tk_plus ∷ number "2" ∷ token tk_mult ∷ number "3" ∷ []

number-Balanced : (s : String) → Balanced (number s ∷ [])
number-Balanced s = plain (refl, refl) nil

-- `(1`
eval_unclosed_example : eval cpu (lb ∷ number "1" ∷ []) 100 0 2 true ≡ out_of_fuel
eval_unclosed_example =
    eval_unclosed (number "1" ∷ []) (number-Balanced "1") (omega arith) cpu 100 true

-- Spaces, a minus that is a token of its own, and the name of a register.
make_token-Fits_example : Ends Tokens (make_token (codes "7 -0x1f * $a0"))
make_token-Fits_example = make_token-Fits (codes "7 -0x1f * $a0")
