-- ===== src/Expr/Entry.antt =====
-- `expr` of csrc/sdb/expr.cpp: an expression's text to its value.
use fpga_npc.Base.{ℕ, ◌+◌, Bool, true, false, none, some, List, Outcome, done, ◌>>=◌, length}
use fpga_npc.Reg.{Cpu}
use fpga_npc.Expr.{Token}
use fpga_npc.Expr.Lexer.{make_token}
use fpga_npc.Expr.Eval.{check_parentheses, eval}

-- The fuel: one more than the tokens, since a call on a proper part of them has fewer.
unfoldable pub eval_tokens : Cpu → List Token → Bool → Outcome (ℕ × Bool)
eval_tokens c tokens success = elim (check_parentheses tokens 0 (length tokens)).1 [
  | some true ↦ done (0, success)
  | _ ↦ eval c tokens (length tokens + 1) 0 (length tokens) true
]

-- The value, and `*success`, of which `success` is the value before the call.
unfoldable pub expr : Cpu → List ℕ → Bool → Outcome (ℕ × Bool)
expr c e success =
    make_token e >>= elim [ none ↦ done (0, false) | some tokens ↦ eval_tokens c tokens success ]
