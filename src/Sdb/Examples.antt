-- ===== src/Sdb/Examples.antt =====
-- Sessions with the small core of CpuExec.Examples and the pool of Watchpoint.Examples: 2 and 5 are in
-- use, 1 and 3 are free.
use fpga_npc.Base.{ℕ, ◌≡◌, refl, false, none, some, List, [], ◌∷◌, done, Ends, All, arith, codes}
use fpga_npc.Reg.{Cpu}
use fpga_npc.Npc.{npc_quit, npc_abort, is_exit_status_bad}
use fpga_npc.Expr.{Token, num}
use fpga_npc.Expr.Printing.{digits}
use fpga_npc.Expr.Syntax.{leaf, operand}
use fpga_npc.Sdb.Values.{Watches, first_other, watch-trees}
use fpga_npc.Expr.Lexer.{is_digit, regexec, rules, try_rules, token_loop, make_token}
use fpga_npc.Expr.Eval.{is_operand, paren_loop, check_parentheses, decimal, atoi, eval_token, eval}
use fpga_npc.Expr.Entry.{eval_tokens, expr}
use fpga_npc.Watchpoint.{Watchpoints, update}
use fpga_npc.Watchpoint.Invariant.{Holds}
use fpga_npc.Watchpoint.Examples.{small, small-Holds}
use fpga_npc.Elf.{Tracer}
use fpga_npc.CpuExec.{watch, trigger, Host, set_state}
use fpga_npc.CpuExec.Examples.{busy, host, evaluate-seven}
use fpga_npc.CpuExec.Kept.{Evaluates}
use fpga_npc.Sdb.{until_space, strtok, skip_space, to_int, watch_line, reply}
use fpga_npc.Sdb.Commands.{evaluate, cmd_w, cmd_d}
use fpga_npc.Sdb.Loop.{sdb_mainloop}
use fpga_npc.Sdb.Sane.{Sane}
use fpga_npc.Sdb.Session.{sdb_mainloop-Sane}
use fpga_npc.Sdb.Words.{sdb_mainloop-quit}
use fpga_npc.Sdb.Watching.{cmd_d-cmd_w}

abbrev no_trace : ℕ → Tracer
no_trace _ = record { elf_loaded = false; functab = []; nodes = none }

abbrev session : Host ℕ ℕ
session = record (host none) { npc = set_state npc_abort (host none).npc; watchpoints = small }

-- The quit of a simulation that was aborted.
sdb_mainloop-quit_example :
    (t : Host ℕ ℕ) × (sdb_mainloop busy no_trace false (codes " q" ∷ codes "c" ∷ []) session
      ≡ done (t, []))
    × (t ≡ record session { npc = set_state npc_quit session.npc })
    × (is_exit_status_bad t.npc ≡ false)
unfolding strtok until_space
sdb_mainloop-quit_example =
    sdb_mainloop-quit busy no_trace (codes " q") (codes "c" ∷ []) session refl

evaluate-nothing : (r : Cpu) → Ends (λ _. Unit) (expr r [] false)
unfolding expr make_token token_loop eval_tokens check_parentheses paren_loop eval
evaluate-nothing r = tt

cmd_d-cmd_w_example :
    (s : Watchpoints) × (t : Watchpoints) × (cmd_w busy no_trace (some (codes "7")) session
      ≡ done (reply (record session { watchpoints = s }) (watch_line 1 (codes "7") ∷ [])))
    × Holds s (1 ∷ 2 ∷ 5 ∷ []) (3 ∷ [])
    × ((s.wp_pool 1).what ≡ codes "7")
    × ((s.wp_pool 1).value ≡ 7)
    × (cmd_d busy no_trace (some (codes " 1")) (record session { watchpoints = s })
        ≡ done (reply (record session { watchpoints = t }) []))
    × Holds t (2 ∷ 5 ∷ []) (1 ∷ 3 ∷ [])
unfolding evaluate to_int skip_space atoi decimal
cmd_d-cmd_w_example =
    cmd_d-cmd_w busy no_trace (codes "7") (codes " 1") 7 1 3 (2 ∷ 5 ∷ []) [] session small-Holds
      (evaluate-seven (busy.dut.core session.top).regs) (omega arith) refl

evaluate-pc : (a : ℕ) → Evaluates (small.wp_pool a).what
unfolding expr make_token token_loop try_rules regexec rules
evaluate-pc a r = tt

session-Sane : Sane session
session-Sane = record {
  listed = (2 ∷ 5 ∷ [], 1 ∷ 3 ∷ [], small-Holds, λ a. evaluate-pc a);
  no_contexts = refl;
  counted = omega arith;
  stopped = refl;
}

abbrev lines : List (List ℕ)
lines = codes "w 7" ∷ codes "q" ∷ []

lines-Evaluate : All (λ str. Evaluates (strtok str).1) lines
unfolding strtok until_space
lines-Evaluate = (λ r. rw (evaluate-seven r) tt, (λ r. evaluate-nothing r, tt))

sdb_mainloop-Sane_example : Ends (λ r. Sane r.0) (sdb_mainloop busy no_trace false lines session)
sdb_mainloop-Sane_example =
    sdb_mainloop-Sane busy no_trace false lines session lines-Evaluate session-Sane

-- Watchpoint 2 is on the text of `7`, and its recorded value is 0.
abbrev seven : Token
seven = record { type = num; str = codes "7" }

abbrev watched : Watchpoints
watched = record {
  wp_pool = λ a. record { no = a; next = none; what = codes "7 "; value = 0; trigger_flag = false };
  head = some 2;
  free_ = none;
}

watched-Holds : Holds watched (2 ∷ []) []
watched-Holds = record {
  used_listed = (refl, refl);
  free_listed = refl;
  used_within = omega arith;
  free_within = omega arith;
  apart = λ a h. refl;
  numbered = λ a h. refl;
}

seven-Watches : Watches (busy.dut.core 0) (watched.wp_pool 2) 7
unfolding is_operand eval_token atoi decimal is_digit
seven-Watches = record {
  tree = leaf seven;
  text = refl;
  means = operand refl refl;
  leaves = digits (refl, tt) (omega arith);
  short = omega arith;
}

watch-trees_example :
    let h = record (host none) { watchpoints = watched } in
    let seen = record watched {
      wp_pool = update watched.wp_pool 2 (record (watched.wp_pool 2) { value = 7 });
    } in
    watch busy h ≡ done (trigger 2 (record h { watchpoints = seen }))
unfolding first_other
watch-trees_example =
    watch-trees busy (record (host none) { watchpoints = watched }) (2 ∷ []) [] (λ _. 7)
      watched-Holds (seven-Watches, tt)
