-- ===== src/CpuExec/Examples.antt =====
-- A small core: its state counts the cycles, and its registers hold 5 where the reference holds 0.
use fpga_npc.Base.{
  ℕ, zero, suc, ◌∙◌, ◌+◌, ◌*◌, ◌<◌, ◌≡◌, refl, Bool, true, false, ◌⊎◌, Option, none, some, [], ◌∷◌,
  leb, done, Ends, arith, codes, replicate,
}
use fpga_npc.Reg.{Cpu, gpr}
use fpga_npc.Expr.Lexer.{regexec, rules, try_rules, last_type, add_token, token_loop, make_token}
use fpga_npc.Expr.Eval.{paren_loop, check_parentheses, decimal, atoi, eval_token, eval}
use fpga_npc.Expr.Entry.{eval_tokens, expr}
use fpga_npc.Npc.{NpcState, npc_state, npc_running, npc_abort, npc_stop, Core}
use fpga_npc.Difftest.{
  Difftest, DiffContext, Reference, gpr_loop, check_csrs, difftest_checkregs, checkregs, ref_step,
  compare_step, difftest_step,
}
use fpga_npc.Difftest.Compare.{Agrees, difftest_checkregs-Agrees}
use fpga_npc.LightSss.{start_info}
use fpga_npc.Watchpoint.{Watchpoints, check_diff, check_loop}
use fpga_npc.Watchpoint.Changes.{first_changed}
use fpga_npc.Watchpoint.Invariant.{Holds}
use fpga_npc.CpuExec.{
  expr_value, World, Host, set_state, exec_once, watch, trace_and_difftest, cpu_exec,
}
use fpga_npc.CpuExec.Cycles.{after, exec_once-dead}
use fpga_npc.CpuExec.Lost.{trace_and_difftest-lost}
use fpga_npc.CpuExec.Kept.{Kept}
use fpga_npc.CpuExec.Commands.{Stopped, cpu_exec-Stopped}

-- The signals after some cycles, when an instruction is retired as the test says.
abbrev signals : (ℕ → Bool) → ℕ → Core
signals retires d = record {
  regs = record { pc_if = 100 + 4 * d; gpr_file = replicate 31 5 };
  csrs = replicate 8 0;
  pc_done = 96 + 4 * d;
  pc_exe = 0;
  is_done = retires d;
  flush_for_intr = false;
}

abbrev reference : Reference ℕ
reference = record {
  regcpy_to_dut = λ r. record { ctx_gpr = replicate 32 0; pc = 100 + 4 * r; ctx_csrs = [] };
  regcpy_to_ref = λ _ r. r;
  exec = λ n r. n + r;
  raise_intr = λ _ r. r;
}

abbrev small_world : (ℕ → Bool) → World ℕ ℕ
small_world retires = record {
  dut = record { cycle = λ d. ([], d + 1); core = signals retires };
  ref = reference;
  skip = λ _. false;
}

abbrev no_skips : Difftest ℕ
no_skips = record {
  pcs_to_skip = [];
  pc_intr_triggered = 0;
  cause_no_intr_triggered = 0;
  diff_npc = 0;
  csr_ctx_q = [];
  ctx = record { ctx_gpr = []; pc = 0; ctx_csrs = [] };
  ref = 0;
}

-- Watchpoint 2 is in use where the head says so.
abbrev one_pool : Option ℕ → Watchpoints
one_pool first = record {
  wp_pool = λ a. record { no = a; next = none; what = codes "7"; value = 0; trigger_flag = false };
  head = first;
  free_ = none;
}

abbrev pub host : Option ℕ → Host ℕ ℕ
host first = record {
  npc = set_state npc_running npc_state;
  g_nr_cycle = 0;
  g_nr_guest_inst = 0;
  watchpoints = one_pool first;
  difftest = no_skips;
  lightsss = record {
    slot_cnt = 0;
    wait_process = false;
    pid_slot = [];
    info = start_info;
    killed = [];
  };
  top = 0;
}

none-Holds : Holds (one_pool none) [] []
none-Holds = record {
  used_listed = refl;
  free_listed = refl;
  used_within = omega arith;
  free_within = omega arith;
  apart = λ a h. ground arith;
  numbered = λ a h. refl;
}

one-Holds : Holds (one_pool (some 2)) (2 ∷ []) []
one-Holds = record {
  used_listed = (refl, refl);
  free_listed = refl;
  used_within = omega arith;
  free_within = omega arith;
  apart = λ a h. refl;
  numbered = λ a h. refl;
}

after-suc : (j k : ℕ) → after (λ d. d + 1) j k ≡ j + k
after-suc zero k = omega arith
after-suc (suc j) k = after-suc j (k + 1) ∙ omega arith

early : (j : ℕ) → j < 2 → leb 3 (after (λ d. d + 1) j 1) ≡ false
early j h = rw (after-suc j 1) (ground arith)

-- No cycle retires.
exec_once-dead_example :
    exec_once (small_world (λ _. false)) (host none)
    ≡ done (record (host none) {
      npc = set_state npc_abort npc_state;
      g_nr_cycle = 20000;
      top = after (λ d. d + 1) 20000 0;
    })
exec_once-dead_example =
    exec_once-dead (small_world (λ _. false)) (host none) (λ j h. tt) (λ j h. refl)

-- Every cycle retires from here on.
abbrev pub busy : World ℕ ℕ
busy = small_world (λ _. true)

pub evaluate-seven : (r : Cpu) → expr r (codes "7") false ≡ done (7, true)
unfolding expr make_token token_loop try_rules regexec rules add_token last_type eval_tokens
    check_parentheses paren_loop eval eval_token atoi decimal
evaluate-seven r = refl

none-Kept : Kept busy [] [] 0 (host none)
none-Kept = record {
  wps_hold = none-Holds;
  evaluates = λ a r. rw (evaluate-seven r) tt;
  no_contexts = refl;
  counted = refl;
}

cpu_exec-Stopped_example : Ends (Stopped busy [] [] 3 0) (cpu_exec busy 3 (host none))
cpu_exec-Stopped_example = cpu_exec-Stopped busy [] [] 3 0 (host none) none-Kept

-- The registers of `busy` and of the reference differ.
abbrev found : Difftest ℕ
found = record no_skips { ref = 1; diff_npc = 104 }

abbrev failed : NpcState
failed = record { state = npc_abort; halt_pc = 96; halt_ret = 0 }

found-step :
    difftest_step busy.skip busy.ref
      (signals (λ _. true) 0)
      96
      (no_skips, set_state npc_running npc_state)
    ≡ done (found, failed)
unfolding difftest_step compare_step ref_step checkregs difftest_checkregs gpr_loop check_csrs gpr
found-step = refl

trace_and_difftest-lost_example :
    (t : Host ℕ ℕ) × (trace_and_difftest busy (host (some 2)) ≡ done t)
    × (t.npc.state ≡ npc_stop)
    × (t.difftest ≡ found)
unfolding first_changed expr_value
trace_and_difftest-lost_example =
    trace_and_difftest-lost busy (host (some 2)) (2 ∷ []) [] found failed 2 (λ _. 7) one-Holds
      (rw (evaluate-seven (busy.dut.core 0).regs) refl, tt) found-step refl refl refl

difftest_checkregs-Agrees_example :
    let c = signals (λ _. true) 0 in
    let r : DiffContext = record { ctx_gpr = replicate 32 5; pc = 100; ctx_csrs = [] } in
    (b : Bool) × (difftest_checkregs busy.skip c r 96 no_skips
      ≡ done (b, record no_skips { diff_npc = 100 }))
    × (b ≡ true → ((no_skips.diff_npc ≡ 0) ⊎ (no_skips.diff_npc ≡ 96)) × Agrees 31 1 c r)
    × (((no_skips.diff_npc ≡ 0) ⊎ (no_skips.diff_npc ≡ 96)) × Agrees 31 1 c r → b ≡ true)
difftest_checkregs-Agrees_example =
    difftest_checkregs-Agrees busy.skip (signals (λ _. true) 0)
      (record { ctx_gpr = replicate 32 5; pc = 100; ctx_csrs = [] }) 96 no_skips refl refl

-- One instruction retired, and the difference found.
abbrev first_retired : Host ℕ ℕ
first_retired = record (host none) { g_nr_cycle = 1; g_nr_guest_inst = 1; top = 1 }

abbrev difference : Host ℕ ℕ
difference = record first_retired {
  npc = record { state = npc_abort; halt_pc = 100; halt_ret = 0 };
  difftest = found;
}

trace-difference : trace_and_difftest busy first_retired ≡ done difference
unfolding trace_and_difftest watch check_diff check_loop difftest_step compare_step ref_step
    checkregs difftest_checkregs gpr_loop check_csrs gpr
trace-difference = refl
