-- ===== src/CpuExec/Signals.antt =====
-- `intSignalHandlerWhenSDB` of csrc/cpu/cpu-exec.cpp, which `cpu_exec` sets for SIGINT outside the batch
-- mode, as it interrupts `excute`. The handler sets SIGINT back to its default action, so it runs once.
use fpga_npc.Base.{
  ℕ, zero, suc, Bool, true, false, Option, none, some, if◌then◌else◌, Outcome, done, ◌>>=◌,
}
use fpga_npc.Npc.{npc_running, npc_stop, is_running, is_over}
use fpga_npc.CpuExec.{World, Host, set_state, trace_and_difftest, retire, excute, conclude}

-- When the signal comes: in the `exec_once` of an instruction of `excute`, before the calls of the core
-- or behind them.
pub record Signal : Type 0 where
  pub inst : ℕ
  pub late : Bool

module _ {D R : Type 0} where
  unfoldable pub int_signal_handler_when_sdb : Host D R → Host D R
  int_signal_handler_when_sdb h = record h { npc = set_state npc_stop h.npc }

  -- `exec_once(); g_nr_guest_inst++;` with the signal.
  unfoldable pub retire_signal : World D R → Bool → Host D R → Outcome (Host D R)
  retire_signal w true h = do t ← retire w h; done (int_signal_handler_when_sdb t)
  retire_signal w false h = retire w (int_signal_handler_when_sdb h)

  -- The loop, with a signal in the instruction number `inst` from here.
  unfoldable pub signal_loop : World D R → Bool → ℕ → ℕ → Host D R → Outcome (Host D R)
  signal_loop w late inst zero h = done h
  signal_loop w late zero (suc n) h = do
    t ← retire_signal w late h
    elim (is_running t.npc.state) [
      | false ↦ done t
      | true ↦ do u ← trace_and_difftest w t; excute w n u
    ]
  signal_loop w late (suc inst) (suc n) h = do
    t ← retire w h
    elim (is_running t.npc.state) [
      | false ↦ done t
      | true ↦ do u ← trace_and_difftest w t; signal_loop w late inst n u
    ]

  unfoldable pub excute_signal : World D R → Option Signal → ℕ → Host D R → Outcome (Host D R)
  excute_signal w none n h = excute w n h
  excute_signal w (some s) n h = signal_loop w s.late s.inst n h

  unfoldable pub cpu_exec_signal : World D R → Option Signal → ℕ → Host D R → Outcome (Host D R)
  cpu_exec_signal w s n h = if is_over h.npc.state then done h else (do
    t ← excute_signal w s n (record h { npc = set_state npc_running h.npc })
    conclude t.npc.state t)
