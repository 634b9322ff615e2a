-- ===== src/CpuExec.antt =====
-- csrc/cpu/cpu-exec.cpp, built with CONFIG_DIFFTEST and without CONFIG_WAVEFORM and CONFIG_ITRACE.
-- The simulated core is generated code: its state and what a clock cycle does to it are arguments.
pub mod Calls
pub mod Cycles
pub mod Trapping
pub mod Reset
pub mod Lost
pub mod Signals
pub mod Differs
pub mod Interrupted
pub mod Handlers
pub mod Waveform
pub mod Snapshots
pub mod Undisturbed
mod Alongside
pub mod Handled
mod Ended
pub mod Lockstep
pub mod GoodTrap
pub mod Agreeing
pub mod Kept
pub mod Watched
pub mod Commands
pub mod Examples
use fpga_npc.Base.{
  ℕ, zero, suc, ◌+◌, ◌-◌, Bool, true, false, ◌&&◌, ◌||◌, not, Option, none, some, List, [], ◌∷◌,
  ◌==◌, if◌then◌else◌, Outcome, done, out_of_fuel, ◌>>=◌, u64,
}
use fpga_npc.Npc.{
  NpcState, Running, npc_running, npc_stop, npc_end, npc_abort, npc_quit, is_running, is_over, Core,
  ebreak,
}
use fpga_npc.Difftest.{
  Difftest, Reference, difftest_skip_ref, diff_raise_intr, update_csr, difftest_step,
}
use fpga_npc.Expr.Entry.{expr}
use fpga_npc.LightSss.{LightSss, is_child, wakeup_child, do_clear}
use fpga_npc.Watchpoint.{Wp, Watchpoints, update, check_diff}

-- What the core calls in the host during a clock cycle.
pub data DpiCall : Type 0 where
  calls_ebreak : ℕ → DpiCall
  calls_diff_skip : ℕ → DpiCall
  calls_raise_intr : ℕ → DpiCall
  calls_update_csr : ℕ → DpiCall

-- The simulated core: one clock cycle (`eval` with the clock at 0 and at 1) gives the calls in
-- order, each with the signals at that time; `core` reads the signals.
pub record Dut (D : Type 0) : Type 0 where
  pub cycle : D → List (Core × DpiCall) × D
  pub core : D → Core

-- What the program is built around: the core, the reference model, and the comparison that
-- `skip_checkcsrs` makes.
pub record World (D R : Type 0) : Type 0 where
  pub dut : Dut D
  pub ref : Reference R
  pub skip : ℕ → Bool

-- The variables that the file shares with the other files.
pub record Host (D R : Type 0) : Type 0 where
  pub npc : NpcState
  pub g_nr_cycle : ℕ
  pub g_nr_guest_inst : ℕ
  pub watchpoints : Watchpoints
  pub difftest : Difftest R
  pub lightsss : LightSss
  pub top : D

-- `death_loop_counter`
abbrev pub death_loop : ℕ
death_loop = 20000

-- `expr` as `check_diff` calls it: `success` is not initialised, and not read.
unfoldable pub expr_value : Core → List ℕ → Outcome ℕ
expr_value c what = do (value, success) ← expr c.regs what false; done value

-- The assignments to `npc_state.state`.
abbrev pub set_state : Running → NpcState → NpcState
set_state r n = record n { state = r }

module _ {D R : Type 0} where
  unfoldable pub handle : Core → DpiCall → Host D R → Outcome (Host D R)
  handle c (calls_ebreak inst) h = do n ← ebreak inst c h.npc; done (record h { npc = n })
  handle c (calls_diff_skip pc) h = done (record h { difftest = difftest_skip_ref pc h.difftest })
  handle c (calls_raise_intr cause_no) h =
      done (record h { difftest = diff_raise_intr cause_no c h.difftest })
  handle c (calls_update_csr pc) h = done (record h { difftest = update_csr pc c h.difftest })

  unfoldable pub handle_all : List (Core × DpiCall) → Host D R → Outcome (Host D R)
  handle_all [] h = done h
  handle_all ((c, call) ∷ calls) h = do t ← handle c call h; handle_all calls t

  -- One round of the loop of `exec_once`, up to `g_nr_cycle ++`.
  unfoldable pub clock : World D R → Host D R → Outcome (Host D R)
  clock w h =
      let (calls, d) = w.dut.cycle h.top in
      (do
        t ← handle_all calls (record h { top = d })
        done (record t { g_nr_cycle = u64 (t.g_nr_cycle + 1) }))

  -- The loop, with the counter.
  unfoldable pub exec_loop : World D R → ℕ → Host D R → Outcome (Host D R)
  exec_loop w zero h = out_of_fuel
  exec_loop w (suc counter) h = do
    t ← clock w h
    elim (counter == 0) [
      | true ↦ done (record t { npc = set_state npc_abort t.npc })
      | false ↦ elim (w.dut.core t.top).is_done [ true ↦ done t | false ↦ exec_loop w counter t ]
    ]

  unfoldable pub exec_once : World D R → Host D R → Outcome (Host D R)
  exec_once w h = exec_loop w death_loop h

  -- What is done about a changed watchpoint: the first change stops, the next one is passed over.
  unfoldable pub trigger : ℕ → Host D R → Host D R
  trigger i h =
      let s = h.watchpoints in
      let diff = s.wp_pool i in
      let flip : Watchpoints = record s {
        wp_pool = update s.wp_pool i (record diff { trigger_flag = not diff.trigger_flag });
      } in
      if diff.trigger_flag
      then record h { watchpoints = flip }
      else record h { watchpoints = flip; npc = set_state npc_stop h.npc }

  unfoldable pub watch : World D R → Host D R → Outcome (Host D R)
  watch w h = do
    (diff, s) ← check_diff (expr_value (w.dut.core h.top)) h.watchpoints
    elim diff [
      | none ↦ done (record h { watchpoints = s })
      | some (i, old_value) ↦ done (trigger i (record h { watchpoints = s }))
    ]

  unfoldable pub trace_and_difftest : World D R → Host D R → Outcome (Host D R)
  trace_and_difftest w h =
      let c = w.dut.core h.top in
      (do
        (d, n) ← difftest_step w.skip w.ref c c.pc_done (h.difftest, h.npc)
        watch w (record h { difftest = d; npc = n }))

  -- `exec_once(); g_nr_guest_inst++;`
  unfoldable pub retire : World D R → Host D R → Outcome (Host D R)
  retire w h = do
    t ← exec_once w h
    done (record t { g_nr_guest_inst = u64 (t.g_nr_guest_inst + 1) })

  unfoldable pub excute : World D R → ℕ → Host D R → Outcome (Host D R)
  excute w zero h = done h
  excute w (suc n) h = do
    t ← retire w h
    elim (is_running t.npc.state) [
      | false ↦ done t
      | true ↦ do u ← trace_and_difftest w t; excute w n u
    ]

  -- The snapshots at a failure: the parent wakes the oldest one. A snapshot exits; this build makes
  -- none, and the host is left as it is.
  unfoldable pub replay : Host D R → Outcome (Host D R)
  replay h = if is_child h.lightsss then done h else (do
    s ← wakeup_child h.g_nr_cycle h.lightsss
    t ← do_clear s
    done (record h { lightsss = t }))

  -- The `switch` at the end of `cpu_exec`, on the state of the simulation.
  unfoldable pub conclude : Running → Host D R → Outcome (Host D R)
  conclude npc_running h = done (record h { npc = set_state npc_stop h.npc })
  conclude npc_abort h = replay h
  conclude npc_end h = if h.npc.halt_ret == 0 then done h else replay h
  conclude npc_stop h = done h
  conclude npc_quit h = done h

  unfoldable pub cpu_exec : World D R → ℕ → Host D R → Outcome (Host D R)
  cpu_exec w n h = if is_over h.npc.state then done h else (do
    t ← excute w n (record h { npc = set_state npc_running h.npc })
    conclude t.npc.state t)
