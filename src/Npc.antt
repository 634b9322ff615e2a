-- ===== src/Npc.antt =====
-- include/utils.h, csrc/utils/state.cc and the signals of the core that the host reads
-- (`cpu_state` of include/cpu/isa-def.h).
use fpga_npc.Base.{
  ℕ, Bool, true, false, List, ◌&&◌, ◌||◌, not, ◌==◌, if◌then◌else◌, Outcome, done, ◌>>=◌,
}
use fpga_npc.Reg.{Cpu, gpr}

-- The anonymous `enum` of include/utils.h.
pub data Running : Type 0 where
  npc_running npc_stop npc_end npc_abort npc_quit : Running

pub record NpcState : Type 0 where
  pub state : Running
  pub halt_pc : ℕ
  pub halt_ret : ℕ

-- `npc_state` at the start of the program.
abbrev pub npc_state : NpcState
npc_state = record { state = npc_stop; halt_pc = 0; halt_ret = 0 }

abbrev pub is_running : Running → Bool
is_running npc_running = true
is_running _ = false

-- `npc_state.state == NPC_END || npc_state.state == NPC_ABORT`
abbrev pub is_over : Running → Bool
is_over npc_end = true
is_over npc_abort = true
is_over _ = false

abbrev is_end : Running → Bool
is_end npc_end = true
is_end _ = false

abbrev is_quit : Running → Bool
is_quit npc_quit = true
is_quit _ = false

unfoldable pub is_exit_status_bad : NpcState → Bool
is_exit_status_bad n =
    let good = (is_end n.state && (n.halt_ret == 0)) || is_quit n.state in not good

-- What `cpu_state` points to, besides the registers: the words of the CSRs in the order of
-- `CSR_LIST`, and a signal of the write-back stage that `difftest_step` reads.
pub record Core : Type 0 where
  pub regs : Cpu
  pub csrs : List ℕ
  pub pc_done : ℕ
  pub pc_exe : ℕ
  pub is_done : Bool
  pub flush_for_intr : Bool

-- `ebreak` of csrc/cpu/cpu-exec.cpp, which the core calls with an instruction.
unfoldable pub ebreak : ℕ → Core → NpcState → Outcome NpcState
ebreak inst c n =
    if inst == 0x100073
    then (do
      exit_code ← gpr c.regs 10
      done (record { state = npc_end; halt_pc = c.regs.pc_if; halt_ret = exit_code }))
    else done n
