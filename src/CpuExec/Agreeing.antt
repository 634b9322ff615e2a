-- ===== src/CpuExec/Agreeing.antt =====
-- A core that retires an instruction in every cycle, like the reference model, and calls `ebreak` with
-- every instruction; the fourth one is the instruction `ebreak`.
use fpga_npc.Base.{
  ℕ, zero, suc, ◌+◌, ◌*◌, ◌<◌, ◌≡◌, refl, true, false, none, some, List, [], ◌∷◌, ◌==◌,
  if◌then◌else◌, done, inl, inr, ◌≢◌, arith, u64, replicate, get_or, get_elem?,
}
use fpga_npc.Reg.{gpr}
use fpga_npc.Npc.{Core, npc_state, npc_stop, npc_end, npc_abort, is_exit_status_bad}
use fpga_npc.Difftest.{Reference}
use fpga_npc.Difftest.Compare.{Agrees}
use fpga_npc.CpuExec.{World, Host, DpiCall, calls_ebreak, replay, cpu_exec}
use fpga_npc.CpuExec.Examples.{host}
use fpga_npc.CpuExec.Calls.{AllHarmless, IsTrap, AllGood}
use fpga_npc.CpuExec.Lockstep.{Lockstep, Synced}
use fpga_npc.CpuExec.Cycles.{after}
use fpga_npc.CpuExec.Signals.{cpu_exec_signal}
use fpga_npc.CpuExec.Interrupted.{Advances, cpu_exec-interrupted}
use fpga_npc.CpuExec.GoodTrap.{cpu_exec-lockstep, cpu_exec-good_trap}

abbrev pub signals : ℕ → Core
signals d = record {
  regs = record { pc_if = 100 + 4 * d; gpr_file = replicate 31 0 };
  csrs = replicate 8 0;
  pc_done = 96 + 4 * d;
  pc_exe = 0;
  is_done = true;
  flush_for_intr = false;
}

abbrev pub reference : Reference ℕ
reference = record {
  regcpy_to_dut = λ r. record { ctx_gpr = replicate 32 0; pc = 100 + 4 * r; ctx_csrs = [] };
  regcpy_to_ref = λ _ r. r;
  exec = λ n r. n + r;
  raise_intr = λ _ r. r;
}

abbrev pub calls : ℕ → List (Core × DpiCall)
calls d = (signals d, calls_ebreak (if d == 3 then 0x100073 else 0x13)) ∷ []

abbrev pub agreeing : World ℕ ℕ
agreeing = record {
  dut = record { cycle = λ d. (calls d, d + 1); core = signals };
  ref = reference;
  skip = λ _. false;
}

abbrev pub Rel : ℕ → ℕ → ℕ → Type 0
Rel m d r = (d + m ≡ 3) × (r ≡ d)

get_elem?-zeros :
    (n i : ℕ) → i < n → get_elem? {A = ℕ} (replicate n 0) i ≡ some (get_or (replicate n 0) i 0)
get_elem?-zeros zero i h = absurd (omega arith)
get_elem?-zeros (suc n) zero h = refl
get_elem?-zeros (suc n) (suc i) h = get_elem?-zeros n i (omega arith)

zeros-Agrees : (d r : ℕ) → Agrees 31 1 (signals d) (reference.regcpy_to_dut r)
unfolding gpr
zeros-Agrees d r zero a b = absurd (omega arith)
zeros-Agrees d r (suc j) a b = rw (get_elem?-zeros 31 j (omega arith)) refl

a0-zero : (d : ℕ) → gpr (signals d).regs 10 ≡ done 0
unfolding gpr
a0-zero d = refl

pub calls-harmless : (d : ℕ) → d ≢ 3 → AllHarmless (calls d)
calls-harmless d h = let n : (d == 3) ≡ false = ground (arith, h) in (rw n refl, tt)

calls-IsTrap :
    (d : ℕ) → d ≡ 3 → IsTrap (signals d, calls_ebreak (if d == 3 then 0x100073 else 0x13))
calls-IsTrap d e = let y : (d == 3) ≡ true = ground (arith, e) in (rw y refl, a0-zero d)

first-calm : (d j : ℕ) → d < 3 → j < 1 → AllHarmless (calls (after (λ i. i + 1) j d))
first-calm d zero h i = calls-harmless d (omega (arith, h))
first-calm d (suc j) h i = absurd (omega arith)

first-good : (d j : ℕ) → d ≡ 3 → j < 1 → AllGood (calls (after (λ i. i + 1) j d))
first-good d zero e i = (inr (calls-IsTrap d e), tt)
first-good d (suc j) e i = absurd (omega arith)

pub agreeing-Lockstep : Lockstep agreeing Rel
agreeing-Lockstep = record {
  steps = λ m d r (e, f). (
    0,
    record { in_time = omega arith; not_before = λ j i. absurd (omega arith); retires = refl },
    λ j i. first-calm d j (omega (arith, e)) i,
    record {
      same_pc = omega (arith, f);
      no_interrupt = refl;
      file_size = refl;
      same_gprs = zeros-Agrees (d + 1) (1 + r);
    },
    (omega (arith, e), omega (arith, f)),
  );
  traps = λ d r (e, f). record {
    cycles = 0;
    retires = record {
      in_time = omega arith;
      not_before = λ j i. absurd (omega arith);
      retires = refl;
    };
    calls = λ j i. first-good d j (omega (arith, e)) i;
    trap_in = 0;
    in_cycles = omega arith;
    trap = inl (calls-IsTrap d (omega (arith, e)));
  };
}

abbrev fresh : Host ℕ ℕ
fresh = record (host none) { npc = npc_state }

fresh-Synced : Synced agreeing Rel 3 fresh
fresh-Synced = record {
  related = (refl, refl);
  no_skips = refl;
  no_contexts = refl;
  at_pc = inl refl;
  no_watchpoints = refl;
}

cpu_exec-lockstep_example :
    (t : Host ℕ ℕ) × (cpu_exec agreeing 2 fresh ≡ done t)
    × (t.npc.state ≡ npc_stop)
    × (u64 t.g_nr_guest_inst ≡ 2)
    × Synced agreeing Rel 1 t
cpu_exec-lockstep_example =
    cpu_exec-lockstep agreeing Rel fresh 2 1 agreeing-Lockstep refl fresh-Synced

cpu_exec-good_trap_example :
    (t : Host ℕ ℕ) × (cpu_exec agreeing 9 fresh ≡ done t)
    × (t.npc.state ≡ npc_end)
    × (is_exit_status_bad t.npc ≡ false)
    × (u64 t.g_nr_guest_inst ≡ 4)
cpu_exec-good_trap_example =
    cpu_exec-good_trap agreeing Rel fresh 9 3 agreeing-Lockstep refl (omega arith) fresh-Synced

agreeing-Advances : Advances agreeing Rel
agreeing-Advances = record { not_zero = λ m d r e. ground arith; moves = λ m d r e. ground arith }

-- An instruction has been compared.
abbrev compared : Host ℕ ℕ
compared = record fresh { difftest = record fresh.difftest { diff_npc = 100 } }

compared-Synced : Synced agreeing Rel 3 compared
compared-Synced = record {
  related = (refl, refl);
  no_skips = refl;
  no_contexts = refl;
  at_pc = inr refl;
  no_watchpoints = refl;
}

cpu_exec-interrupted_example :
    (t : Host ℕ ℕ) × (cpu_exec_signal agreeing (some (record { inst = 1; late = true })) 9 compared
      ≡ done t)
    × (t.npc.state ≡ npc_stop)
    × (u64 t.g_nr_guest_inst ≡ 2)
    × Rel 1 t.top (reference.exec 1 t.difftest.ref)
    × (u : Host ℕ ℕ) × (cpu_exec agreeing 1 t ≡ replay u)
    × (u.npc.state ≡ npc_abort)
cpu_exec-interrupted_example =
    cpu_exec-interrupted agreeing Rel compared true 1 0 9 agreeing-Lockstep agreeing-Advances refl
      refl (omega arith) compared-Synced
