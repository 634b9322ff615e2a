-- ===== src/SpikeDiff.antt =====
-- tools/spike-diff/difftest.cc: the reference model that csrc/cpu/dut.cc loads, around the Spike simulator.
-- Spike is a library: its state, and what the code calls of it, are arguments.
pub mod Registers
pub mod Startup
mod Examples
use fpga_npc.Base.{
  ℕ, zero, suc, ◌+◌, ◌-◌, ◌%◌, ◌^◌, Bool, true, false, List, [], ◌∷◌, leb, if◌then◌else◌, Outcome,
  done, aborted, ◌>>=◌, u32, u64, get_or, codes,
}
use fpga_npc.Difftest.{DiffContext}
use fpga_npc.Difftest.Init.{Library}

-- `state_t` and the parts of `sim_t`, `mmu_t` and `processor_t` that are called: registers of 64 bits,
-- CSRs by their addresses, a store of one byte, which may fail, and the steps.
pub record Spike (S : Type 0) : Type 0 where
  pub xpr : ℕ → S → ℕ
  pub write_xpr : ℕ → ℕ → S → S
  pub pc : S → ℕ
  pub set_pc : ℕ → S → S
  pub read_csr : ℕ → S → ℕ
  pub write_csr : ℕ → ℕ → S → S
  pub store_byte : ℕ → ℕ → S → Outcome S
  pub step : ℕ → S → S
  pub take_trap : ℕ → ℕ → S → S

abbrev pub nr_xpr : ℕ
nr_xpr = 32

-- The addresses of `CSR_LIST`, in order.
abbrev pub csr_list : List ℕ
csr_list = 0x300 ∷ 0x305 ∷ 0x340 ∷ 0x341 ∷ 0x342 ∷ 0x180 ∷ 0xf11 ∷ 0xf12 ∷ []

-- `(sreg_t)((int32_t)v)`, as a `reg_t`.
abbrev pub as_reg : ℕ → ℕ
as_reg v = if leb (2 ^ 31) v then v + (2 ^ 64 - 2 ^ 32) else v

-- A context before it is written.
abbrev pub nothing : DiffContext
nothing = record { ctx_gpr = []; pc = 0; ctx_csrs = [] }

module _ {S : Type 0} (spike : Spike S) where
  unfoldable pub get_gprs : ℕ → ℕ → S → List ℕ
  get_gprs zero i s = []
  get_gprs (suc n) i s = u32 (spike.xpr i s) ∷ get_gprs n (i + 1) s

  unfoldable pub get_csrs : List ℕ → S → List ℕ
  get_csrs [] s = []
  get_csrs (addr ∷ addrs) s = u32 (spike.read_csr addr s) ∷ get_csrs addrs s

  unfoldable pub diff_get_regs : S → DiffContext
  diff_get_regs s = record {
    ctx_gpr = get_gprs nr_xpr 0 s;
    pc = u32 (spike.pc s);
    ctx_csrs = get_csrs csr_list s;
  }

  -- The loop over the registers from number `i` on.
  unfoldable pub set_gprs : ℕ → ℕ → List ℕ → S → S
  set_gprs zero i gprs s = s
  set_gprs (suc n) i gprs s =
      set_gprs n (i + 1) gprs (spike.write_xpr i (as_reg (get_or gprs i 0)) s)

  -- `CSR_LIST(CSR_SET)`, with the words from number `i` on.
  unfoldable pub set_csrs : List ℕ → ℕ → List ℕ → S → S
  set_csrs [] i csrs s = s
  set_csrs (addr ∷ addrs) i csrs s =
      set_csrs addrs (i + 1) csrs (spike.write_csr addr (get_or csrs i 0) s)

  unfoldable pub diff_set_regs : DiffContext → S → S
  diff_set_regs ctx s =
      set_csrs csr_list 0 ctx.ctx_csrs (spike.set_pc ctx.pc (set_gprs nr_xpr 0 ctx.ctx_gpr s))

  -- The loop of `diff_memcpy`, with the bytes that are left.
  unfoldable pub diff_memcpy : ℕ → List ℕ → S → Outcome S
  diff_memcpy dest [] s = done s
  diff_memcpy dest (byte ∷ src) s = do
    t ← spike.store_byte (u64 dest) byte s
    diff_memcpy (dest + 1) src t

  -- `to_ref` is `direction == DIFFTEST_TO_REF`; the bytes are those from `buf` on.
  unfoldable pub difftest_memcpy : ℕ → List ℕ → Bool → S → Outcome S
  difftest_memcpy addr buf true s = diff_memcpy addr buf s
  difftest_memcpy addr buf false s = aborted

  -- `*dut` and the state.
  unfoldable pub difftest_regcpy : DiffContext → Bool → S → DiffContext × S
  difftest_regcpy dut true s = (dut, diff_set_regs dut s)
  difftest_regcpy dut false s = (diff_get_regs s, s)

  -- `diff_step`
  unfoldable pub difftest_exec : ℕ → S → S
  difftest_exec n s = spike.step n s

  unfoldable pub difftest_raise_intr : ℕ → S → S
  difftest_raise_intr cause_no s = spike.take_trap cause_no (spike.pc s) s

  -- The exported functions; `new_sim` is what `difftest_init` makes of `new sim_t`, whatever the port.
  unfoldable pub exports : S → Library S
  exports new_sim = record {
    symbols =
        codes "difftest_memcpy"
        ∷ codes "difftest_regcpy"
        ∷ codes "difftest_exec"
        ∷ codes "difftest_init"
        ∷ codes "difftest_raise_intr"
        ∷ [];
    functions = record {
      regcpy_to_dut = λ s. (difftest_regcpy nothing false s).0;
      regcpy_to_ref = λ ctx s. (difftest_regcpy ctx true s).1;
      exec = difftest_exec;
      raise_intr = difftest_raise_intr;
    };
    init = λ port. new_sim;
    memcpy = difftest_memcpy;
  }
