-- ===== src/Difftest.antt =====
-- csrc/cpu/dut.cc: every retired instruction is compared with a reference model.
-- The reference model is a library that is loaded at run time; its functions are arguments.
pub mod Compare
pub mod Skips
pub mod Init
pub mod Ends
use fpga_npc.Base.{
  ℕ, zero, suc, ◌+◌, ◌-◌, Bool, true, false, ◌&&◌, ◌||◌, not, Option, none, some, List, [], ◌∷◌,
  ◌++◌, ◌==◌, if◌then◌else◌, Outcome, done, undefined, ◌>>=◌, u32, get_or, length,
}
use fpga_npc.Reg.{gpr}
use fpga_npc.Npc.{NpcState, Core, npc_abort}

-- `diff_context_t`: the 32 general registers, the pc and the words from `mstatus` on.
pub record DiffContext : Type 0 where
  pub ctx_gpr : List ℕ
  pub pc : ℕ
  pub ctx_csrs : List ℕ

-- `csr_ctx`
pub record CsrCtx : Type 0 where
  pub csrs : List ℕ
  pub pc : ℕ

-- The functions of the reference model, on its state.
pub record Reference (R : Type 0) : Type 0 where
  pub regcpy_to_dut : R → DiffContext
  pub regcpy_to_ref : DiffContext → R → R
  pub exec : ℕ → R → R
  pub raise_intr : ℕ → R → R

-- The static variables of the file, and the state of the reference model.
pub record Difftest (R : Type 0) : Type 0 where
  pub pcs_to_skip : List ℕ
  pub pc_intr_triggered : ℕ
  pub cause_no_intr_triggered : ℕ
  pub diff_npc : ℕ
  pub csr_ctx_q : List CsrCtx
  pub ctx : DiffContext
  pub ref : R

abbrev pub nr_csr : ℕ
nr_csr = 8

-- The registers from x1 on, `n` of them from number `i`.
unfoldable pub read_gprs : ℕ → ℕ → Core → Outcome (List ℕ)
read_gprs zero i c = done []
read_gprs (suc n) i c = do v ← gpr c.regs i; rest ← read_gprs n (i + 1) c; done (v ∷ rest)

-- The loop over the registers from number `i` on, `n` of them: whether all agree.
unfoldable pub gpr_loop : ℕ → ℕ → Core → DiffContext → Outcome Bool
gpr_loop zero i c r = done true
gpr_loop (suc n) i c r = do
  v ← gpr c.regs i
  rest ← gpr_loop n (i + 1) c r
  done ((get_or r.ctx_gpr i 0 == v) && rest)

-- The loop over the CSRs. `skip` is `skip_checkcsrs`: it compares an index with the distance of two
-- pointers into different objects, of which C says nothing. Difftest.Skips has it over addresses.
unfoldable pub csr_loop : (ℕ → Bool) → ℕ → ℕ → List ℕ → List ℕ → Bool
csr_loop skip zero i ref_csrs cpu_csrs = true
csr_loop skip (suc n) i ref_csrs cpu_csrs =
    (skip i || (get_or ref_csrs i 0 == get_or cpu_csrs i 0))
    && csr_loop skip n (i + 1) ref_csrs cpu_csrs

-- The front of `csr_ctx_q`: whether the CSRs agree, and the queue behind it.
unfoldable pub check_csrs : (ℕ → Bool) → DiffContext → ℕ → List CsrCtx → Bool × List CsrCtx
check_csrs skip r pc [] = (true, [])
check_csrs skip r pc (front ∷ q) =
    if front.pc == pc then (csr_loop skip nr_csr 0 r.ctx_csrs front.csrs, q) else (true, front ∷ q)

module _ {R : Type 0} where
  -- `difftest_skip_ref`, which `diff_skip` calls.
  unfoldable pub difftest_skip_ref : ℕ → Difftest R → Difftest R
  difftest_skip_ref skip_pc d = record d { pcs_to_skip = d.pcs_to_skip ++ skip_pc ∷ [] }

  unfoldable pub diff_raise_intr : ℕ → Core → Difftest R → Difftest R
  diff_raise_intr cause_no c d = record d {
    pc_intr_triggered = c.pc_exe;
    cause_no_intr_triggered = cause_no;
  }

  -- `update_csr` of csrc/cpu/cpu-exec.cpp reads the CSRs into a new context and declares a queue of
  -- its own, which hides the one of this file; neither is used, and the context is not freed.
  unfoldable pub update_csr : ℕ → Core → Difftest R → Difftest R
  update_csr pc c d = d

  unfoldable pub difftest_checkregs :
      (ℕ → Bool) → Core → DiffContext → ℕ → Difftest R → Outcome (Bool × Difftest R)
  difftest_checkregs skip c r pc d = do
    gprs ← gpr_loop 31 1 c r
    let same_pc = (d.diff_npc == 0) || (d.diff_npc == pc)
    let (csrs, q) = check_csrs skip r pc d.csr_ctx_q
    done (same_pc && gprs && csrs, record d { csr_ctx_q = q; diff_npc = r.pc })

  -- A difference stops the simulation.
  unfoldable pub checkregs :
      (ℕ → Bool) → Core → DiffContext → ℕ → Difftest R × NpcState → Outcome (Difftest R × NpcState)
  checkregs skip c r pc (d, n) = do
    (same, d') ← difftest_checkregs skip c r pc d
    done (d', if same then n else record n { state = npc_abort; halt_pc = pc })

  -- An instruction that the reference model cannot run: its state is overwritten.
  unfoldable pub skip_step : Reference R → Core → ℕ → List ℕ → Difftest R → Outcome (Difftest R)
  skip_step ref c front rest d = do
    gprs ← read_gprs 31 1 c
    let ctx : DiffContext = record {
      ctx_gpr = get_or d.ctx.ctx_gpr 0 0 ∷ gprs;
      pc = u32 (c.pc_done + 4);
      ctx_csrs = c.csrs;
    }
    done (record d {
      ctx = ctx;
      diff_npc = u32 (front + 4);
      ref = ref.regcpy_to_ref ctx d.ref;
      pcs_to_skip = rest;
    })

  -- The reference model's step: an interrupt, or one instruction.
  unfoldable pub ref_step : Reference R → Core → ℕ → Difftest R → Difftest R
  ref_step ref c pc d =
      if (pc == d.pc_intr_triggered) && c.flush_for_intr
      then record d {
        ref = ref.raise_intr d.cause_no_intr_triggered d.ref;
        pc_intr_triggered = 0;
        cause_no_intr_triggered = 0;
      }
      else record d { ref = ref.exec 1 d.ref }

  unfoldable pub compare_step :
      (ℕ → Bool) → Reference R → Core → ℕ → Difftest R × NpcState → Outcome (Difftest R × NpcState)
  compare_step skip ref c pc (d, n) =
      let d' = ref_step ref c pc d in checkregs skip c (ref.regcpy_to_dut d'.ref) pc (d', n)

  unfoldable pub difftest_step :
      (ℕ → Bool) → Reference R → Core → ℕ → Difftest R × NpcState → Outcome (Difftest R × NpcState)
  difftest_step skip ref c pc (d, n) = elim d.pcs_to_skip [
    | [] ↦ compare_step skip ref c pc (d, n)
    | front ∷ rest ↦
        if c.pc_done == front
        then (do d' ← skip_step ref c front rest d; done (d', n))
        else compare_step skip ref c pc (d, n)
  ]
