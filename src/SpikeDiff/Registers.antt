-- ===== src/SpikeDiff/Registers.antt =====
-- What is copied to the reference model and back.
use fpga_npc.Base.{
  ℕ, zero, suc, ◌+◌, ◌^◌, ◌<◌, ◌≤◌, ◌≡◌, ◌≢◌, refl, ap, sym, ◌∙◌, true, false, List, [], ◌∷◌, ◌==◌,
  u32, get_or, arith, Bool-cases, inl, inr,
}
use fpga_npc.Difftest.{DiffContext}
use fpga_npc.SpikeDiff.{
  Spike, csr_list, as_reg, get_gprs, diff_get_regs, set_gprs, set_csrs, diff_set_regs,
  difftest_regcpy,
}

-- The registers and the pc are cells, but for x0, which is 0, and a write to a CSR of the list leaves
-- them alone.
pub record Lawful {S : Type 0} (spike : Spike S) : Type 0 where
  pub xpr_zero : (s : S) → spike.xpr 0 s ≡ 0
  pub xpr_written : (i v : ℕ) (s : S) → 0 < i → spike.xpr i (spike.write_xpr i v s) ≡ v
  pub xpr_other : (i j v : ℕ) (s : S) → i ≢ j → spike.xpr j (spike.write_xpr i v s) ≡ spike.xpr j s
  pub xpr_pc : (i v : ℕ) (s : S) → spike.xpr i (spike.set_pc v s) ≡ spike.xpr i s
  pub xpr_csr : (i addr v : ℕ) (s : S) → spike.xpr i (spike.write_csr addr v s) ≡ spike.xpr i s
  pub pc_set : (v : ℕ) (s : S) → spike.pc (spike.set_pc v s) ≡ v
  pub pc_csr : (addr v : ℕ) (s : S) → spike.pc (spike.write_csr addr v s) ≡ spike.pc s

module _ {S : Type 0} (spike : Spike S) (laws : Lawful spike) where
  get_gprs-get_or :
      (n i j : ℕ) (s : S) → j < n → get_or (get_gprs spike n i s) j 0 ≡ u32 (spike.xpr (i + j) s)
  unfolding get_gprs
  get_gprs-get_or zero i j s h = absurd (omega arith)
  get_gprs-get_or (suc n) i zero s h = ap (λ k. u32 (spike.xpr k s)) (omega arith)
  get_gprs-get_or (suc n) i (suc j) s h =
      get_gprs-get_or n (i + 1) j s (omega arith) ∙ ap (λ k. u32 (spike.xpr k s)) (omega arith)

  xpr-set_gprs_below :
      (n i j : ℕ) (gprs : List ℕ) (s : S)
      → j < i
      → spike.xpr j (set_gprs spike n i gprs s) ≡ spike.xpr j s
  unfolding set_gprs
  xpr-set_gprs_below zero i j gprs s h = refl
  xpr-set_gprs_below (suc n) i j gprs s h =
      xpr-set_gprs_below n (i + 1) j gprs _ (omega arith)
      ∙ laws.xpr_other i j (as_reg (get_or gprs i 0)) s (λ e. absurd (omega (arith, e)))

  xpr-set_gprs :
      (n i j : ℕ) (gprs : List ℕ) (s : S)
      → 0 < j
      → i ≤ j
      → j < i + n
      → spike.xpr j (set_gprs spike n i gprs s) ≡ as_reg (get_or gprs j 0)
  unfolding set_gprs
  xpr-set_gprs zero i j gprs s p h l = absurd (omega arith)
  xpr-set_gprs (suc n) i j gprs s p h l = elim (Bool-cases (i == j)) [
    | inr m ↦ xpr-set_gprs n (i + 1) j gprs _ p (ground arith) (omega arith)
    | inl y ↦
        let i_j : i ≡ j = ground arith in
        let v = as_reg (get_or gprs i 0) in
        xpr-set_gprs_below n (i + 1) j gprs _ (omega (arith, i_j))
        ∙ ap (λ k. spike.xpr k (spike.write_xpr i v s)) (sym i_j)
        ∙ laws.xpr_written i v s (omega (arith, i_j))
        ∙ ap (λ k. as_reg (get_or gprs k 0)) i_j
  ]

  xpr-set_csrs :
      (addrs : List ℕ) (i j : ℕ) (csrs : List ℕ) (s : S)
      → spike.xpr j (set_csrs spike addrs i csrs s) ≡ spike.xpr j s
  unfolding set_csrs
  xpr-set_csrs [] i j csrs s = refl
  xpr-set_csrs (addr ∷ addrs) i j csrs s =
      xpr-set_csrs addrs (i + 1) j csrs _ ∙ laws.xpr_csr j addr (get_or csrs i 0) s

  pc-set_csrs :
      (addrs : List ℕ) (i : ℕ) (csrs : List ℕ) (s : S)
      → spike.pc (set_csrs spike addrs i csrs s) ≡ spike.pc s
  unfolding set_csrs
  pc-set_csrs [] i csrs s = refl
  pc-set_csrs (addr ∷ addrs) i csrs s =
      pc-set_csrs addrs (i + 1) csrs _ ∙ laws.pc_csr addr (get_or csrs i 0) s

  as_reg-u32 : (v : ℕ) → v < 2 ^ 32 → u32 (as_reg v) ≡ v
  as_reg-u32 v h = ground arith

  copied_gpr :
      (ctx : DiffContext) (s : S) (j : ℕ)
      → j < 32
      → get_or (diff_get_regs spike (diff_set_regs spike ctx s)).ctx_gpr j 0
        ≡ u32 (spike.xpr j (set_gprs spike 32 0 ctx.ctx_gpr s))
  unfolding diff_get_regs diff_set_regs
  copied_gpr ctx s j h =
      get_gprs-get_or 32 0 j _ h
      ∙ ap u32 (
          ap (λ k. spike.xpr k (diff_set_regs spike ctx s)) (omega arith)
          ∙ xpr-set_csrs csr_list 0 j ctx.ctx_csrs _
          ∙ laws.xpr_pc j ctx.pc _)

  copied_pc :
      (ctx : DiffContext) (s : S)
      → ctx.pc < 2 ^ 32
      → (diff_get_regs spike (diff_set_regs spike ctx s)).pc ≡ ctx.pc
  unfolding diff_get_regs diff_set_regs
  copied_pc ctx s h =
      ap u32 (pc-set_csrs csr_list 0 ctx.ctx_csrs _ ∙ laws.pc_set ctx.pc _) ∙ omega (arith, h)

-- For a simulator whose registers and pc are cells, but for x0, which stays 0, and whose CSR
-- writes leave them alone, the registers of 32 bits and the pc that difftest_regcpy copies to the
-- reference come back from it as they were, with 0 for x0.
pub difftest_regcpy-back :
    {S : Type 0} (spike : Spike S) (ctx dut : DiffContext) (s : S)
    → Lawful spike
    → ((j : ℕ) → get_or ctx.ctx_gpr j 0 < 2 ^ 32)
    → ctx.pc < 2 ^ 32
    → let back = (difftest_regcpy spike dut false (difftest_regcpy spike ctx true s).1).0 in
      (back.pc ≡ ctx.pc)
      × (get_or back.ctx_gpr 0 0 ≡ 0)
      × ((j : ℕ) → 0 < j → j < 32 → get_or back.ctx_gpr j 0 ≡ get_or ctx.ctx_gpr j 0)
unfolding difftest_regcpy
difftest_regcpy-back spike ctx dut s laws small pc_small = (
  copied_pc spike laws ctx s pc_small,
  copied_gpr spike laws ctx s 0 (omega arith) ∙ ap u32 (laws.xpr_zero _),
  λ j p h.
      copied_gpr spike laws ctx s j h
      ∙ ap u32 (xpr-set_gprs spike laws 32 0 j ctx.ctx_gpr s p (omega arith) (omega arith))
      ∙ as_reg-u32 spike laws (get_or ctx.ctx_gpr j 0) (small j),
)
