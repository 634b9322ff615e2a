-- ===== src/Difftest/Ends.antt =====
-- That a step of the comparison ends, and leaves the queue of CSR contexts empty.
use fpga_npc.Base.{
  ℕ, zero, suc, ◌+◌, ◌≡◌, refl, ◌∙◌, Bool, ◌&&◌, List, [], ◌==◌, Ends, bind-Ends, Bool-cases, inl,
  inr, Option-cases, List-cases, get_elem?,
}
use fpga_npc.Reg.{Cpu, gpr}
use fpga_npc.Npc.{NpcState, Core, ebreak}
use fpga_npc.Difftest.{
  Difftest, DiffContext, Reference, gpr_loop, read_gprs, check_csrs, difftest_checkregs, checkregs,
  skip_step, ref_step, compare_step, difftest_step,
}

pub gpr-Ends : (c : Cpu) (i : ℕ) → Ends (λ _. Unit) (gpr c i)
unfolding gpr
gpr-Ends c zero = tt
gpr-Ends c (suc i) = elim (Option-cases (get_elem? c.gpr_file i)) [
  | inl n ↦ rw (n, Ends) tt
  | inr (v, s) ↦ rw (s, Ends) tt
]

pub ebreak-Ends : (inst : ℕ) (c : Core) (n : NpcState) → Ends (λ _. Unit) (ebreak inst c n)
unfolding ebreak
ebreak-Ends inst c n = elim (Bool-cases (inst == 0x100073)) [
  | inl y ↦
      rw y (bind-Ends (λ _. Unit) (λ _. Unit) (gpr c.regs 10) _ (gpr-Ends c.regs 10) (λ v u. tt))
  | inr m ↦ rw m tt
]

pub read_gprs-Ends : (n i : ℕ) (c : Core) → Ends (λ _. Unit) (read_gprs n i c)
unfolding read_gprs
read_gprs-Ends zero i c = tt
read_gprs-Ends (suc n) i c =
    bind-Ends (λ _. Unit) (λ _. Unit) (gpr c.regs i) _ (gpr-Ends c.regs i)
      (λ v u.
        bind-Ends (λ _. Unit) (λ _. Unit) (read_gprs n (i + 1) c) _ (read_gprs-Ends n (i + 1) c)
          (λ r s. tt))

pub gpr_loop-Ends : (n i : ℕ) (c : Core) (r : DiffContext) → Ends (λ _. Unit) (gpr_loop n i c r)
unfolding gpr_loop
gpr_loop-Ends zero i c r = tt
gpr_loop-Ends (suc n) i c r =
    bind-Ends (λ _. Unit) (λ _. Unit) (gpr c.regs i) _ (gpr-Ends c.regs i)
      (λ v u.
        bind-Ends (λ _. Unit) (λ _. Unit) (gpr_loop n (i + 1) c r) _ (gpr_loop-Ends n (i + 1) c r)
          (λ b s. tt))

-- No step of the comparison puts a CSR context into the queue.
abbrev pub NoContexts : {R : Type 0} → Difftest R × NpcState → Type 0
NoContexts (d, n) = d.csr_ctx_q ≡ []

module _ {R : Type 0} (skip : ℕ → Bool) (ref : Reference R) (c : Core) where
  checkregs-NoContexts :
      (r : DiffContext) (pc : ℕ) (d : Difftest R) (n : NpcState)
      → d.csr_ctx_q ≡ []
      → Ends NoContexts (checkregs skip c r pc (d, n))
  unfolding checkregs difftest_checkregs check_csrs
  checkregs-NoContexts r pc d n e =
      bind-Ends (λ x. x.1.csr_ctx_q ≡ []) NoContexts (difftest_checkregs skip c r pc d) _
        (bind-Ends (λ _. Unit) (λ x. x.1.csr_ctx_q ≡ []) (gpr_loop 31 1 c r) _
          (gpr_loop-Ends 31 1 c r) (λ b u. rw e refl))
        (λ x l. l)

  ref_step-contexts : (pc : ℕ) (d : Difftest R) → (ref_step ref c pc d).csr_ctx_q ≡ d.csr_ctx_q
  unfolding ref_step
  ref_step-contexts pc d = elim (Bool-cases ((pc == d.pc_intr_triggered) && c.flush_for_intr)) [
    | inl y ↦ rw y refl
    | inr m ↦ rw m refl
  ]

  compare_step-NoContexts :
      (pc : ℕ) (d : Difftest R) (n : NpcState)
      → d.csr_ctx_q ≡ []
      → Ends NoContexts (compare_step skip ref c pc (d, n))
  unfolding compare_step
  compare_step-NoContexts pc d n e =
      let d' = ref_step ref c pc d in
      checkregs-NoContexts (ref.regcpy_to_dut d'.ref) pc d' n (ref_step-contexts pc d ∙ e)

  skip_step-contexts :
      (front : ℕ) (rest : List ℕ) (d : Difftest R)
      → d.csr_ctx_q ≡ []
      → Ends (λ t. t.csr_ctx_q ≡ []) (skip_step ref c front rest d)
  unfolding skip_step
  skip_step-contexts front rest d e =
      bind-Ends (λ _. Unit) (λ t. t.csr_ctx_q ≡ []) (read_gprs 31 1 c) _ (read_gprs-Ends 31 1 c)
        (λ g u. e)

  pub difftest_step-NoContexts :
      (pc : ℕ) (d : Difftest R) (n : NpcState)
      → d.csr_ctx_q ≡ []
      → Ends NoContexts (difftest_step skip ref c pc (d, n))
  unfolding difftest_step
  difftest_step-NoContexts pc d n e = elim (List-cases d.pcs_to_skip) [
    | inl q ↦ rw q (compare_step-NoContexts pc d n e)
    | inr (front, rest, q) ↦ rw q (elim (Bool-cases (c.pc_done == front)) [
      | inl y ↦ rw y (
          bind-Ends (λ t. t.csr_ctx_q ≡ []) NoContexts (skip_step ref c front rest d) _
            (skip_step-contexts front rest d e) (λ t l. l))
      | inr m ↦ rw m (compare_step-NoContexts pc d n e)
    ])
  ]
