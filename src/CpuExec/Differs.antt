-- ===== src/CpuExec/Differs.antt =====
-- An instruction of the core that the reference model does not expect.
use fpga_npc.Base.{
  ℕ, ◌≡◌, refl, ap, ◌∙◌, inl, inr, false, none, [], ◌==◌, done, arith, length, Bool-cases,
}
use fpga_npc.Npc.{NpcState, npc_abort, Core}
use fpga_npc.Difftest.{Difftest, difftest_step, compare_step, checkregs}
use fpga_npc.Difftest.Compare.{difftest_checkregs-Agrees}
use fpga_npc.CpuExec.{World, Host, trace_and_difftest}
use fpga_npc.CpuExec.Lockstep.{Agree, stepped, ref_step-exec, difftest_step-compares, watch-none}

module _ {D R : Type 0} (w : World D R) where
  -- The pc of the reference model.
  abbrev pub pc_of : R → ℕ
  pc_of r = (w.ref.regcpy_to_dut r).pc

  abbrev aborted : ℕ → NpcState → NpcState
  aborted pc n = record n { state = npc_abort; halt_pc = pc }

  -- The comparison when `diff_npc` is neither 0 nor the pc of the core.
  difftest_step-differs :
      (c : Core) (d : Difftest R) (n : NpcState)
      → length c.regs.gpr_file ≡ 31
      → c.flush_for_intr ≡ false
      → d.pcs_to_skip ≡ []
      → d.csr_ctx_q ≡ []
      → (d.diff_npc == 0) ≡ false
      → (d.diff_npc == c.pc_done) ≡ false
      → difftest_step w.skip w.ref c c.pc_done (d, n) ≡ done (stepped w d, aborted c.pc_done n)
  unfolding compare_step checkregs
  difftest_step-differs c d n l f s q z p =
      let r = w.ref.regcpy_to_dut (w.ref.exec 1 d.ref) in
      let d1 = record d { ref = w.ref.exec 1 d.ref } in
      let (b, e, sound, complete) = difftest_checkregs-Agrees w.skip c r c.pc_done d1 l q in
      let bad : b ≡ false = elim (Bool-cases b) [
        | inl y ↦ ground (arith, sound y, z, p)
        | inr f ↦ f
      ] in
      difftest_step-compares w c c.pc_done d n s ∙ rw (ref_step-exec w c c.pc_done d f, e, bad) refl

  pub trace_and_difftest-differs :
      (h : Host D R) (r : R)
      → h.difftest.pcs_to_skip ≡ []
      → h.difftest.csr_ctx_q ≡ []
      → h.watchpoints.head ≡ none
      → Agree w h.top r (w.ref.exec 1 r)
      → (h.difftest.diff_npc == 0) ≡ false
      → (h.difftest.diff_npc == pc_of r) ≡ false
      → (u : Host D R) × (trace_and_difftest w h ≡ done u) × (u.npc.state ≡ npc_abort)
  unfolding trace_and_difftest
  trace_and_difftest-differs h r s q e a z p =
      let c = w.dut.core h.top in
      let differs : (h.difftest.diff_npc == c.pc_done) ≡ false =
        ap (λ k. h.difftest.diff_npc == k) a.same_pc ∙ p in
      let step =
        difftest_step-differs c h.difftest h.npc a.file_size a.no_interrupt s q z differs in
      let u = record h { difftest = stepped w h.difftest; npc = aborted c.pc_done h.npc } in
      (u, rw step (watch-none w u e), refl)
