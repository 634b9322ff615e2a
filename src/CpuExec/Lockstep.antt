-- ===== src/CpuExec/Lockstep.antt =====
-- A core that does what the reference model does.
use fpga_npc.Base.{
  ℕ, zero, suc, ◌+◌, ◌≡◌, refl, sym, ap, ◌∙◌, ◌⊎◌, inl, inr, true, false, none, [], ◌==◌, Outcome,
  done, ◌>>=◌, arith, u64, length, Bool-cases, subst,
}
use fpga_npc.Npc.{NpcState, Core, is_running}
use fpga_npc.Difftest.{Difftest, ref_step, checkregs, compare_step, difftest_step}
use fpga_npc.Difftest.Compare.{Agrees, difftest_checkregs-Agrees}
use fpga_npc.Watchpoint.{check_diff, check_loop}
use fpga_npc.CpuExec.{World, Host, watch, trace_and_difftest, retire, excute}
use fpga_npc.CpuExec.Trapping.{Traps}
use fpga_npc.CpuExec.Cycles.{after, next, passed, Retires, Calm, exec_once-calm}

module _ {D R : Type 0} (w : World D R) where
  -- An instruction of the core and one of the reference model, from `d` and `r` to `d'` and `r'`: the
  -- core was where the model was, and the registers agree behind it.
  pub record Agree (d' : D) (r r' : R) : Type 0 where
    pub same_pc : (w.dut.core d').pc_done ≡ (w.ref.regcpy_to_dut r).pc
    pub no_interrupt : (w.dut.core d').flush_for_intr ≡ false
    pub file_size : length (w.dut.core d').regs.gpr_file ≡ 31
    pub same_gprs : Agrees 31 1 (w.dut.core d') (w.ref.regcpy_to_dut r')

  -- A relation of states, by the number of instructions up to the one with the `ebreak`, that an
  -- instruction of both keeps. In the cycles of the instructions before, the core's calls leave the
  -- host alone: `ebreak` with other instructions, and `update_csr`.
  pub record Lockstep (Rel : ℕ → D → R → Type 0) : Type 0 where
    pub steps :
        (m : ℕ) (d : D) (r : R)
        → Rel (suc m) d r
        → (k : ℕ) × Retires w k d
          × Calm w (suc k) d
          × Agree (after (next w) (suc k) d) r (w.ref.exec 1 r)
          × Rel m (after (next w) (suc k) d) (w.ref.exec 1 r)
    pub traps : (d : D) (r : R) → Rel 0 d r → Traps w d

  -- A host in which core and model are related, with no watchpoints and nothing to be skipped.
  pub record Synced (Rel : ℕ → D → R → Type 0) (m : ℕ) (h : Host D R) : Type 0 where
    pub related : Rel m h.top h.difftest.ref
    pub no_skips : h.difftest.pcs_to_skip ≡ []
    pub no_contexts : h.difftest.csr_ctx_q ≡ []
    pub at_pc :
        (h.difftest.diff_npc ≡ 0) ⊎ (h.difftest.diff_npc ≡ (w.ref.regcpy_to_dut h.difftest.ref).pc)
    pub no_watchpoints : h.watchpoints.head ≡ none

  -- `diff_npc` is where the model is: an instruction has been compared.
  abbrev pub AtPc : Host D R → Type 0
  AtPc h = h.difftest.diff_npc ≡ (w.ref.regcpy_to_dut h.difftest.ref).pc

  -- The reference model's instruction, and the comparison behind it.
  abbrev pub stepped : Difftest R → Difftest R
  stepped d = record d {
    ref = w.ref.exec 1 d.ref;
    diff_npc = (w.ref.regcpy_to_dut (w.ref.exec 1 d.ref)).pc;
  }

  pub ref_step-exec :
      (c : Core) (pc : ℕ) (d : Difftest R)
      → c.flush_for_intr ≡ false
      → ref_step w.ref c pc d ≡ record d { ref = w.ref.exec 1 d.ref }
  unfolding ref_step
  ref_step-exec c pc d e = elim (Bool-cases (pc == d.pc_intr_triggered)) [
    | inl y ↦ rw (y, e) refl
    | inr n ↦ rw n refl
  ]

  pub difftest_step-compares :
      (c : Core) (pc : ℕ) (d : Difftest R) (n : NpcState)
      → d.pcs_to_skip ≡ []
      → difftest_step w.skip w.ref c pc (d, n) ≡ compare_step w.skip w.ref c pc (d, n)
  unfolding difftest_step
  difftest_step-compares c pc d n s = ground arith

  difftest_step-agrees :
      (d' : D) (d : Difftest R) (n : NpcState)
      → d.pcs_to_skip ≡ []
      → d.csr_ctx_q ≡ []
      → (d.diff_npc ≡ 0) ⊎ (d.diff_npc ≡ (w.ref.regcpy_to_dut d.ref).pc)
      → Agree d' d.ref (w.ref.exec 1 d.ref)
      → difftest_step w.skip w.ref (w.dut.core d') (w.dut.core d').pc_done (d, n)
        ≡ done (stepped d, n)
  unfolding compare_step checkregs
  difftest_step-agrees d' d n s q p a =
      let c = w.dut.core d' in
      let r = w.ref.regcpy_to_dut (w.ref.exec 1 d.ref) in
      let d1 = record d { ref = w.ref.exec 1 d.ref } in
      let (b, e, sound, complete) =
        difftest_checkregs-Agrees w.skip c r c.pc_done d1 a.file_size q in
      let good : b ≡ true =
        complete (elim p [ inl z ↦ inl z | inr f ↦ inr (f ∙ sym a.same_pc) ], a.same_gprs) in
      difftest_step-compares c c.pc_done d n s
      ∙ rw (ref_step-exec c c.pc_done d a.no_interrupt, e, good) refl

  pub watch-none : (h : Host D R) → h.watchpoints.head ≡ none → watch w h ≡ done h
  unfolding watch check_diff check_loop
  watch-none h e = rw (e, check_loop) refl

  trace_and_difftest-agrees :
      (h : Host D R)
      → h.difftest.pcs_to_skip ≡ []
      → h.difftest.csr_ctx_q ≡ []
      → (h.difftest.diff_npc ≡ 0) ⊎ (h.difftest.diff_npc ≡ (w.ref.regcpy_to_dut h.difftest.ref).pc)
      → h.watchpoints.head ≡ none
      → Agree h.top h.difftest.ref (w.ref.exec 1 h.difftest.ref)
      → trace_and_difftest w h ≡ done (record h { difftest = stepped h.difftest })
  unfolding trace_and_difftest
  trace_and_difftest-agrees h s q p e a =
      rw (difftest_step-agrees h.top h.difftest h.npc s q p a)
        (watch-none (record h { difftest = stepped h.difftest }) e)

  -- One instruction of both.
  abbrev pub moved : ℕ → Host D R → Host D R
  moved k h = record (passed w (suc k) h) {
    g_nr_guest_inst = u64 (h.g_nr_guest_inst + 1);
    difftest = stepped h.difftest;
  }

  abbrev pub counted : ℕ → Host D R → Host D R
  counted k h = record (passed w (suc k) h) { g_nr_guest_inst = u64 (h.g_nr_guest_inst + 1) }

  pub retire-calm :
      (k : ℕ) (h : Host D R)
      → Retires w k h.top
      → Calm w (suc k) h.top
      → retire w h ≡ done (counted k h)
  unfolding retire
  retire-calm k h r q = rw (exec_once-calm w k h r q) refl

  excute-moved :
      (n k : ℕ) (h : Host D R)
      → Retires w k h.top
      → Calm w (suc k) h.top
      → is_running h.npc.state ≡ true
      → trace_and_difftest w (counted k h) ≡ done (moved k h)
      → excute w (suc n) h ≡ excute w n (moved k h)
  unfolding excute
  excute-moved n k h r q run e = rw (retire-calm k h r q, ◌>>=◌, run, e) refl

  module _ (Rel : ℕ → D → R → Type 0) (lockstep : Lockstep Rel) where
    moved-Synced :
        (m k : ℕ) (h : Host D R)
        → Synced Rel (suc m) h
        → Rel m (after (next w) (suc k) h.top) (w.ref.exec 1 h.difftest.ref)
        → Synced Rel m (moved k h)
    moved-Synced m k h s l = record {
      related = l;
      no_skips = s.no_skips;
      no_contexts = s.no_contexts;
      at_pc = inr refl;
      no_watchpoints = s.no_watchpoints;
    }

    -- A run of as many instructions as both have, for what does the next one, and then the rest.
    pub run-moves :
        (run_of : ℕ → Host D R → Outcome (Host D R))
        → ((n k : ℕ) (h : Host D R)
            → Retires w k h.top
            → Calm w (suc k) h.top
            → is_running h.npc.state ≡ true
            → trace_and_difftest w (counted k h) ≡ done (moved k h)
            → run_of (suc n) h ≡ run_of n (moved k h))
        → (n m : ℕ) (h : Host D R) → Synced Rel (n + m) h
        → is_running h.npc.state ≡ true
        → (t : Host D R) × (run_of n h ≡ run_of 0 t)
          × Synced Rel m t
          × (t.npc ≡ h.npc)
          × (t.lightsss ≡ h.lightsss)
          × (u64 t.g_nr_guest_inst ≡ u64 (h.g_nr_guest_inst + n))
          × (AtPc h → AtPc t)
    run-moves run_of one zero m h s run =
        (h, refl, subst (λ k. Synced Rel k h) (omega arith) s, refl, refl, omega arith, λ p. p)
    run-moves run_of one (suc n) m h s run =
        let s1 : Synced Rel (suc (n + m)) h = subst (λ k. Synced Rel k h) (omega arith) s in
        let (k, r, q, a, l) = lockstep.steps (n + m) h.top h.difftest.ref s1.related in
        let traced =
          trace_and_difftest-agrees (counted k h) s1.no_skips s1.no_contexts s1.at_pc
            s1.no_watchpoints a in
        let (t, e, t_synced, same, snaps, counts, at) =
          run-moves run_of one n m (moved k h) (moved-Synced (n + m) k h s1 l) run in
        (
          t,
          one n k h r q run traced ∙ e,
          t_synced,
          same,
          snaps,
          omega (arith, counts),
          λ p. at refl,
        )

    -- `excute` of as many instructions as both have, and more.
    pub excute-moves :
        (n m : ℕ) (h : Host D R)
        → Synced Rel (n + m) h
        → is_running h.npc.state ≡ true
        → (rest : ℕ)
        → (t : Host D R) × (excute w (n + rest) h ≡ excute w rest t)
          × Synced Rel m t
          × (t.npc ≡ h.npc)
          × (t.lightsss ≡ h.lightsss)
          × (u64 t.g_nr_guest_inst ≡ u64 (h.g_nr_guest_inst + n))
          × (AtPc h → AtPc t)
    excute-moves n m h s run rest =
        let (t, e, t_synced, same, snaps, counts, at) =
          run-moves (λ j. excute w (j + rest))
            (λ j k g r q on f.
              ap (λ i. excute w i g) (omega arith) ∙ excute-moved (j + rest) k g r q on f)
            n m h s run in
        (t, e ∙ ap (λ i. excute w i t) (omega arith), t_synced, same, snaps, counts, at)
