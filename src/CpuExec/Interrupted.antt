-- ===== src/CpuExec/Interrupted.antt =====
-- What Ctrl-C in an instruction does to the comparison with the reference model.
use fpga_npc.Base.{
  ℕ, suc, ◌+◌, ◌-◌, ◌<◌, ◌≡◌, refl, ap, ◌∙◌, Bool, true, false, none, some, [], ◌==◌, done, ◌>>=◌,
  arith, u64,
}
use fpga_npc.Npc.{npc_running, npc_stop, npc_abort, is_running, is_over}
use fpga_npc.CpuExec.{
  World, Host, set_state, trace_and_difftest, excute, replay, conclude, cpu_exec,
}
use fpga_npc.CpuExec.Cycles.{after, next, Retires, Calm}
use fpga_npc.CpuExec.Lockstep.{Lockstep, Synced, AtPc, counted, moved, retire-calm, run-moves}
use fpga_npc.CpuExec.Differs.{pc_of, trace_and_difftest-differs}
use fpga_npc.CpuExec.Signals.{
  int_signal_handler_when_sdb, retire_signal, signal_loop, excute_signal, cpu_exec_signal,
}

module _ {D R : Type 0} (w : World D R) where
  -- No instruction of the reference model stays at its pc or is at 0.
  pub record Advances (Rel : ℕ → D → R → Type 0) : Type 0 where
    pub not_zero : (m : ℕ) (d : D) (r : R) → Rel (suc m) d r → (pc_of w r == 0) ≡ false
    pub moves :
        (m : ℕ) (d : D) (r : R) → Rel (suc m) d r → (pc_of w r == pc_of w (w.ref.exec 1 r)) ≡ false

  -- An instruction with the signal in it.
  abbrev stopped : ℕ → Host D R → Host D R
  stopped k h = record (counted w k h) { npc = set_state npc_stop h.npc }

  retire_signal-calm :
      (late : Bool) (k : ℕ) (h : Host D R)
      → Retires w k h.top
      → Calm w (suc k) h.top
      → retire_signal w late h ≡ done (stopped k h)
  unfolding retire_signal int_signal_handler_when_sdb
  retire_signal-calm true k h r q = rw (retire-calm w k h r q, ◌>>=◌) refl
  retire_signal-calm false k h r q =
      retire-calm w k (record h { npc = set_state npc_stop h.npc }) r q

  signal_loop-stops :
      (late : Bool) (n k : ℕ) (h : Host D R)
      → Retires w k h.top
      → Calm w (suc k) h.top
      → signal_loop w late 0 (suc n) h ≡ done (stopped k h)
  unfolding signal_loop
  signal_loop-stops late n k h r q = rw (retire_signal-calm late k h r q, ◌>>=◌) refl

  signal_loop-moved :
      (late : Bool) (i n k : ℕ) (h : Host D R)
      → Retires w k h.top
      → Calm w (suc k) h.top
      → is_running h.npc.state ≡ true
      → trace_and_difftest w (counted w k h) ≡ done (moved w k h)
      → signal_loop w late (suc i) (suc n) h ≡ signal_loop w late i n (moved w k h)
  unfolding signal_loop
  signal_loop-moved late i n k h r q run e = rw (retire-calm w k h r q, ◌>>=◌, run, e) refl

  module _ (Rel : ℕ → D → R → Type 0) (lockstep : Lockstep w Rel) (advances : Advances Rel) where
    -- One instruction behind: the model has not run the instruction with the signal.
    pub record Behind (m : ℕ) (h : Host D R) : Type 0 where
      pub related : Rel m h.top (w.ref.exec 1 h.difftest.ref)
      pub no_skips : h.difftest.pcs_to_skip ≡ []
      pub no_contexts : h.difftest.csr_ctx_q ≡ []
      pub no_watchpoints : h.watchpoints.head ≡ none
      pub not_zero : (h.difftest.diff_npc == 0) ≡ false
      pub old_pc : (h.difftest.diff_npc == pc_of w (w.ref.exec 1 h.difftest.ref)) ≡ false

    stopped-Behind :
        (m k : ℕ) (h : Host D R)
        → Synced w Rel (suc m) h
        → AtPc w h
        → Rel m (after (next w) (suc k) h.top) (w.ref.exec 1 h.difftest.ref)
        → Behind m (stopped k h)
    stopped-Behind m k h s at l = record {
      related = l;
      no_skips = s.no_skips;
      no_contexts = s.no_contexts;
      no_watchpoints = s.no_watchpoints;
      not_zero = ap (λ j. j == 0) at ∙ advances.not_zero m h.top h.difftest.ref s.related;
      old_pc =
          ap (λ j. j == pc_of w (w.ref.exec 1 h.difftest.ref)) at
          ∙ advances.moves m h.top h.difftest.ref s.related;
    }

    signal_loop-Behind :
        (late : Bool) (i m rest : ℕ) (h : Host D R)
        → Synced w Rel (i + suc m) h
        → AtPc w h
        → is_running h.npc.state ≡ true
        → (t : Host D R) × (signal_loop w late i (i + suc rest) h ≡ done t)
          × (t.npc.state ≡ npc_stop)
          × (u64 t.g_nr_guest_inst ≡ u64 (h.g_nr_guest_inst + i + 1))
          × Behind m t
    signal_loop-Behind late i m rest h s p run =
        let (t, e, t_synced, same, snaps, counts, at) =
          run-moves w Rel lockstep (λ j. signal_loop w late j (j + suc rest))
            (λ j k g r q on f.
              ap (λ n. signal_loop w late (suc j) n g) (omega arith)
              ∙ signal_loop-moved late j (j + suc rest) k g r q on f)
            i (suc m) h s run in
        let (k, r, q, a, l) = lockstep.steps m t.top t.difftest.ref t_synced.related in
        (
          stopped k t,
          e
              ∙ ap (λ n. signal_loop w late 0 n t) (omega arith)
              ∙ signal_loop-stops late rest k t r q,
          refl,
          omega (arith, counts),
          stopped-Behind m k t t_synced (at p) l,
        )

    -- The next instruction is compared with the one before.
    cpu_exec-Behind :
        (m : ℕ) (h : Host D R)
        → Behind (suc m) h
        → is_over h.npc.state ≡ false
        → (u : Host D R) × (cpu_exec w 1 h ≡ replay u) × (u.npc.state ≡ npc_abort)
    unfolding cpu_exec excute conclude
    cpu_exec-Behind m h b ready =
        let g = record h { npc = set_state npc_running h.npc } in
        let (k, r, q, a, l) = lockstep.steps m h.top (w.ref.exec 1 h.difftest.ref) b.related in
        let (u, e, abort) =
          trace_and_difftest-differs w (counted w k g) (w.ref.exec 1 h.difftest.ref) b.no_skips
            b.no_contexts b.no_watchpoints a b.not_zero b.old_pc in
        (u, rw (ready, retire-calm w k g r q, ◌>>=◌, e, abort) refl, abort)

    interrupted :
        (late : Bool) (h : Host D R) (i m n : ℕ)
        → is_over h.npc.state ≡ false
        → AtPc w h
        → i < n
        → Synced w Rel (i + suc (suc m)) h
        → (t : Host D R) × (cpu_exec_signal w (some (record { inst = i; late = late })) n h
            ≡ done t)
          × (t.npc.state ≡ npc_stop)
          × (u64 t.g_nr_guest_inst ≡ u64 (h.g_nr_guest_inst + i + 1))
          × Behind (suc m) t
    unfolding cpu_exec_signal excute_signal conclude
    interrupted late h i m n ready p lt s =
        let g = record h { npc = set_state npc_running h.npc } in
        let g_synced : Synced w Rel (i + suc (suc m)) g = record {
          related = s.related;
          no_skips = s.no_skips;
          no_contexts = s.no_contexts;
          at_pc = s.at_pc;
          no_watchpoints = s.no_watchpoints;
        } in
        let (t, e, stop, counts, behind) =
          signal_loop-Behind late i (suc m) (n - i - 1) g g_synced p refl in
        let run : signal_loop w late i n g ≡ done t =
          ap (λ j. signal_loop w late i j g) (omega (arith, lt)) ∙ e in
        (t, rw (ready, run, ◌>>=◌, stop) refl, stop, counts, behind)

-- For a core in lockstep with a reference model whose instructions all change the pc, which is not
-- 0, with no watchpoints, no instructions to be skipped and no saved CSRs, from a state that is not
-- over and in which an instruction has been compared: if Ctrl-C comes in instruction number i of
-- cpu_exec n, i < n, with at least two instructions left from there, then cpu_exec n ends in
-- NPC_STOP with i + 1 instructions counted, the reference model is one instruction behind the core,
-- and cpu_exec 1 then sets NPC_ABORT and goes on to the snapshots, although core and model agree.
-- In lockstep, each of these instructions of the core retires within 19999 cycles at the model's
-- pc, without a flush for an interrupt, and leaves the 31 registers that the model's instruction
-- leaves; in its cycles the core calls only ebreak with other instructions, and update_csr.
pub cpu_exec-interrupted :
    {D : Type 0} {R : Type 0} (w : World D R) (Rel : ℕ → D → R → Type 0) (h : Host D R)
    (late : Bool) (i m n : ℕ)
    → Lockstep w Rel
    → Advances w Rel
    → is_over h.npc.state ≡ false
    → AtPc w h
    → i < n
    → Synced w Rel (i + suc (suc m)) h
    → (t : Host D R) × (cpu_exec_signal w (some (record { inst = i; late = late })) n h ≡ done t)
      × (t.npc.state ≡ npc_stop)
      × (u64 t.g_nr_guest_inst ≡ u64 (h.g_nr_guest_inst + i + 1))
      × Rel (suc m) t.top (w.ref.exec 1 t.difftest.ref)
      × (u : Host D R) × (cpu_exec w 1 t ≡ replay u)
      × (u.npc.state ≡ npc_abort)
cpu_exec-interrupted w Rel h late i m n lockstep advances ready p lt s =
    let (t, e, stop, counts, behind) =
      interrupted w Rel lockstep advances late h i m n ready p lt s in
    let over : is_over t.npc.state ≡ false = rw stop refl in
    let (u, f, abort) = cpu_exec-Behind w Rel lockstep advances m t behind over in
    (t, e, stop, counts, behind.related, u, f, abort)
