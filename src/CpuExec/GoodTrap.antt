-- ===== src/CpuExec/GoodTrap.antt =====
-- Whole runs of a core that keeps in step with the reference model, up to its `ebreak`.
use fpga_npc.Base.{ℕ, suc, ◌+◌, ◌-◌, ◌<◌, ◌≡◌, refl, ap, ◌∙◌, false, done, ◌>>=◌, arith, u64, subst}
use fpga_npc.Npc.{NpcState, npc_running, npc_stop, npc_end, is_running, is_over, is_exit_status_bad}
use fpga_npc.CpuExec.{World, Host, set_state, retire, excute, conclude, cpu_exec}
use fpga_npc.CpuExec.Calls.{EndsWell, EndsWell-is_exit_status_bad}
use fpga_npc.CpuExec.Trapping.{Traps, exec_once-Traps}
use fpga_npc.CpuExec.Lockstep.{Lockstep, Synced, excute-moves}

module _ {D R : Type 0} (w : World D R) where
  excute-trap :
      (n : ℕ) (h : Host D R)
      → Traps w h.top
      → (t : Host D R) × (excute w (suc n) h ≡ done t)
        × EndsWell t.npc
        × (t.g_nr_guest_inst ≡ u64 (h.g_nr_guest_inst + 1))
  unfolding excute retire
  excute-trap n h trap =
      let (t, e, over, insts) = exec_once-Traps w h trap in
      let stopped : is_running t.npc.state ≡ false = rw over.over refl in
      (
        record t { g_nr_guest_inst = u64 (t.g_nr_guest_inst + 1) },
        rw (e, ◌>>=◌, stopped) refl,
        over,
        ap (λ i. u64 (i + 1)) insts,
      )

  conclude-good : (t : Host D R) → EndsWell t.npc → conclude t.npc.state t ≡ done t
  unfolding conclude
  conclude-good t e = rw (e.over, conclude, e.good) refl

  module _ (Rel : ℕ → D → R → Type 0) (lockstep : Lockstep w Rel) (h : Host D R)
      (ready_to_run : is_over h.npc.state ≡ false) where
    abbrev started : Host D R
    started = record h { npc = set_state npc_running h.npc }

    started-Synced : (m : ℕ) → Synced w Rel m h → Synced w Rel m started
    started-Synced m s = record {
      related = s.related;
      no_skips = s.no_skips;
      no_contexts = s.no_contexts;
      at_pc = s.at_pc;
      no_watchpoints = s.no_watchpoints;
    }

    cpu_exec-concludes :
        (n : ℕ) (t u : Host D R)
        → excute w n started ≡ done t
        → conclude t.npc.state t ≡ done u
        → cpu_exec w n h ≡ done u
    unfolding cpu_exec
    cpu_exec-concludes n t u e f = rw (ready_to_run, e, ◌>>=◌) f

    stops :
        (n m : ℕ)
        → Synced w Rel (n + m) h
        → (t : Host D R) × (cpu_exec w n h ≡ done t)
          × (t.npc.state ≡ npc_stop)
          × (u64 t.g_nr_guest_inst ≡ u64 (h.g_nr_guest_inst + n))
          × Synced w Rel m t
    unfolding excute conclude
    stops n m s =
        let (t, e, s1, same, snaps, counts, at) =
          excute-moves w Rel lockstep n m started (started-Synced (n + m) s) refl 0 in
        let running : t.npc.state ≡ npc_running = ap (λ (n : NpcState). n.state) same in
        let done_n : excute w n started ≡ done t = ap (λ j. excute w j started) (omega arith) ∙ e in
        let u = record t { npc = set_state npc_stop t.npc } in
        (
          u,
          cpu_exec-concludes n t u done_n (rw (running, conclude) refl),
          refl,
          counts,
          record {
            related = s1.related;
            no_skips = s1.no_skips;
            no_contexts = s1.no_contexts;
            at_pc = s1.at_pc;
            no_watchpoints = s1.no_watchpoints;
          },
        )

    ends :
        (n m : ℕ)
        → m < n
        → Synced w Rel m h
        → (t : Host D R) × (cpu_exec w n h ≡ done t)
          × (t.npc.state ≡ npc_end)
          × (is_exit_status_bad t.npc ≡ false)
          × (u64 t.g_nr_guest_inst ≡ u64 (h.g_nr_guest_inst + m + 1))
    ends n m l s =
        let s0 : Synced w Rel (m + 0) started =
          subst (λ k. Synced w Rel k started) (omega arith) (started-Synced m s) in
        let (t, e, s1, same, snaps, counts, at) =
          excute-moves w Rel lockstep m 0 started s0 refl (n - m) in
        let trap = lockstep.traps t.top t.difftest.ref s1.related in
        let (u, f, over, insts) = excute-trap (n - m - 1) t trap in
        let done_n : excute w n started ≡ done u =
          ap (λ j. excute w j started) (omega arith)
          ∙ e
          ∙ ap (λ j. excute w j t) (omega arith)
          ∙ f in
        (
          u,
          cpu_exec-concludes n u u done_n (conclude-good u over),
          over.over,
          EndsWell-is_exit_status_bad u.npc over,
          omega (arith, insts, counts),
        )

-- From a state that is not over, for a core in lockstep with the reference model for n instructions
-- and m more, with no watchpoints, no instructions to be skipped, no saved CSRs, and 0 or the
-- model's pc as the next pc to compare, cpu_exec n ends in NPC_STOP, has counted n instructions,
-- and leaves core and model m instructions before the one that traps, as far in step as before: the
-- comparison reports nothing. In lockstep, each of these instructions of the core retires within
-- 19999 cycles at the model's pc, without a flush for an interrupt, and leaves the 31 registers
-- that the model's instruction leaves; in its cycles the core calls only ebreak with other
-- instructions, and update_csr.
pub cpu_exec-lockstep :
    {D : Type 0} {R : Type 0} (w : World D R) (Rel : ℕ → D → R → Type 0) (h : Host D R) (n m : ℕ)
    → Lockstep w Rel
    → is_over h.npc.state ≡ false
    → Synced w Rel (n + m) h
    → (t : Host D R) × (cpu_exec w n h ≡ done t)
      × (t.npc.state ≡ npc_stop)
      × (u64 t.g_nr_guest_inst ≡ u64 (h.g_nr_guest_inst + n))
      × Synced w Rel m t
cpu_exec-lockstep w Rel h n m lockstep r s = stops w Rel lockstep h r n m s

-- From a state that is not over, for a core in lockstep with the reference model, m < n
-- instructions before one that traps, with no watchpoints, no instructions to be skipped, no saved
-- CSRs, and 0 or the model's pc as the next pc to compare, cpu_exec n ends in NPC_END with a good
-- exit status, and has counted m + 1 instructions. In lockstep, each of these instructions of the
-- core retires within 19999 cycles at the model's pc, without a flush for an interrupt, and leaves
-- the 31 registers that the model's instruction leaves; in its cycles the core calls only ebreak
-- with other instructions, and update_csr. The one that traps retires as soon; in its cycles the
-- core calls ebreak with 0x100073 at least once, always with 0 in a0, and else only as before.
pub cpu_exec-good_trap :
    {D : Type 0} {R : Type 0} (w : World D R) (Rel : ℕ → D → R → Type 0) (h : Host D R) (n m : ℕ)
    → Lockstep w Rel
    → is_over h.npc.state ≡ false
    → m < n
    → Synced w Rel m h
    → (t : Host D R) × (cpu_exec w n h ≡ done t)
      × (t.npc.state ≡ npc_end)
      × (is_exit_status_bad t.npc ≡ false)
      × (u64 t.g_nr_guest_inst ≡ u64 (h.g_nr_guest_inst + m + 1))
cpu_exec-good_trap w Rel h n m lockstep r l s = ends w Rel lockstep h r n m l s
