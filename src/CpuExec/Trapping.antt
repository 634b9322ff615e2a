-- ===== src/CpuExec/Trapping.antt =====
-- The instruction in whose cycles the core calls `ebreak` with the instruction `ebreak`. The decoder
-- makes this call, so that it may come in front of the end of an earlier instruction, and more than
-- once.
use fpga_npc.Base.{
  ℕ, zero, suc, ◌<◌, ◌≡◌, ◌⊎◌, inl, inr, refl, ap, sym, subst, ◌∙◌, true, false, ◌==◌, done, ◌>>=◌,
  arith,
}
use fpga_npc.CpuExec.{World, Host, clock, exec_loop, exec_once}
use fpga_npc.CpuExec.Calls.{AllGood, HasTrap, EndsWell, handle_all-good}
use fpga_npc.CpuExec.Cycles.{after, next, ready, passed, Retires}

module _ {D R : Type 0} (w : World D R) where
  -- The core retires an instruction in its next cycle number `cycles + 1`. In the cycles up to there
  -- it calls `ebreak` with that instruction only when a0 is 0, and at least once, and makes no other
  -- call that does something in the host.
  pub record Traps (d : D) : Type 0 where
    pub cycles : ℕ
    pub retires : Retires w cycles d
    pub calls : (j : ℕ) → j < suc cycles → AllGood (w.dut.cycle (after (next w) j d)).0
    pub trap_in : ℕ
    pub in_cycles : trap_in < suc cycles
    pub trap : HasTrap (w.dut.cycle (after (next w) trap_in d)).0

  -- The good state is there, or one of the next `k` cycles brings it.
  abbrev Comes : ℕ → Host D R → Type 0
  Comes k h =
      EndsWell h.npc ⊎ ((i : ℕ) × (i < k) × HasTrap (w.dut.cycle (after (next w) i h.top)).0)

  clock-good :
      (k : ℕ) (h : Host D R)
      → AllGood (w.dut.cycle h.top).0
      → Comes (suc k) h
      → (t : Host D R) × (clock w h ≡ done t)
        × (t.top ≡ next w h.top)
        × (t.g_nr_guest_inst ≡ h.g_nr_guest_inst)
        × Comes k t
  unfolding clock
  clock-good k h a c =
      let (n, e, ends) =
        handle_all-good (w.dut.cycle h.top).0 (record h { top = next w h.top }) a in
      (
        record (passed w 1 h) { npc = n },
        rw e refl,
        refl,
        refl,
        elim c [
          | inl over ↦ inl (ends (inl over))
          | inr (zero, l, trap) ↦ inl (ends (inr trap))
          | inr (suc i, l, trap) ↦ inr (i, omega arith, trap)
        ],
      )

  exec_loop-Traps :
      (k counter : ℕ) (h : Host D R)
      → k < counter
      → ((j : ℕ) → j < suc k → AllGood (w.dut.cycle (after (next w) j h.top)).0)
      → ((j : ℕ) → j < k → ready w (after (next w) (suc j) h.top) ≡ false)
      → ready w (after (next w) (suc k) h.top) ≡ true
      → Comes (suc k) h
      → (t : Host D R) × (exec_loop w (suc counter) h ≡ done t)
        × EndsWell t.npc
        × (t.g_nr_guest_inst ≡ h.g_nr_guest_inst)
  unfolding exec_loop
  exec_loop-Traps zero counter h l calls n y c =
      let (t, e, same, counts, came) = clock-good 0 h (calls 0 (omega arith)) c in
      let z : (counter == 0) ≡ false = ground arith in
      let done_now : ready w t.top ≡ true = ap (ready w) same ∙ y in
      (
        t,
        rw (e, ◌>>=◌, z, done_now) refl,
        elim came [ inl over ↦ over | inr (i, less, trap) ↦ absurd (omega arith) ],
        counts,
      )
  exec_loop-Traps (suc k) zero h l calls n y c = absurd (omega arith)
  exec_loop-Traps (suc k) (suc counter) h l calls n y c =
      let (t, e, same, counts, came) = clock-good (suc k) h (calls 0 (omega arith)) c in
      let z : (suc counter == 0) ≡ false = ground arith in
      let waits : ready w t.top ≡ false = ap (ready w) same ∙ n 0 (omega arith) in
      let (u, f, over, insts) =
        exec_loop-Traps k counter t (omega arith)
          (λ j i.
            subst (λ d. AllGood (w.dut.cycle (after (next w) j d)).0) (sym same)
              (calls (suc j) (omega arith)))
          (λ j i. ap (λ d. ready w (after (next w) (suc j) d)) same ∙ n (suc j) (omega arith))
          (ap (λ d. ready w (after (next w) (suc k) d)) same ∙ y) came in
      (u, rw (e, ◌>>=◌, z, waits) f, over, insts ∙ counts)

  pub exec_once-Traps :
      (h : Host D R)
      → Traps h.top
      → (t : Host D R) × (exec_once w h ≡ done t)
        × EndsWell t.npc
        × (t.g_nr_guest_inst ≡ h.g_nr_guest_inst)
  unfolding exec_once
  exec_once-Traps h trap =
      let r = trap.retires in
      exec_loop-Traps trap.cycles 19999 h (omega (arith, r.in_time)) trap.calls r.not_before
        r.retires (inr (trap.trap_in, trap.in_cycles, trap.trap))
