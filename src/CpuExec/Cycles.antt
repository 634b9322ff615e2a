-- ===== src/CpuExec/Cycles.antt =====
-- How many clock cycles `exec_once` takes on a core whose calls leave the host alone.
use fpga_npc.Base.{
  ℕ, zero, suc, ◌+◌, ◌-◌, ◌<◌, ◌≡◌, refl, ap, sym, subst, ◌∙◌, Bool, true, false, [], ◌==◌, Outcome,
  done, arith, u64,
}
use fpga_npc.Npc.{npc_abort}
use fpga_npc.CpuExec.Calls.{AllHarmless, handle_all-harmless}
use fpga_npc.CpuExec.{World, Host, set_state, clock, exec_loop, exec_once}

-- The core after some cycles.
abbrev pub after : {D : Type 0} → (D → D) → ℕ → D → D
after next zero d = d
after next (suc n) d = after next n (next d)

module _ {D R : Type 0} (w : World D R) where
  abbrev pub next : D → D
  next d = (w.dut.cycle d).1

  abbrev pub ready : D → Bool
  ready d = (w.dut.core d).is_done

  -- The host after some cycles.
  abbrev pub passed : ℕ → Host D R → Host D R
  passed k h = record h { g_nr_cycle = u64 (h.g_nr_cycle + k); top = after next k h.top }

  -- The same, cycle by cycle; the count wraps at each.
  abbrev pub passes : ℕ → Host D R → Host D R
  passes zero h = h
  passes (suc k) h = passes k (passed 1 h)

  -- The core retires an instruction in its next cycle number `k + 1`, in time and not before.
  pub record Retires (k : ℕ) (d : D) : Type 0 where
    pub in_time : suc k < 20000
    pub not_before : (j : ℕ) → j < k → ready (after next (suc j) d) ≡ false
    pub retires : ready (after next (suc k) d) ≡ true

  -- The calls of the next `k` cycles leave the host alone.
  abbrev pub Calm : ℕ → D → Type 0
  Calm k d = (j : ℕ) → j < k → AllHarmless (w.dut.cycle (after next j d)).0

  clock-calm : (h : Host D R) → AllHarmless (w.dut.cycle h.top).0 → clock w h ≡ done (passed 1 h)
  unfolding clock
  clock-calm h q =
      rw (handle_all-harmless (w.dut.cycle h.top).0 (record h { top = next h.top }) q) refl

  passed-suc : (k : ℕ) (h : Host D R) → passed k (passed 1 h) ≡ passed (suc k) h
  passed-suc k h =
      ap (λ c. record h { g_nr_cycle = c; top = after next k (next h.top) }) (omega arith)

  -- A cycle that retires nothing and leaves the host alone.
  exec_loop-waits :
      (counter : ℕ) (h : Host D R)
      → AllHarmless (w.dut.cycle h.top).0
      → 0 < counter
      → ready (next h.top) ≡ false
      → exec_loop w (suc counter) h ≡ exec_loop w counter (passed 1 h)
  unfolding exec_loop
  exec_loop-waits counter h q p n =
      let z : (counter == 0) ≡ false = ground arith in rw (clock-calm h q, z, n) refl

  -- The cycle that retires, whatever it calls.
  exec_loop-retires :
      (counter : ℕ) (h t : Host D R)
      → clock w h ≡ done t
      → 0 < counter
      → ready t.top ≡ true
      → exec_loop w (suc counter) h ≡ done t
  unfolding exec_loop
  exec_loop-retires counter h t e p y =
      let z : (counter == 0) ≡ false = ground arith in rw (e, z, y) refl

  -- The cycles before the one that retires.
  exec_loop-until :
      (k counter : ℕ) (h : Host D R)
      → k < counter
      → Calm k h.top
      → ((j : ℕ) → j < k → ready (after next (suc j) h.top) ≡ false)
      → exec_loop w (suc counter) h ≡ exec_loop w (suc (counter - k)) (passes k h)
  exec_loop-until zero counter h l q n = ap (λ c. exec_loop w (suc c) h) (omega arith)
  exec_loop-until (suc k) zero h l q n = absurd (omega arith)
  exec_loop-until (suc k) (suc counter) h l q n =
      exec_loop-waits (suc counter) h (q 0 (omega arith)) (omega arith) (n 0 (omega arith))
      ∙ exec_loop-until k counter (passed 1 h) (omega arith) (λ j i. q (suc j) (omega arith))
          (λ j i. n (suc j) (omega arith))
      ∙ ap (λ c. exec_loop w (suc c) (passes k (passed 1 h))) (omega arith)

  exec_loop-dead :
      (counter : ℕ) (h : Host D R)
      → Calm (suc counter) h.top
      → ((j : ℕ) → j < counter → ready (after next (suc j) h.top) ≡ false)
      → exec_loop w (suc counter) h
        ≡ done (record (passed (suc counter) h) { npc = set_state npc_abort h.npc })
  unfolding exec_loop
  exec_loop-dead zero h q n = rw (clock-calm h (q 0 (omega arith))) refl
  exec_loop-dead (suc counter) h q n =
      let z : (suc counter == 0) ≡ false = ground arith in
      rw (clock-calm h (q 0 (omega arith)), z, n 0 (omega arith))
        (exec_loop-dead counter (passed 1 h) (λ j i. q (suc j) (omega arith))
            (λ j i. n (suc j) (omega arith))
          ∙ ap {A = Host D R} {B = Outcome (Host D R)}
              (λ t. done (record t { npc = set_state npc_abort h.npc }))
              (passed-suc (suc counter) h))

  -- The last of the cycles of an instruction decides what `exec_once` gives.
  pub exec_once-last :
      (k : ℕ) (h t : Host D R)
      → Retires k h.top
      → Calm k h.top
      → clock w (passes k h) ≡ done t
      → t.top ≡ after next (suc k) h.top
      → exec_once w h ≡ done t
  unfolding exec_once
  exec_once-last k h t r q e same =
      exec_loop-until k 19999 h (omega (arith, r.in_time)) q r.not_before
      ∙ exec_loop-retires (19999 - k) (passes k h) t e (omega (arith, r.in_time))
          (ap ready same ∙ r.retires)

  pub passed-passes : (k : ℕ) (h : Host D R) → passed 1 (passes k h) ≡ passed (suc k) h
  passed-passes zero h = refl
  passed-passes (suc k) h = passed-passes k (passed 1 h) ∙ passed-suc (suc k) h

  pub top-passes : (k : ℕ) (h : Host D R) → (passes k h).top ≡ after next k h.top
  top-passes zero h = refl
  top-passes (suc k) h = top-passes k (passed 1 h)

  -- An instruction in whose cycles the calls leave the host alone.
  pub exec_once-calm :
      (k : ℕ) (h : Host D R)
      → Retires k h.top
      → Calm (suc k) h.top
      → exec_once w h ≡ done (passed (suc k) h)
  exec_once-calm k h r q =
      exec_once-last k h (passed (suc k) h) r (λ j i. q j (omega arith))
        (clock-calm (passes k h)
            (subst (λ d. AllHarmless (w.dut.cycle d).0) (sym (top-passes k h)) (q k (omega arith)))
          ∙ ap done (passed-passes k h))
        refl

-- On a core that makes no calls and first retires an instruction in its next cycle number k + 1,
-- below 20000, exec_once takes k + 1 cycles and changes nothing but the core and the cycle count.
pub exec_once-done :
    {D : Type 0} {R : Type 0} (w : World D R)
    → ((d : D) → (w.dut.cycle d).0 ≡ [])
    → (k : ℕ) (h : Host D R) → suc k < 20000
    → ((j : ℕ)
        → j < k
        → (w.dut.core (after (λ d. (w.dut.cycle d).1) (suc j) h.top)).is_done ≡ false)
    → (w.dut.core (after (λ d. (w.dut.cycle d).1) (suc k) h.top)).is_done ≡ true
    → exec_once w h
      ≡ done (record h {
        g_nr_cycle = u64 (h.g_nr_cycle + suc k);
        top = after (λ d. (w.dut.cycle d).1) (suc k) h.top;
      })
exec_once-done w quiet k h l n y =
    exec_once-calm w k h (record { in_time = l; not_before = n; retires = y })
      (λ j i. subst AllHarmless (sym (quiet _)) tt)

-- On a core that in its next 20000 cycles calls only ebreak with other instructions than 0x100073,
-- and update_csr, and retires nothing in the first 19999 of them, exec_once ends after 20000 cycles
-- in the state NPC_ABORT, whatever the last cycle does, and changes nothing else but the core and
-- the cycle count.
pub exec_once-dead :
    {D : Type 0} {R : Type 0} (w : World D R) (h : Host D R)
    → ((j : ℕ) → j < 20000 → AllHarmless (w.dut.cycle (after (λ d. (w.dut.cycle d).1) j h.top)).0)
    → ((j : ℕ)
        → j < 19999
        → (w.dut.core (after (λ d. (w.dut.cycle d).1) (suc j) h.top)).is_done ≡ false)
    → exec_once w h
      ≡ done (record h {
        npc = set_state npc_abort h.npc;
        g_nr_cycle = u64 (h.g_nr_cycle + 20000);
        top = after (λ d. (w.dut.cycle d).1) 20000 h.top;
      })
unfolding exec_once
exec_once-dead w h calm n = exec_loop-dead w 19999 h calm n
