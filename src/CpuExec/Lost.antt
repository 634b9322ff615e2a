-- ===== src/CpuExec/Lost.antt =====
-- What becomes of a difference between the core and the reference model.
use fpga_npc.Base.{ℕ, suc, ◌≡◌, refl, true, false, some, List, done, arith}
use fpga_npc.Npc.{NpcState, npc_stop, npc_abort, is_running}
use fpga_npc.Difftest.{Difftest, difftest_step}
use fpga_npc.Watchpoint.{update, check_diff}
use fpga_npc.Watchpoint.Invariant.{Holds}
use fpga_npc.Watchpoint.Changes.{Valued, first_changed, check_diff-first_changed}
use fpga_npc.CpuExec.{World, Host, expr_value, trigger, watch, trace_and_difftest, retire, excute}

module _ {D : Type 0} {R : Type 0} (w : World D R) where
  trigger-stops :
      (i : ℕ) (h : Host D R)
      → (h.watchpoints.wp_pool i).trigger_flag ≡ false
      → ((trigger i h).npc.state ≡ npc_stop) × ((trigger i h).difftest ≡ h.difftest)
  unfolding trigger
  trigger-stops i h g = (ground (arith, g), ground (arith, g))

  -- If the comparison with the reference model sets NPC_ABORT and, at the same instruction, the
  -- expressions of the watchpoints in use have values and the first changed watchpoint has no
  -- trigger flag, then the state after trace_and_difftest is NPC_STOP: the difference is lost.
  pub trace_and_difftest-lost :
      (h : Host D R) (used free : List ℕ) (d : Difftest R) (n : NpcState) (i : ℕ)
      (value_of : List ℕ → ℕ)
      → Holds h.watchpoints used free
      → Valued (expr_value (w.dut.core h.top)) value_of h.watchpoints.wp_pool used
      → let c = w.dut.core h.top in
        difftest_step w.skip w.ref c c.pc_done (h.difftest, h.npc) ≡ done (d, n)
        → n.state ≡ npc_abort
        → first_changed value_of h.watchpoints.wp_pool used ≡ some i
        → (h.watchpoints.wp_pool i).trigger_flag ≡ false
        → (t : Host D R) × (trace_and_difftest w h ≡ done t)
          × (t.npc.state ≡ npc_stop)
          × (t.difftest ≡ d)
  unfolding trace_and_difftest watch
  trace_and_difftest-lost h used free d n i value_of v values e a f g =
      let eval = expr_value (w.dut.core h.top) in
      let s = h.watchpoints in
      let now = record (s.wp_pool i) { value = value_of (s.wp_pool i).what } in
      let s' = record s { wp_pool = update s.wp_pool i now } in
      let k : check_diff eval s ≡ done (some (i, (s.wp_pool i).value), s') =
        rw f at (check_diff-first_changed eval value_of s used free v values) in
      let quiet : (s'.wp_pool i).trigger_flag ≡ false = ground (arith, g) in
      (
        trigger i (record h { watchpoints = s'; difftest = d; npc = n }),
        rw (e, k) refl,
        (trigger-stops i (record h { watchpoints = s'; difftest = d; npc = n }) quiet).0,
        (trigger-stops i (record h { watchpoints = s'; difftest = d; npc = n }) quiet).1,
      )

  -- If trace_and_difftest stops the simulation after an instruction and at least one more round is
  -- left, excute retires and counts one more instruction before it ends, when that one leaves the
  -- simulation stopped.
  excute-late :
      (n : ℕ) (h t u v : Host D R)
      → retire w h ≡ done t
      → is_running t.npc.state ≡ true
      → trace_and_difftest w t ≡ done u
      → retire w u ≡ done v
      → is_running v.npc.state ≡ false
      → excute w (suc (suc n)) h ≡ done v
  unfolding excute
  excute-late n h t u v a b c d e = ground arith
