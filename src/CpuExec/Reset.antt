-- ===== src/CpuExec/Reset.antt =====
-- `reset` of csrc/cpu/cpu-exec.cpp. The pointers into the core that it sets are the signals that
-- `core` reads.
use fpga_npc.Base.{ℕ, zero, suc, Bool, true, false, Outcome, done, ◌>>=◌}
use fpga_npc.CpuExec.{World, Host, handle_all}

module _ {D R : Type 0} (w : World D R) where
  -- The loop: clock cycles that are not counted.
  unfoldable pub reset_loop : ℕ → Host D R → Outcome (Host D R)
  reset_loop zero h = done h
  reset_loop (suc n) h =
      let (calls, d) = w.dut.cycle h.top in
      (do t ← handle_all calls (record h { top = d }); reset_loop n t)

  -- `set_reset` writes the input `reset` of the core.
  unfoldable pub reset : (Bool → D → D) → ℕ → Host D R → Outcome (Host D R)
  reset set_reset n h = do
    t ← reset_loop n (record h { top = set_reset true h.top })
    done (record t { top = set_reset false t.top })
