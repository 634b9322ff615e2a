-- ===== src/CpuExec/Watched.antt =====
-- What the comparison and the watchpoints behind an instruction keep, and that they end.
use fpga_npc.Base.{
  ℕ, ◌≡◌, refl, ap, sym, subst, ◌∙◌, false, not, Option, none, some, List, done, Ends, bind-Ends,
  Bool-cases, inl, inr,
}
use fpga_npc.Npc.{Core}
use fpga_npc.Difftest.{difftest_step}
use fpga_npc.Expr.Entry.{expr}
use fpga_npc.Watchpoint.{Watchpoints, update, check_diff}
use fpga_npc.Watchpoint.Changes.{Change, check_diff-Change}
use fpga_npc.CpuExec.{World, Host, expr_value, trigger, watch, trace_and_difftest}
use fpga_npc.Difftest.Ends.{NoContexts, difftest_step-NoContexts}
use fpga_npc.CpuExec.Kept.{Kept, Evaluates, update-Holds, update-AllEvaluate}

module _ {D R : Type 0} (w : World D R) (used free : List ℕ) (insts : ℕ) where
  trigger-Kept :
      (i : ℕ) (h : Host D R) → Kept w used free insts h → Kept w used free insts (trigger i h)
  unfolding trigger
  trigger-Kept i h k =
      let s = h.watchpoints in
      let flip = record (s.wp_pool i) { trigger_flag = not (s.wp_pool i).trigger_flag } in
      let held = update-Holds s used free i flip k.wps_hold refl refl in
      let all = update-AllEvaluate s i flip (k.evaluates i) k.evaluates in
      elim (Bool-cases (s.wp_pool i).trigger_flag) [
        | inl y ↦ rw y (record {
          wps_hold = rw y at held;
          evaluates = rw y at all;
          no_contexts = k.no_contexts;
          counted = k.counted;
        })
        | inr m ↦ rw m (record {
          wps_hold = rw m at held;
          evaluates = rw m at all;
          no_contexts = k.no_contexts;
          counted = k.counted;
        })
      ]

  value-Ends : (c : Core) (what : List ℕ) → Evaluates what → Ends (λ _. Unit) (expr_value c what)
  unfolding expr_value
  value-Ends c what e =
      bind-Ends (λ _. Unit) (λ _. Unit) (expr c.regs what false) _ (e c.regs) (λ v u. tt)

  -- A cell with a new value, and its flag.
  changed-Kept :
      (h : Host D R) (i now : ℕ)
      → Kept w used free insts h
      → let s = h.watchpoints in
        let cell = record (s.wp_pool i) { value = now } in
        Kept w used free insts
          (trigger i (record h { watchpoints = record s { wp_pool = update s.wp_pool i cell } }))
  changed-Kept h i now k =
      let s = h.watchpoints in
      let cell = record (s.wp_pool i) { value = now } in
      trigger-Kept i (record h { watchpoints = record s { wp_pool = update s.wp_pool i cell } })
        (record {
          wps_hold = update-Holds s used free i cell k.wps_hold refl refl;
          evaluates = update-AllEvaluate s i cell (k.evaluates i) k.evaluates;
          no_contexts = k.no_contexts;
          counted = k.counted;
        })

  found-Kept :
      (h : Host D R) (diff : Option (ℕ × ℕ)) (v : Watchpoints)
      → Kept w used free insts h
      → Change h.watchpoints.wp_pool (diff, v.wp_pool)
      → v ≡ record h.watchpoints { wp_pool = v.wp_pool }
      → Ends (Kept w used free insts) (elim diff [
        | none ↦ done (record h { watchpoints = v })
        | some (i, old_value) ↦ done (trigger i (record h { watchpoints = v }))
      ])
  found-Kept h diff v k (inl c) same =
      let s = h.watchpoints in
      let d : diff ≡ none = ap (λ x. x.0) c in
      let e : v ≡ s = same ∙ ap (λ x. record s { wp_pool = x.1 }) c in
      rw d (
        subst (λ u. Kept w used free insts (record h { watchpoints = u })) (sym e)
          (record {
            wps_hold = k.wps_hold;
            evaluates = k.evaluates;
            no_contexts = k.no_contexts;
            counted = k.counted;
          }))
  found-Kept h diff v k (inr (i, now, c)) same =
      let s = h.watchpoints in
      let d : diff ≡ some (i, (s.wp_pool i).value) = ap (λ x. x.0) c in
      let e : v ≡ record s { wp_pool = update s.wp_pool i (record (s.wp_pool i) { value = now }) } =
        same ∙ ap (λ x. record s { wp_pool = x.1 }) c in
      rw d (
        subst (λ u. Kept w used free insts (trigger i (record h { watchpoints = u }))) (sym e)
          (changed-Kept h i now k))

  watch-Kept : (h : Host D R) → Kept w used free insts h → Ends (Kept w used free insts) (watch w h)
  unfolding watch
  watch-Kept h k =
      let c = w.dut.core h.top in
      bind-Ends _ (Kept w used free insts) (check_diff (expr_value c) h.watchpoints) _
        (check_diff-Change (expr_value c) h.watchpoints used free k.wps_hold
          (λ i. value-Ends c (h.watchpoints.wp_pool i).what (k.evaluates i)))
        (λ r p. found-Kept h r.0 r.1 k p.0 p.1)

  pub trace_and_difftest-Kept :
      (h : Host D R)
      → Kept w used free insts h
      → Ends (Kept w used free insts) (trace_and_difftest w h)
  unfolding trace_and_difftest
  trace_and_difftest-Kept h k =
      let c = w.dut.core h.top in
      bind-Ends NoContexts (Kept w used free insts)
        (difftest_step w.skip w.ref c c.pc_done (h.difftest, h.npc)) _
        (difftest_step-NoContexts w.skip w.ref c c.pc_done h.difftest h.npc k.no_contexts)
        (λ x l.
          watch-Kept (record h { difftest = x.0; npc = x.1 })
            (record {
              wps_hold = k.wps_hold;
              evaluates = k.evaluates;
              no_contexts = l;
              counted = k.counted;
            }))
