-- ===== src/CpuExec/Kept.antt =====
-- What every cycle of the host keeps, and that it ends.
use fpga_npc.Base.{
  ℕ, zero, suc, ◌≡◌, false, Option, List, [], ◌∷◌, ◌==◌, Ends, bind-Ends, arith, Bool-cases, inl,
  inr,
}
use fpga_npc.Reg.{Cpu}
use fpga_npc.Npc.{Core, ebreak}
use fpga_npc.Difftest.{difftest_skip_ref, diff_raise_intr, update_csr}
use fpga_npc.Expr.Entry.{expr}
use fpga_npc.Watchpoint.{Wp, Watchpoints, update}
use fpga_npc.Watchpoint.Chains.{Links}
use fpga_npc.Watchpoint.Invariant.{Holds}
use fpga_npc.CpuExec.{
  World, Host, DpiCall, calls_ebreak, calls_diff_skip, calls_raise_intr, calls_update_csr, handle,
  handle_all, clock, exec_loop, exec_once,
}
use fpga_npc.Difftest.Ends.{ebreak-Ends}

Links-next :
    (g h : ℕ → Wp) (p : Option ℕ) (xs : List ℕ)
    → ((a : ℕ) → (h a).next ≡ (g a).next)
    → Links g p xs
    → Links h p xs
Links-next g h p [] same l = l
Links-next g h p (x ∷ xs) same l = (l.0, rw (same x) (Links-next g h (g x).next xs same l.1))

-- Writing the value or the flag of a cell keeps the invariant of the pool.
pub update-Holds :
    (s : Watchpoints) (used free : List ℕ) (i : ℕ) (w : Wp)
    → Holds s used free
    → w.no ≡ (s.wp_pool i).no
    → w.next ≡ (s.wp_pool i).next
    → Holds (record s { wp_pool = update s.wp_pool i w }) used free
update-Holds s used free i w h number link =
    let pool = update s.wp_pool i w in
    let same : (a : ℕ) → (pool a).next ≡ (s.wp_pool a).next = λ a. ground (arith, link) in
    record {
      used_listed = Links-next s.wp_pool pool s.head used same h.used_listed;
      free_listed = Links-next s.wp_pool pool s.free_ free same h.free_listed;
      used_within = h.used_within;
      free_within = h.free_within;
      apart = h.apart;
      numbered = λ a l. ground (arith, number, h.numbered a l);
    }

-- A text whose evaluation does not run out of the depth of its calls, whatever the registers hold.
abbrev pub Evaluates : List ℕ → Type 0
Evaluates args = (r : Cpu) → Ends (λ _. Unit) (expr r args false)

-- All cells have such expressions.
abbrev pub AllEvaluate : Watchpoints → Type 0
AllEvaluate s = (a : ℕ) → Evaluates (s.wp_pool a).what

-- A write to a cell that keeps the text.
pub update-AllEvaluate :
    (s : Watchpoints) (i : ℕ) (x : Wp)
    → Evaluates x.what
    → AllEvaluate s
    → AllEvaluate (record s { wp_pool = update s.wp_pool i x })
update-AllEvaluate s i x e all a = elim (Bool-cases (a == i)) [
  | inl y ↦ rw y e
  | inr n ↦ rw n (all a)
]

module _ {D R : Type 0} (w : World D R) (used free : List ℕ) (insts : ℕ) where
  -- The lists of watchpoints are in order, their expressions evaluate, and no CSR context waits for a comparison, and
  -- `insts` instructions were counted.
  pub record Kept (h : Host D R) : Type 0 where
    pub wps_hold : Holds h.watchpoints used free
    pub evaluates : AllEvaluate h.watchpoints
    pub no_contexts : h.difftest.csr_ctx_q ≡ []
    pub counted : h.g_nr_guest_inst ≡ insts

  module _ (h : Host D R) (k : Kept h) where
    handle-Kept : (c : Core) (call : DpiCall) → Ends Kept (handle c call h)
    unfolding handle difftest_skip_ref diff_raise_intr update_csr
    handle-Kept c (calls_ebreak inst) =
        bind-Ends (λ _. Unit) Kept (ebreak inst c h.npc) _ (ebreak-Ends inst c h.npc)
          (λ n u. record {
            wps_hold = k.wps_hold;
            evaluates = k.evaluates;
            no_contexts = k.no_contexts;
            counted = k.counted;
          })
    handle-Kept c (calls_diff_skip pc) = record {
      wps_hold = k.wps_hold;
      evaluates = k.evaluates;
      no_contexts = k.no_contexts;
      counted = k.counted;
    }
    handle-Kept c (calls_raise_intr cause_no) = record {
      wps_hold = k.wps_hold;
      evaluates = k.evaluates;
      no_contexts = k.no_contexts;
      counted = k.counted;
    }
    handle-Kept c (calls_update_csr pc) = record {
      wps_hold = k.wps_hold;
      evaluates = k.evaluates;
      no_contexts = k.no_contexts;
      counted = k.counted;
    }

  handle_all-Kept :
      (calls : List (Core × DpiCall)) (h : Host D R) → Kept h → Ends Kept (handle_all calls h)
  unfolding handle_all
  handle_all-Kept [] h k = k
  handle_all-Kept ((c, call) ∷ calls) h k =
      bind-Ends Kept Kept (handle c call h) _ (handle-Kept h k c call)
        (λ t l. handle_all-Kept calls t l)

  clock-Kept : (h : Host D R) → Kept h → Ends Kept (clock w h)
  unfolding clock
  clock-Kept h k =
      bind-Ends Kept Kept
        (handle_all (w.dut.cycle h.top).0 (record h { top = (w.dut.cycle h.top).1 })) _
        (handle_all-Kept (w.dut.cycle h.top).0 (record h { top = (w.dut.cycle h.top).1 })
          (record {
            wps_hold = k.wps_hold;
            evaluates = k.evaluates;
            no_contexts = k.no_contexts;
            counted = k.counted;
          }))
        (λ t l. record {
          wps_hold = l.wps_hold;
          evaluates = l.evaluates;
          no_contexts = l.no_contexts;
          counted = l.counted;
        })

  exec_loop-Kept : (counter : ℕ) (h : Host D R) → Kept h → Ends Kept (exec_loop w (suc counter) h)
  unfolding exec_loop
  exec_loop-Kept zero h k = bind-Ends Kept Kept (clock w h) _ (clock-Kept h k) (λ t l. record {
    wps_hold = l.wps_hold;
    evaluates = l.evaluates;
    no_contexts = l.no_contexts;
    counted = l.counted;
  })
  exec_loop-Kept (suc counter) h k = bind-Ends Kept Kept (clock w h) _ (clock-Kept h k) (λ t l.
      let z : (suc counter == 0) ≡ false = ground arith in
      rw z (elim (Bool-cases (w.dut.core t.top).is_done) [
        | inl y ↦ rw y l
        | inr n ↦ rw n (exec_loop-Kept counter t l)
      ]))

  pub exec_once-Kept : (h : Host D R) → Kept h → Ends Kept (exec_once w h)
  unfolding exec_once
  exec_once-Kept h k = exec_loop-Kept 19999 h k
