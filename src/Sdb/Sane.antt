-- ===== src/Sdb/Sane.antt =====
-- The invariant of a session, and which parts of the commands keep it.
use fpga_npc.Base.{
  ℕ, ◌+◌, ◌^◌, ◌<◌, ◌≡◌, ◌≢◌, ap, ◌∙◌, true, false, ◌==◌, ltb, arith, Bool-cases, Option, none,
  some, List, [], ◌∷◌, Ends, bind-Ends, inl, inr,
}
use fpga_npc.Reg.{Cpu, gpr, display_loop, reg_display}
use fpga_npc.Expr.Lexer.{make_token, token_loop}
use fpga_npc.Expr.Eval.{paren_loop, check_parentheses, eval}
use fpga_npc.Expr.Entry.{eval_tokens, expr}
use fpga_npc.Npc.{is_running}
use fpga_npc.Watchpoint.{Watchpoints, new_wp, free_wp}
use fpga_npc.Watchpoint.Chains.{has, insert}
use fpga_npc.Watchpoint.Find.{remove}
use fpga_npc.Watchpoint.Invariant.{Holds, new_wp-Holds, new_wp-full}
use fpga_npc.Watchpoint.Release.{
  Cleared, free_wp-Holds, free_wp-leak, free_wp-unused, free_wp_above,
}
use fpga_npc.Elf.{FtraceNode, Tracer}
use fpga_npc.Elf.Trace.{show_ftrace}
use fpga_npc.CpuExec.{Host}
use fpga_npc.Difftest.Ends.{gpr-Ends}
use fpga_npc.CpuExec.Kept.{Evaluates, AllEvaluate}

-- A pool whose two lists are in order, with expressions that evaluate.
abbrev pub Listed : Watchpoints → Type 0
Listed s = (used : List ℕ) × (free : List ℕ) × Holds s used free × AllEvaluate s

-- What holds between two commands.
pub record Sane {D R : Type 0} (h : Host D R) : Type 0 where
  pub listed : Listed h.watchpoints
  pub no_contexts : h.difftest.csr_ctx_q ≡ []
  pub counted : h.g_nr_guest_inst < 2 ^ 64
  pub stopped : is_running h.npc.state ≡ false

nothing-Evaluates : Evaluates []
unfolding expr make_token token_loop eval_tokens check_parentheses paren_loop eval
nothing-Evaluates r = tt

-- A pool whose cells have the texts of another one, but for one that has none.
Cleared-AllEvaluate : (n : ℕ) (s t : Watchpoints) → Cleared n s t → AllEvaluate s → AllEvaluate t
Cleared-AllEvaluate n s t (what, value, flag, others) all a = elim (Bool-cases (a == n)) [
  | inl y ↦
      let e : a ≡ n = ground arith in rw (ap (λ i. (t.wp_pool i).what) e ∙ what) nothing-Evaluates
  | inr m ↦ let differs : a ≢ n = ground (arith, m) in rw (others a differs).1 (all a)
]

freed-Listed :
    (n : ℕ) (s : Watchpoints) (used free : List ℕ)
    → Holds s used free
    → AllEvaluate s
    → has n used ≡ true
    → Ends Listed (free_wp n s)
freed-Listed n s used [] h all m =
    let (t, e, held, c) = free_wp-leak n s used h m in
    rw e (remove n used, [], held, Cleared-AllEvaluate n s t c all)
freed-Listed n s used (f ∷ rest) h all m =
    let (t, e, held, c) = free_wp-Holds n s used f rest h m in
    rw e (remove n used, insert n (f ∷ rest), held, Cleared-AllEvaluate n s t c all)

pub free_wp-Listed : (n : ℕ) (s : Watchpoints) → Listed s → Ends Listed (free_wp n s)
free_wp-Listed n s (used, free, h, all) = elim (Bool-cases (ltb 32 n)) [
  | inl big ↦ rw (free_wp_above n s (ground (arith, big))) (used, free, h, all)
  | inr small ↦ elim (Bool-cases (has n used)) [
    | inl m ↦ freed-Listed n s used free h all m
    | inr m ↦ rw (free_wp-unused n s used free h m (ground (arith, small))) tt
  ]
]

pub new_wp-Listed : (s : Watchpoints) → Listed s → Ends (λ r. Listed r.1) (new_wp s)
new_wp-Listed s (used, [], h, all) = rw (new_wp-full s used h) (used, [], h, all)
new_wp-Listed s (used, n ∷ free, h, all) =
    let (t, held, takes) = new_wp-Holds s used n free h in
    rw takes.returns (insert n used, free, held, λ a. rw (takes.data_kept a).1 (all a))

display_loop-Ends :
    (r : Cpu) (i : ℕ) (names : List (List ℕ)) → Ends (λ _. Unit) (display_loop r i names)
unfolding display_loop
display_loop-Ends r i [] = tt
display_loop-Ends r i (name ∷ names) =
    bind-Ends (λ _. Unit) (λ _. Unit) (gpr r i) _ (gpr-Ends r i)
      (λ v u.
        bind-Ends (λ _. Unit) (λ _. Unit) (display_loop r (i + 1) names) _
          (display_loop-Ends r (i + 1) names) (λ _ _. tt))

pub reg_display-Ends : (r : Cpu) → Ends (λ _. Unit) (reg_display r)
unfolding reg_display
reg_display-Ends r = display_loop-Ends r 1 _

pub show_nodes-Ends :
    (t : Tracer) (nodes : Option (List FtraceNode))
    → t.nodes ≡ nodes
    → Ends (λ _. Unit) (show_ftrace t)
unfolding show_ftrace
show_nodes-Ends t none e = rw (e, show_ftrace) tt
show_nodes-Ends t (some []) e = rw (e, show_ftrace) tt
show_nodes-Ends t (some (p ∷ ps)) e = rw (e, show_ftrace) tt
