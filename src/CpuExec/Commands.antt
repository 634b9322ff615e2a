-- ===== src/CpuExec/Commands.antt =====
-- What holds after `cpu_exec`.
use fpga_npc.Base.{
  ℕ, zero, suc, ◌+◌, ◌≤◌, ◌≡◌, refl, ap, ◌∙◌, true, false, List, [], ◌∷◌, ◌==◌, Ends, bind-Ends,
  map-Ends, arith, u64, Bool-cases, inl, inr, Option-cases,
}
use fpga_npc.Npc.{Running, npc_running, npc_stop, npc_end, npc_abort, npc_quit, is_running, is_over}
use fpga_npc.LightSss.{LightSss, is_child, kill_oldest, wakeup_child, clear_loop, do_clear, back}
use fpga_npc.CpuExec.{
  World, Host, set_state, exec_once, trace_and_difftest, retire, excute, replay, conclude, cpu_exec,
}
use fpga_npc.CpuExec.Kept.{Kept, exec_once-Kept}
use fpga_npc.CpuExec.Watched.{trace_and_difftest-Kept}

kill_oldest-Ends : (s : LightSss) → Ends (λ _. Unit) (kill_oldest s)
unfolding kill_oldest
kill_oldest-Ends s = elim (Option-cases (back s.pid_slot)) [
  | inl n ↦ rw (n, Ends) tt
  | inr (x, e) ↦ rw (e, Ends) tt
]

wakeup_child-Ends : (cycles : ℕ) (s : LightSss) → Ends (λ _. Unit) (wakeup_child cycles s)
unfolding wakeup_child
wakeup_child-Ends cycles s = elim (Option-cases (back s.pid_slot)) [
  | inl n ↦ rw (n, Ends) tt
  | inr (x, e) ↦ rw (e, Ends) tt
]

clear_loop-Ends : (rounds : List ℕ) (s : LightSss) → Ends (λ _. Unit) (clear_loop rounds s)
unfolding clear_loop
clear_loop-Ends [] s = tt
clear_loop-Ends (p ∷ rounds) s =
    bind-Ends (λ _. Unit) (λ _. Unit) (kill_oldest s) _ (kill_oldest-Ends s)
      (λ t u. clear_loop-Ends rounds t)

module _ {D R : Type 0} (w : World D R) (used free : List ℕ) where
  retire-Kept :
      (insts : ℕ) (h : Host D R)
      → Kept w used free insts h
      → Ends (Kept w used free (u64 (insts + 1))) (retire w h)
  unfolding retire
  retire-Kept insts h k =
      bind-Ends (Kept w used free insts) (Kept w used free (u64 (insts + 1))) (exec_once w h) _
        (exec_once-Kept w used free insts h k)
        (λ t l. record {
          wps_hold = l.wps_hold;
          evaluates = l.evaluates;
          no_contexts = l.no_contexts;
          counted = ap (λ i. u64 (i + 1)) l.counted;
        })

  -- After at most `n` more instructions.
  abbrev pub WithinInsts : ℕ → ℕ → Host D R → Type 0
  WithinInsts n insts t = (k : ℕ) × (k ≤ n) × Kept w used free (u64 (insts + k)) t

  counted-Kept : (i j : ℕ) (h : Host D R) → i ≡ j → Kept w used free i h → Kept w used free j h
  counted-Kept i j h e k = record {
    wps_hold = k.wps_hold;
    evaluates = k.evaluates;
    no_contexts = k.no_contexts;
    counted = k.counted ∙ e;
  }

  one_more :
      (n insts : ℕ) (t : Host D R) → WithinInsts n (insts + 1) t → WithinInsts (suc n) insts t
  one_more n insts t (i, l, k) = (
    suc i,
    omega arith,
    counted-Kept (u64 (insts + 1 + i)) (u64 (insts + suc i)) t (omega arith) k,
  )

  retired :
      (n insts : ℕ) (t : Host D R)
      → Kept w used free (u64 (u64 insts + 1)) t
      → WithinInsts (suc n) insts t
  retired n insts t k =
      (1, omega arith, counted-Kept (u64 (u64 insts + 1)) (u64 (insts + 1)) t (omega arith) k)

  excute-Kept :
      (n insts : ℕ) (h : Host D R)
      → Kept w used free (u64 insts) h
      → Ends (WithinInsts n insts) (excute w n h)
  unfolding excute
  excute-Kept zero insts h k =
      (0, omega arith, counted-Kept (u64 insts) (u64 (insts + 0)) h (omega arith) k)
  excute-Kept (suc n) insts h k =
      bind-Ends (Kept w used free (u64 (u64 insts + 1))) (WithinInsts (suc n) insts) (retire w h) _
        (retire-Kept (u64 insts) h k)
        (λ t l. elim (Bool-cases (is_running t.npc.state)) [
          | inr over ↦ rw over (retired n insts t l)
          | inl runs ↦
              let i = u64 (insts + 1) in
              rw runs (
                bind-Ends (Kept w used free i) (WithinInsts (suc n) insts) (trace_and_difftest w t)
                  _
                  (trace_and_difftest-Kept w used free i t
                    (counted-Kept (u64 (u64 insts + 1)) i t (omega arith) l))
                  (λ u m.
                    map-Ends (WithinInsts n (insts + 1)) (WithinInsts (suc n) insts) (excute w n u)
                      (one_more n insts) (excute-Kept n (insts + 1) u m)))
        ])

  -- What holds of the host after a command.
  abbrev pub Stopped : ℕ → ℕ → Host D R → Type 0
  Stopped n insts t = (is_running t.npc.state ≡ false) × WithinInsts n insts t

  same_host :
      (n insts : ℕ) (h t : Host D R)
      → t.watchpoints ≡ h.watchpoints
      → t.difftest ≡ h.difftest
      → t.g_nr_guest_inst ≡ h.g_nr_guest_inst
      → WithinInsts n insts h
      → WithinInsts n insts t
  same_host n insts h t e1 e2 e3 (i, l, k) = (
    i,
    l,
    record {
      wps_hold = rw e1 k.wps_hold;
      evaluates = rw e1 k.evaluates;
      no_contexts = ap (λ d. d.csr_ctx_q) e2 ∙ k.no_contexts;
      counted = e3 ∙ k.counted;
    },
  )

  replay-Stopped :
      (n insts : ℕ) (h : Host D R)
      → is_running h.npc.state ≡ false
      → WithinInsts n insts h
      → Ends (Stopped n insts) (replay h)
  unfolding replay do_clear
  replay-Stopped n insts h e k = elim (Bool-cases (is_child h.lightsss)) [
    | inl y ↦ rw y (e, k)
    | inr m ↦ rw m (
        bind-Ends (λ _. Unit) (Stopped n insts) (wakeup_child h.g_nr_cycle h.lightsss) _
          (wakeup_child-Ends h.g_nr_cycle h.lightsss)
          (λ s u.
            bind-Ends (λ _. Unit) (Stopped n insts) (clear_loop s.pid_slot s) _
              (clear_loop-Ends s.pid_slot s)
              (λ t v. (e, same_host n insts h (record h { lightsss = t }) refl refl refl k))))
  ]

  conclude-Stopped :
      (n insts : ℕ) (r : Running) (h : Host D R)
      → h.npc.state ≡ r
      → WithinInsts n insts h
      → Ends (Stopped n insts) (conclude r h)
  unfolding conclude
  conclude-Stopped n insts npc_running h e k =
      (refl, same_host n insts h (record h { npc = set_state npc_stop h.npc }) refl refl refl k)
  conclude-Stopped n insts npc_abort h e k = replay-Stopped n insts h (ap is_running e) k
  conclude-Stopped n insts npc_end h e k = elim (Bool-cases (h.npc.halt_ret == 0)) [
    | inl y ↦ rw y (ap is_running e, k)
    | inr m ↦ rw m (replay-Stopped n insts h (ap is_running e) k)
  ]
  conclude-Stopped n insts npc_stop h e k = (ap is_running e, k)
  conclude-Stopped n insts npc_quit h e k = (ap is_running e, k)

over-stopped : (r : Running) → is_over r ≡ true → is_running r ≡ false
over-stopped r h = ground arith

-- cpu_exec(n) never runs out of rounds; from a host whose lists of watchpoints are in order, with
-- expressions whose evaluation does not run out of the depth of calls, and whose queue of CSR
-- contexts is empty, if cpu_exec gets to its end, the state is not NPC_RUNNING, at most n more
-- instructions were counted, the lists of watchpoints hold the same cells in order, with such
-- expressions, and the queue is empty again. Otherwise it fails an assert or meets undefined
-- behaviour.
pub cpu_exec-Stopped :
    {D : Type 0} {R : Type 0} (w : World D R) (used free : List ℕ) (n insts : ℕ) (h : Host D R)
    → Kept w used free (u64 insts) h
    → Ends (Stopped w used free n insts) (cpu_exec w n h)
unfolding cpu_exec
cpu_exec-Stopped w used free n insts h k = elim (Bool-cases (is_over h.npc.state)) [
  | inl y ↦ rw y (
    over-stopped h.npc.state y,
    (0, omega arith, counted-Kept w used free (u64 insts) (u64 (insts + 0)) h (omega arith) k),
  )
  | inr m ↦
      let start = record h { npc = set_state npc_running h.npc } in
      rw m (
        bind-Ends (WithinInsts w used free n insts) (Stopped w used free n insts) (excute w n start)
          _
          (excute-Kept w used free n insts start (record {
            wps_hold = k.wps_hold;
            evaluates = k.evaluates;
            no_contexts = k.no_contexts;
            counted = k.counted;
          }))
          (λ t l. conclude-Stopped w used free n insts t.npc.state t refl l))
]
