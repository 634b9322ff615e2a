-- ===== src/Sdb/Keeps.antt =====
-- Every command keeps the invariant of a session.
use fpga_npc.Base.{
  ℕ, ◌^◌, ◌≡◌, refl, Bool, false, Option, none, some, List, [], ◌∷◌, leb, ◌==◌, length, Outcome,
  done, ◌>>=◌, Ends, bind-Ends, Bool-cases, Option-cases, inl, inr, arith, get_or, u64, ◌-◌,
  if◌then◌else◌,
}
use fpga_npc.Reg.{reg_display}
use fpga_npc.Expr.Entry.{expr}
use fpga_npc.Watchpoint.{Watchpoints, update, new_wp, free_wp}
use fpga_npc.Watchpoint.Changes.{info_wp-lines}
use fpga_npc.Elf.{Tracer}
use fpga_npc.Elf.Trace.{show_ftrace}
use fpga_npc.CpuExec.{World, Host, cpu_exec}
use fpga_npc.CpuExec.Kept.{Kept, Evaluates, update-Holds, update-AllEvaluate}
use fpga_npc.CpuExec.Commands.{Stopped, cpu_exec-Stopped}
use fpga_npc.Sdb.{
  strtok, to_int, sign_extend, Command, handler_help, handler_c, handler_q, handler_si,
  handler_info, handler_x, handler_p, handler_px, handler_w, handler_d, handler_bt, cmd_table,
  Message, value_line, hex_line, expression_error, registers, trace, Reply, reply,
}
use fpga_npc.Sdb.Commands.{
  what_size, find_row, exec_command, cmd_c, cmd_si, cmd_q, cmd_info, cmd_x, evaluate, cmd_p, cmd_px,
  set_watch, cmd_w, cmd_d, cmd_bt, cmd_help, run_handler, saved,
}
use fpga_npc.Sdb.Sane.{
  Listed, Sane, free_wp-Listed, new_wp-Listed, reg_display-Ends, show_nodes-Ends,
}

module _ {D R : Type 0} (world : World D R) (trace_of : D → Tracer) where
  abbrev pub Fine : Outcome (Reply D R) → Type 0
  Fine r = Ends (λ (r : Reply D R). Sane r.host) r

  -- A command that prints what is read from the state.
  asks-Fine {ℓ} :
      {A : Type ℓ} (h : Host D R) (r : Outcome A) (print : A → List Message)
      → Sane h
      → Ends (λ _. Unit) r
      → Fine (r >>= λ a. done (reply h (print a)))
  asks-Fine h r print k e = bind-Ends (λ _. Unit) (λ r. Sane r.host) r _ e (λ a u. k)

  new_pool :
      (h : Host D R) (s : Watchpoints) → Sane h → Listed s → Sane (record h { watchpoints = s })
  new_pool h s k l = record {
    listed = l;
    no_contexts = k.no_contexts;
    counted = k.counted;
    stopped = k.stopped;
  }

  pub exec_command-Fine : (n : ℕ) (h : Host D R) → Sane h → Fine (exec_command world trace_of n h)
  unfolding exec_command
  exec_command-Fine n h k =
      let (used, free, held, all) = k.listed in
      let kept : Kept world used free (u64 h.g_nr_guest_inst) h = record {
        wps_hold = held;
        evaluates = all;
        no_contexts = k.no_contexts;
        counted = omega (arith, k.counted);
      } in
      bind-Ends (Stopped world used free n h.g_nr_guest_inst) (λ r. Sane r.host)
        (cpu_exec world n h) _ (cpu_exec-Stopped world used free n h.g_nr_guest_inst h kept)
        (λ t (stopped, (i, l, m)). record {
          listed = (used, free, m.wps_hold, m.evaluates);
          no_contexts = m.no_contexts;
          counted = omega (arith, m.counted);
          stopped = stopped;
        })

  cmd_si-Fine :
      (args : Option (List ℕ)) (h : Host D R) → Sane h → Fine (cmd_si world trace_of args h)
  unfolding cmd_si
  cmd_si-Fine none h k = exec_command-Fine 1 h k
  cmd_si-Fine (some args) h k = elim (Option-cases (strtok args).0) [
    | inl n ↦ rw (n, cmd_si) tt
    | inr (word, e) ↦ elim (Bool-cases (to_int word == 0)) [
      | inl y ↦ rw (e, cmd_si, y) (exec_command-Fine 1 h k)
      | inr m ↦ rw (e, cmd_si, m) (exec_command-Fine (sign_extend (to_int word)) h k)
    ]
  ]

  cmd_info-Fine :
      (args : Option (List ℕ)) (h : Host D R) → Sane h → Fine (cmd_info world trace_of args h)
  unfolding cmd_info
  cmd_info-Fine none h k = k
  cmd_info-Fine (some args) h k = elim (Option-cases (strtok args).0) [
    | inl n ↦ rw (n, cmd_info) tt
    | inr (word, e) ↦ elim (Bool-cases (get_or word 0 0 == b'r')) [
      | inl y ↦
          rw (e, cmd_info, y)
            (asks-Fine h (reg_display (world.dut.core h.top).regs) (λ lines. registers lines ∷ []) k
              (reg_display-Ends (world.dut.core h.top).regs))
      | inr m ↦ elim (Bool-cases (get_or word 0 0 == b'w')) [
        | inl y ↦
            let (used, free, held, all) = k.listed in
            rw (e, cmd_info, m, y, info_wp-lines h.watchpoints used free held) k
        | inr o ↦ rw (e, cmd_info, m, o) k
      ]
    ]
  ]

  cmd_x-Fine : (args : Option (List ℕ)) (h : Host D R) → Sane h → Fine (cmd_x world trace_of args h)
  unfolding cmd_x
  cmd_x-Fine none h k = k
  cmd_x-Fine (some args) h k = elim (Option-cases (strtok args).0) [
    | inl n ↦ rw (n, cmd_x) tt
    | inr (word, e) ↦ elim (Option-cases (strtok (strtok args).1).0) [
      | inl n ↦ rw (e, cmd_x, n) k
      | inr (hex_string, f) ↦ elim (Bool-cases (to_int word == 0)) [
        | inl y ↦ rw (e, cmd_x, f, y) k
        | inr m ↦ elim (Bool-cases (leb (2 ^ 31) (to_int word))) [
          | inl y ↦ rw (e, cmd_x, f, m, y) k
          | inr o ↦ rw (e, cmd_x, f, m, o) tt
        ]
      ]
    ]
  ]

  set_watch-Fine :
      (args : List ℕ) (result i : ℕ) (s : Watchpoints) (h : Host D R)
      → Evaluates args
      → Listed s
      → Sane h
      → Fine (set_watch world trace_of args result i s h)
  unfolding set_watch
  set_watch-Fine args result i s h ends (used, free, held, all) k =
      let cell = record (s.wp_pool i) { what = args; value = result } in
      elim (Bool-cases (leb what_size (length args))) [
        | inl y ↦ rw (y, set_watch) tt
        | inr m ↦
            rw (m, set_watch)
              (new_pool h (record s { wp_pool = update s.wp_pool i cell }) k
                (
                  used,
                  free,
                  update-Holds s used free i cell held refl refl,
                  update-AllEvaluate s i cell ends all,
                ))
      ]

  cmd_w-Fine :
      (args : List ℕ) (h : Host D R)
      → Evaluates args
      → Sane h
      → Fine (cmd_w world trace_of (some args) h)
  unfolding cmd_w evaluate
  cmd_w-Fine args h ends k =
      bind-Ends (λ _. Unit) (λ r. Sane r.host) (expr (world.dut.core h.top).regs args false) _
        (ends (world.dut.core h.top).regs)
        (λ v u. elim (Bool-cases v.1) [
          | inr m ↦ rw m k
          | inl y ↦ rw y (
              bind-Ends (λ r. Listed r.1) (λ r. Sane r.host) (new_wp h.watchpoints) _
                (new_wp-Listed h.watchpoints k.listed)
                (λ r l. elim (Option-cases r.0) [
                  | inl n ↦ rw n (new_pool h r.1 k l)
                  | inr (i, e) ↦ rw e (set_watch-Fine args v.0 i r.1 h ends l k)
                ]))
        ])

  cmd_d-Fine : (args : Option (List ℕ)) (h : Host D R) → Sane h → Fine (cmd_d world trace_of args h)
  unfolding cmd_d
  cmd_d-Fine none h k = k
  cmd_d-Fine (some args) h k =
      bind-Ends Listed (λ r. Sane r.host) (free_wp (to_int args) h.watchpoints) _
        (free_wp-Listed (to_int args) h.watchpoints k.listed) (λ s l. new_pool h s k l)

  cmd_help-host :
      (args : Option (List ℕ)) (h : Host D R) → (cmd_help world trace_of args h).host ≡ h
  unfolding cmd_help
  cmd_help-host args h = elim (Option-cases (strtok (saved args)).0) [
    | inl n ↦ rw (n, cmd_help) refl
    | inr (arg, e) ↦ elim (Option-cases (find_row arg cmd_table)) [
      | inl n ↦ rw (e, cmd_help, n) refl
      | inr (r, f) ↦ rw (e, cmd_help, f) refl
    ]
  ]

  pub run_handler-Fine :
      (command : Command) (args : Option (List ℕ)) (h : Host D R)
      → Evaluates (saved args)
      → Sane h
      → Fine (run_handler world trace_of command args h)
  unfolding run_handler cmd_c cmd_q cmd_p cmd_px cmd_w cmd_bt evaluate
  run_handler-Fine handler_help args h ends k = rw (cmd_help-host args h) k
  run_handler-Fine handler_c args h ends k = exec_command-Fine (2 ^ 64 - 1) h k
  run_handler-Fine handler_q args h ends k = record {
    listed = k.listed;
    no_contexts = k.no_contexts;
    counted = k.counted;
    stopped = refl;
  }
  run_handler-Fine handler_si args h ends k = cmd_si-Fine args h k
  run_handler-Fine handler_info args h ends k = cmd_info-Fine args h k
  run_handler-Fine handler_x args h ends k = cmd_x-Fine args h k
  run_handler-Fine handler_p none h ends k = k
  run_handler-Fine handler_p (some args) h ends k =
      asks-Fine h (expr (world.dut.core h.top).regs args false)
        (λ (v : ℕ × Bool). (if v.1 then value_line args v.0 else expression_error) ∷ []) k
        (ends (world.dut.core h.top).regs)
  run_handler-Fine handler_px none h ends k = k
  run_handler-Fine handler_px (some args) h ends k =
      asks-Fine h (expr (world.dut.core h.top).regs args false)
        (λ (v : ℕ × Bool). (if v.1 then hex_line args v.0 else expression_error) ∷ []) k
        (ends (world.dut.core h.top).regs)
  run_handler-Fine handler_w none h ends k = k
  run_handler-Fine handler_w (some args) h ends k = cmd_w-Fine args h ends k
  run_handler-Fine handler_d args h ends k = cmd_d-Fine args h k
  run_handler-Fine handler_bt args h ends k =
      asks-Fine h (show_ftrace (trace_of h.top)) (λ lines. trace lines ∷ []) k
        (show_nodes-Ends (trace_of h.top) (trace_of h.top).nodes refl)
