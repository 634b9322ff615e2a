-- ===== src/Sdb/Session.antt =====
-- What every session keeps.
use fpga_npc.Base.{
  ℕ, ◌^◌, ◌≡◌, refl, sym, Bool, true, false, List, [], ◌∷◌, leb, Ends, bind-Ends, Bool-cases,
  Option-cases, inl, inr, All, subst, ◌-◌,
}
use fpga_npc.Elf.{Tracer}
use fpga_npc.CpuExec.{World, Host}
use fpga_npc.Sdb.{strtok, cmd_table}
use fpga_npc.Sdb.Commands.{find_row, exec_command, cmd_c, saved}
use fpga_npc.Sdb.Loop.{args_of, run_line, line_loop, sdb_mainloop}
use fpga_npc.Sdb.Sane.{Sane}
use fpga_npc.CpuExec.Kept.{Evaluates}
use fpga_npc.Sdb.Keeps.{Fine, exec_command-Fine, run_handler-Fine}

module _ {D R : Type 0} (world : World D R) (trace_of : D → Tracer) where
  saved-args_of : (rest : List ℕ) → saved (args_of rest) ≡ rest
  saved-args_of [] = refl
  saved-args_of (c ∷ rest) = refl

  run_line-Fine :
      (str : List ℕ) (h : Host D R)
      → Evaluates (strtok str).1
      → Sane h
      → Fine world trace_of (run_line world trace_of str h)
  unfolding run_line
  run_line-Fine str h ends k = elim (Option-cases (strtok str).0) [
    | inl n ↦ rw (n, run_line) k
    | inr (cmd, e) ↦ elim (Option-cases (find_row cmd cmd_table)) [
      | inl n ↦ rw (e, run_line, n) k
      | inr (r, f) ↦
          rw (e, run_line, f)
            (run_handler-Fine world trace_of r.handler (args_of (strtok str).1) h
              (subst Evaluates (sym (saved-args_of (strtok str).1)) ends) k)
    ]
  ]

  line_loop-Fine :
      (lines : List (List ℕ)) (h : Host D R)
      → All (λ str. Evaluates (strtok str).1) lines
      → Sane h
      → Ends (λ r. Sane r.0) (line_loop world trace_of lines h)
  unfolding line_loop
  line_loop-Fine [] h ends k = k
  line_loop-Fine (str ∷ lines) h ends k =
      bind-Ends (λ r. Sane r.host) (λ r. Sane r.0) (run_line world trace_of str h) _
        (run_line-Fine str h ends.0 k)
        (λ r l. elim (Bool-cases (leb (2 ^ 31) r.ret)) [
          | inl y ↦ rw y l
          | inr m ↦ rw m (
              bind-Ends (λ r. Sane r.0) (λ r. Sane r.0) (line_loop world trace_of lines r.host) _
                (line_loop-Fine lines r.host ends.1 l) (λ t n. n))
        ])

-- From a state whose lists of watchpoints are in order, with expressions that evaluate without
-- running out of the depth of calls, whose queue of CSR contexts is empty, whose count of
-- instructions is below 2 ^ 64 and which is not NPC_RUNNING, and for lines whose texts behind the
-- first word evaluate in this way, sdb_mainloop, in batch mode or not, never runs out of rounds,
-- and if it gets to its end, the same holds of the state that it leaves; otherwise it fails an
-- assert or meets undefined behaviour.
pub sdb_mainloop-Sane :
    {D : Type 0} {R : Type 0} (world : World D R) (trace_of : D → Tracer) (is_batch_mode : Bool)
    (lines : List (List ℕ)) (h : Host D R)
    → All (λ str. Evaluates (strtok str).1) lines
    → Sane h
    → Ends (λ r. Sane r.0) (sdb_mainloop world trace_of is_batch_mode lines h)
unfolding sdb_mainloop
sdb_mainloop-Sane world trace_of true lines h ends k =
    unfold cmd_c in
    bind-Ends (λ r. Sane r.host) (λ r. Sane r.0) (exec_command world trace_of (2 ^ 64 - 1) h) _
      (exec_command-Fine world trace_of (2 ^ 64 - 1) h k) (λ r l. l)
sdb_mainloop-Sane world trace_of false lines h ends k = line_loop-Fine world trace_of lines h ends k
