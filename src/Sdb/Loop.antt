-- ===== src/Sdb/Loop.antt =====
-- `sdb_mainloop` and `init_sdb` of csrc/sdb/sdb.cpp.
use fpga_npc.Base.{
  ℕ, ◌^◌, Bool, true, false, Option, none, some, List, [], ◌∷◌, ◌++◌, leb, Outcome, done, ◌>>=◌,
}
use fpga_npc.Watchpoint.{init_wp_pool}
use fpga_npc.Elf.{Tracer}
use fpga_npc.CpuExec.{World, Host}
use fpga_npc.Sdb.{strtok, cmd_table, Message, unknown_command, Reply, reply}
use fpga_npc.Sdb.Commands.{find_row, run_handler, cmd_c}

-- `args`, of the text behind the first word: `NULL` where the line ends there.
abbrev pub args_of : List ℕ → Option (List ℕ)
args_of [] = none
args_of (c ∷ s) = some (c ∷ s)

module _ {D R : Type 0} (world : World D R) (trace_of : D → Tracer) where
  -- What is done about one line.
  unfoldable pub run_line : List ℕ → Host D R → Outcome (Reply D R)
  run_line str h =
      let (first, rest) = strtok str in
      elim first [
        | none ↦ done (reply h [])
        | some cmd ↦ elim (find_row cmd cmd_table) [
          | none ↦ done (reply h (unknown_command cmd ∷ []))
          | some r ↦ run_handler world trace_of r.handler (args_of rest) h
        ]
      ]

  -- The loop over the lines, until the end of the input or a command that returns a negative number.
  unfoldable pub line_loop : List (List ℕ) → Host D R → Outcome (Host D R × List Message)
  line_loop [] h = done (h, [])
  line_loop (str ∷ lines) h = do
    r ← run_line str h
    elim (leb (2 ^ 31) r.ret) [
      | true ↦ done (r.host, r.printed)
      | false ↦ do (t, later) ← line_loop lines r.host; done (t, r.printed ++ later)
    ]

  unfoldable pub sdb_mainloop : Bool → List (List ℕ) → Host D R → Outcome (Host D R × List Message)
  sdb_mainloop true lines h = do r ← cmd_c world trace_of h; done (r.host, r.printed)
  sdb_mainloop false lines h = line_loop lines h

-- `init_regex` compiles the constant rules of the expressions, which Expr has.
unfoldable pub init_sdb : {D R : Type 0} → Host D R → Host D R
init_sdb h = record h { watchpoints = init_wp_pool h.watchpoints }
