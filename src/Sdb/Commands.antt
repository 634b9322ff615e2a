-- ===== src/Sdb/Commands.antt =====
-- The commands of csrc/sdb/sdb.cpp. A command gets `args`; `strtok(NULL, " ")` goes on with the same
-- text, and with none where `args` is `NULL`, since the loop splits off the first word with `strtok`.
use fpga_npc.Base.{
  ℕ, ◌-◌, ◌^◌, Bool, true, false, Option, none, some, List, [], ◌∷◌, leb, ◌==◌, if◌then◌else◌,
  Outcome, done, undefined, ◌>>=◌, length, get_or, map, str_eq,
}
use fpga_npc.Reg.{reg_display}
use fpga_npc.Expr.Entry.{expr}
use fpga_npc.Watchpoint.{Watchpoints, update, new_wp, free_wp, info_wp}
use fpga_npc.Npc.{npc_quit}
use fpga_npc.Elf.{Tracer}
use fpga_npc.Elf.Trace.{show_ftrace}
use fpga_npc.CpuExec.{World, Host, set_state, cpu_exec}
use fpga_npc.Sdb.{
  strtok, to_int, sign_extend, Command, handler_help, handler_c, handler_q, handler_si,
  handler_info, handler_x, handler_p, handler_px, handler_w, handler_d, handler_bt, Row, cmd_table,
  Message, missing_argument, missing_address, unknown_option, expression_error, no_free_node,
  value_line, hex_line, watch_line, registers, watchpoint_list, trace, help_line, unknown_command,
  Reply, reply,
}

-- The text that `strtok(NULL, " ")` goes on with.
abbrev pub saved : Option (List ℕ) → List ℕ
saved none = []
saved (some args) = args

-- The room in `What`, with its 0.
abbrev pub what_size : ℕ
what_size = 65535

-- The row with a name.
unfoldable pub find_row : List ℕ → List Row → Option Row
find_row name [] = none
find_row name (r ∷ rows) = let on = find_row name rows in if str_eq name r.name then some r else on

abbrev line_of : Row → Message
line_of r = help_line r.name r.description

-- The world, and the trace that the core's calls of `ftrace` have made.
module _ {D R : Type 0} (world : World D R) (trace_of : D → Tracer) where
  -- `cpu_exec(n)`, which prints nothing that is modelled.
  unfoldable pub exec_command : ℕ → Host D R → Outcome (Reply D R)
  exec_command n h = do t ← cpu_exec world n h; done (reply t [])

  -- `cpu_exec(-1)`
  unfoldable pub cmd_c : Host D R → Outcome (Reply D R)
  cmd_c h = exec_command (2 ^ 64 - 1) h

  unfoldable pub cmd_si : Option (List ℕ) → Host D R → Outcome (Reply D R)
  cmd_si none h = exec_command 1 h
  cmd_si (some args) h = elim (strtok args).0 [
    | none ↦ undefined
    | some word ↦
        let n = to_int word in
        elim (n == 0) [ true ↦ exec_command 1 h | false ↦ exec_command (sign_extend n) h ]
  ]

  unfoldable pub cmd_q : Host D R → Reply D R
  cmd_q h = record {
    ret = 2 ^ 32 - 1;
    host = record h { npc = set_state npc_quit h.npc };
    printed = [];
  }

  unfoldable pub cmd_info : Option (List ℕ) → Host D R → Outcome (Reply D R)
  cmd_info none h = done (reply h (missing_argument handler_info ∷ []))
  cmd_info (some args) h = elim (strtok args).0 [
    | none ↦ undefined
    | some word ↦
        let option = get_or word 0 0 in
        if option == b'r'
        then (do
          lines ← reg_display (world.dut.core h.top).regs
          done (reply h (registers lines ∷ [])))
        else if option == b'w'
        then (do lines ← info_wp h.watchpoints; done (reply h (watchpoint_list lines ∷ [])))
        else done (reply h (unknown_option ∷ []))
  ]

  -- The words that are printed are never read from the memory: `data` has no value.
  unfoldable pub cmd_x : Option (List ℕ) → Host D R → Outcome (Reply D R)
  cmd_x none h = done (reply h (missing_argument handler_x ∷ []))
  cmd_x (some args) h =
      let (first, rest) = strtok args in
      elim first [
        | none ↦ undefined
        | some word ↦ elim (strtok rest).0 [
          | none ↦ done (reply h (missing_address ∷ []))
          | some hex_string ↦
              let n = to_int word in
              if (n == 0)
              then done (reply h [])
              else if leb (2 ^ 31) n
              then done (reply h [])
              else undefined
        ]
      ]

  -- `expr(args, &success)` with `success` false before.
  unfoldable pub evaluate : List ℕ → Host D R → Outcome (ℕ × Bool)
  evaluate args h = expr (world.dut.core h.top).regs args false

  unfoldable pub cmd_p : Option (List ℕ) → Host D R → Outcome (Reply D R)
  cmd_p none h = done (reply h (missing_argument handler_p ∷ []))
  cmd_p (some args) h = do
    (result, success) ← evaluate args h
    done (reply h ((if success then value_line args result else expression_error) ∷ []))

  unfoldable pub cmd_px : Option (List ℕ) → Host D R → Outcome (Reply D R)
  cmd_px none h = done (reply h (missing_argument handler_px ∷ []))
  cmd_px (some args) h = do
    (result, success) ← evaluate args h
    done (reply h ((if success then hex_line args result else expression_error) ∷ []))

  -- `strcpy(watchpoint->What, args); watchpoint->value = result;` and what is printed then.
  unfoldable pub set_watch : List ℕ → ℕ → ℕ → Watchpoints → Host D R → Outcome (Reply D R)
  set_watch args result i s h =
      let cell = record (s.wp_pool i) { what = args; value = result } in
      let t : Watchpoints = record s { wp_pool = update s.wp_pool i cell } in
      if leb what_size (length args)
      then undefined
      else done (reply (record h { watchpoints = t }) (watch_line cell.no args ∷ []))

  unfoldable pub cmd_w : Option (List ℕ) → Host D R → Outcome (Reply D R)
  cmd_w none h = done (reply h (missing_argument handler_w ∷ []))
  cmd_w (some args) h = do
    (result, success) ← evaluate args h
    elim success [
      | false ↦ done (reply h (expression_error ∷ []))
      | true ↦ do
        (node, s) ← new_wp h.watchpoints
        elim node [
          | none ↦ done (reply (record h { watchpoints = s }) (no_free_node ∷ []))
          | some i ↦ set_watch args result i s h
        ]
    ]

  unfoldable pub cmd_d : Option (List ℕ) → Host D R → Outcome (Reply D R)
  cmd_d none h = done (reply h (missing_argument handler_d ∷ []))
  cmd_d (some args) h = do
    s ← free_wp (to_int args) h.watchpoints
    done (reply (record h { watchpoints = s }) [])

  unfoldable pub cmd_bt : Host D R → Outcome (Reply D R)
  cmd_bt h = do lines ← show_ftrace (trace_of h.top); done (reply h (trace lines ∷ []))

  unfoldable pub cmd_help : Option (List ℕ) → Host D R → Reply D R
  cmd_help args h = elim (strtok (saved args)).0 [
    | none ↦ reply h (map line_of cmd_table)
    | some arg ↦ elim (find_row arg cmd_table) [
      | none ↦ reply h (unknown_command arg ∷ [])
      | some r ↦ reply h (line_of r ∷ [])
    ]
  ]

  -- `cmd_table[i].handler(args)`
  unfoldable pub run_handler : Command → Option (List ℕ) → Host D R → Outcome (Reply D R)
  run_handler handler_help args h = done (cmd_help args h)
  run_handler handler_c args h = cmd_c h
  run_handler handler_q args h = done (cmd_q h)
  run_handler handler_si args h = cmd_si args h
  run_handler handler_info args h = cmd_info args h
  run_handler handler_x args h = cmd_x args h
  run_handler handler_p args h = cmd_p args h
  run_handler handler_px args h = cmd_px args h
  run_handler handler_w args h = cmd_w args h
  run_handler handler_d args h = cmd_d args h
  run_handler handler_bt args h = cmd_bt h
