-- ===== src/Sdb.antt =====
-- csrc/sdb/sdb.cpp: the command loop of the debugger. The lines that `readline` gives are a list, and
-- what is printed is a list of messages.
pub mod Commands
pub mod Loop
pub mod Words
pub mod Sane
pub mod Keeps
pub mod Session
pub mod Watching
pub mod Values
mod Examples
use fpga_npc.Base.{
  ℕ, ◌+◌, ◌-◌, ◌%◌, ◌^◌, Bool, true, false, ◌&&◌, ◌||◌, Option, none, some, List, [], ◌∷◌, leb,
  ◌==◌, if◌then◌else◌, min, codes,
}
use fpga_npc.Expr.Eval.{decimal, atoi}
use fpga_npc.Elf.Trace.{Line}
use fpga_npc.CpuExec.{Host}

-- The text up to a space, and what stands behind the space.
unfoldable pub until_space : List ℕ → List ℕ × List ℕ
until_space [] = ([], [])
until_space (c ∷ s) =
    let (word, rest) = until_space s in if c == b' ' then ([], s) else (c ∷ word, rest)

-- `strtok(s, " ")`: the next word, or `none`, and what a call with `NULL` goes on with.
unfoldable pub strtok : List ℕ → Option (List ℕ) × List ℕ
strtok [] = (none, [])
strtok (c ∷ s) =
    let later = strtok s in
    let (word, rest) = until_space (c ∷ s) in if c == b' ' then later else (some word, rest)

-- `isspace`.
abbrev pub is_space : ℕ → Bool
is_space c = (c == b' ') || (leb 9 c && leb c 13)

unfoldable pub skip_space : List ℕ → List ℕ
skip_space [] = []
skip_space (c ∷ s) = let on = skip_space s in if is_space c then on else c ∷ s

-- `atoi` of the C library on any text: white space, a sign, the digits.
unfoldable pub to_int : List ℕ → ℕ
to_int s = elim (skip_space s) [
  | [] ↦ 0
  | c ∷ digits ↦
      if c == b'+' then min (decimal 0 digits) (2 ^ 63 - 1) % 2 ^ 32 else atoi (c ∷ digits)
]

-- An `int` as a `uint64_t`.
abbrev pub sign_extend : ℕ → ℕ
sign_extend n = if leb (2 ^ 31) n then n + (2 ^ 64 - 2 ^ 32) else n

-- The functions of `cmd_table`.
pub data Command : Type 0 where
  handler_help handler_c handler_q handler_si handler_info handler_x handler_p handler_px handler_w
        handler_d handler_bt :
      Command

-- A row of `cmd_table`.
pub record Row : Type 0 where
  pub name : List ℕ
  pub description : List ℕ
  pub handler : Command

abbrev row : List ℕ → List ℕ → Command → Row
row name description handler = record { name = name; description = description; handler = handler }

unfoldable pub cmd_table : List Row
cmd_table =
    row (codes "help") (codes "Display information about all supported commands") handler_help
    ∷ row (codes "c") (codes "Continue the execution of the program") handler_c
    ∷ row (codes "q") (codes "Exit NPC") handler_q
    ∷ row (codes "si") (codes "Step N instructions and then pause") handler_si
    ∷ row (codes "info") (codes "print the status of registers or the infomation of watchpoints")
        handler_info
    ∷ row (codes "x") (codes "scan the memory and print it") handler_x
    ∷ row (codes "p") (codes "Get the value of the EXPR") handler_p
    ∷ row (codes "p/x") (codes "Get the value of the EXPR and print in hex") handler_px
    ∷ row (codes "w") (codes "Set watchpoint") handler_w
    ∷ row (codes "d") (codes "Delete the assigned watchpoint") handler_d
    ∷ row (codes "bt") (codes "Print the ftrace") handler_bt
    ∷ []

-- What is printed.
pub data Message : Type 0 where
  missing_argument : Command → Message
  missing_address : Message
  unknown_option : Message
  expression_error : Message
  no_free_node : Message
  value_line : (expression : List ℕ) (value : ℕ) → Message
  hex_line : (expression : List ℕ) (value : ℕ) → Message
  watch_line : (no : ℕ) (what : List ℕ) → Message
  registers : List (List ℕ × ℕ) → Message
  watchpoint_list : List (ℕ × List ℕ) → Message
  trace : Option (List Line) → Message
  help_line : (name description : List ℕ) → Message
  unknown_command : List ℕ → Message

-- What a command returns, an `int`, the state that it leaves, and what it prints.
pub record Reply (D R : Type 0) : Type 0 where
  pub ret : ℕ
  pub host : Host D R
  pub printed : List Message

-- `return 0;`
abbrev pub reply : {D R : Type 0} → Host D R → List Message → Reply D R
reply h printed = record { ret = 0; host = h; printed = printed }
