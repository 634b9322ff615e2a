-- ===== src/Itrace.antt =====
-- The trace of instructions of csrc/cpu/cpu-exec.cpp, built with CONFIG_ITRACE, and `disassemble` of
-- csrc/utils/disasm.cc. What LLVM prints for an instruction, a text without zeros, is an argument.
pub mod Line
pub mod Rotation
pub mod Ring
mod Examples
use fpga_npc.Base.{
  ℕ, zero, suc, ◌+◌, ◌-◌, ◌*◌, ◌/◌, ◌%◌, ◌^◌, Bool, true, false, Option, none, some, List, [], ◌∷◌,
  ◌++◌, map, ◌==◌, ltb, if◌then◌else◌, Outcome, done, aborted, undefined, ◌>>=◌, u32, u64, codes,
  length, set, drop, replicate,
}

-- `std::string::find_first_not_of` with a tab; `none` is `npos`.
unfoldable pub find_first_not_of_tab : List ℕ → Option ℕ
find_first_not_of_tab [] = none
find_first_not_of_tab (c ∷ s) =
    let rest = find_first_not_of_tab s in
    if c == 9 then elim rest [ none ↦ none | some i ↦ some (suc i) ] else some 0

-- `npos` is -1 as an int, and `c_str() - 1` is out of the string.
abbrev pub copy_from : List ℕ → ℕ → Option ℕ → Outcome (List ℕ)
copy_from printed size none = undefined
copy_from printed size (some skip) =
    if ltb (length printed - skip) size then done (drop skip printed) else aborted

unfoldable pub disassemble : List ℕ → ℕ → Outcome (List ℕ)
disassemble printed size = copy_from printed size (find_first_not_of_tab printed)

abbrev pub hex_char : ℕ → ℕ
hex_char d = if ltb d 10 then 48 + d else 87 + d

-- `%0wx`, for a number of w digits at most.
unfoldable pub hex_text : ℕ → ℕ → List ℕ
hex_text zero n = []
hex_text (suc w) n = hex_char ((n / 16 ^ w) % 16) ∷ hex_text w n

-- `inst[i]`, of a little-endian word.
abbrev pub inst_byte : ℕ → ℕ → ℕ
inst_byte inst i = (inst / 256 ^ i) % 256

-- The bytes below number `i`, from the highest.
unfoldable pub byte_texts : ℕ → ℕ → List ℕ
byte_texts inst zero = []
byte_texts inst (suc i) = (b' ' ∷ hex_text 2 (inst_byte inst i)) ++ byte_texts inst i

-- `logbuf` up to the space in front of the disassembly: `FMT_WORD ":"`, the bytes, a space.
unfoldable pub line_start : ℕ → ℕ → List ℕ
line_start pc inst = codes "0x" ++ hex_text 8 pc ++ b':' ∷ byte_texts inst 4 ++ b' ' ∷ []

-- `strcpy` to the end of what `logbuf`, of 128 characters, already holds.
unfoldable pub copy_behind : List ℕ → List ℕ → Outcome (List ℕ)
copy_behind start text =
    if ltb (length start + length text) 128 then done (start ++ text) else undefined

-- The text that is written for an instruction.
unfoldable pub log_line : List ℕ → ℕ → ℕ → Outcome (List ℕ)
log_line printed pc inst = do text ← disassemble printed 128; copy_behind (line_start pc inst) text

-- `iringbuff` and `iringbuff_index`, an int, with -1 as 2 ^ 32 - 1; and the lines that went to the
-- log and to the terminal, oldest first.
pub record Itrace : Type 0 where
  pub iringbuff : List (List ℕ)
  pub iringbuff_index : ℕ
  pub log : List (List ℕ)
  pub terminal : List (List ℕ)

abbrev pub itrace_start : Itrace
itrace_start = record {
  iringbuff = replicate 20 [];
  iringbuff_index = 4294967295;
  log = [];
  terminal = [];
}

-- `g_print_step`, as `cpu_exec` sets it.
abbrev pub print_step : ℕ → Bool
print_step n = ltb n 100

-- The line is put into the ring buffer behind the last one, then into the log.
unfoldable pub write_line : Bool → List ℕ → Itrace → Outcome Itrace
write_line g_print_step line s =
    let i = u32 (s.iringbuff_index + 1) % 20 in
    if ltb i 20
    then done (record {
      iringbuff = set s.iringbuff i line;
      iringbuff_index = i;
      log = s.log ++ line ∷ [];
      terminal = if g_print_step then s.terminal ++ line ∷ [] else s.terminal;
    })
    else aborted

-- What `exec_once` does behind its loop, for what LLVM prints, `*cpu.pc_done` and `*cpu.inst`.
pub record Event : Type 0 where
  pub printed : List ℕ
  pub pc : ℕ
  pub inst : ℕ

unfoldable pub trace_inst : Bool → Event → Itrace → Outcome Itrace
trace_inst g_print_step e s = do
  line ← log_line e.printed e.pc e.inst
  write_line g_print_step line s

-- One instruction after the other.
unfoldable pub trace_insts : Bool → List Event → Itrace → Outcome Itrace
trace_insts g_print_step [] s = done s
trace_insts g_print_step (e ∷ es) s = do
  t ← trace_inst g_print_step e s
  trace_insts g_print_step es t

-- The lines of `ringbuf_print`, from number `i` of the buffer on.
unfoldable pub ring_lines : ℕ → ℕ → List (List ℕ) → List (List ℕ)
ring_lines index i [] = []
ring_lines index i (line ∷ lines) =
    ((if i == index then codes "--> " else codes "    ") ++ line) ∷ ring_lines index (suc i) lines

unfoldable pub ringbuf_print : Itrace → List (List ℕ)
ringbuf_print s = ring_lines s.iringbuff_index 0 s.iringbuff
