-- ===== src/Elf.antt =====
-- csrc/utils/elf.cc: the table of functions of an ELF file, and the trace of calls and returns.
pub mod File
pub mod Trace
pub mod Table
pub mod Layout
pub mod Loading
pub mod Sections
pub mod Loaded
pub mod Nested
mod Examples
use fpga_npc.Base.{
  ℕ, zero, suc, ◌+◌, ◌%◌, Bool, true, false, ◌&&◌, ◌||◌, Option, none, some, List, [], ◌∷◌, ltb,
  leb, ◌==◌, if◌then◌else◌, Outcome, done, aborted, undefined, ◌>>=◌, u32, drop, codes, str_eq,
}

-- `sym_functab`, without the link to the next one: the table is a list.
pub record SymFunctab : Type 0 where
  pub name : List ℕ
  pub value : ℕ
  pub size : ℕ

-- `CALL` and `RET`.
pub data TraceType : Type 0 where
  call ret : TraceType

-- `ftrace_node`.
pub record FtraceNode : Type 0 where
  pub addr : ℕ
  pub type : TraceType
  pub func_name : List ℕ
  pub func_addr : ℕ

-- The static variables. Both lists have a first cell that holds nothing but the link to the others,
-- which is not initialised: `functab_head->next` has no value while the table is empty, and neither
-- has `ftrace_head->next` while no node was added. `none` is a `ftrace_head` that is `NULL`.
pub record Tracer : Type 0 where
  pub elf_loaded : Bool
  pub functab : List SymFunctab
  pub nodes : Option (List FtraceNode)

-- `Elf32_Sym`.
pub record Symbol : Type 0 where
  pub st_name : ℕ
  pub st_value : ℕ
  pub st_size : ℕ
  pub st_info : ℕ

-- The string up to its 0; bytes that end before one are read over their end.
unfoldable pub c_string : List ℕ → Outcome (List ℕ)
c_string [] = undefined
c_string (c ∷ s) = elim (c == 0) [ true ↦ done [] | false ↦ do t ← c_string s; done (c ∷ t) ]

-- `strncmp(s, prefix, strlen(prefix)) == 0` for a prefix without a 0.
unfoldable pub starts_with : List ℕ → List ℕ → Outcome Bool
starts_with [] s = done true
starts_with (p ∷ prefix) [] = undefined
starts_with (p ∷ prefix) (c ∷ s) = elim (c == p) [
  | true ↦ starts_with prefix s
  | false ↦ done false
]

abbrev pub stt_func : ℕ
stt_func = 2

-- `ELF32_ST_TYPE`.
abbrev pub st_type : ℕ → ℕ
st_type st_info = st_info % 16

unfoldable pub is_function : List ℕ → Symbol → Outcome Bool
is_function strtab s = elim (st_type s.st_info == stt_func) [
  | true ↦ done true
  | false ↦ starts_with (codes "main") (drop s.st_name strtab)
]

unfoldable pub extract_functab : List Symbol → List ℕ → Outcome (List SymFunctab)
extract_functab [] strtab = done []
extract_functab (s ∷ symtab) strtab = do
  listed ← is_function strtab s
  elim listed [
    | false ↦ extract_functab symtab strtab
    | true ↦ do
      name ← c_string (drop s.st_name strtab)
      rest ← extract_functab symtab strtab
      done (record { name = name; value = s.st_value; size = s.st_size } ∷ rest)
  ]

-- The condition of `query_funcname`.
unfoldable pub is_match : ℕ → SymFunctab → Bool
is_match addr p =
    (leb p.value addr && ltb addr (u32 (p.value + p.size))) || str_eq p.name (codes "main")

unfoldable pub query_loop : ℕ → List SymFunctab → Outcome (List ℕ)
query_loop addr [] = aborted
query_loop addr (p ∷ ps) = elim (is_match addr p) [
  | true ↦ done p.name
  | false ↦ query_loop addr ps
]

unfoldable pub query_funcname : ℕ → List SymFunctab → Outcome (List ℕ)
query_funcname addr [] = undefined
query_funcname addr (p ∷ ps) = query_loop addr (p ∷ ps)
