-- ===== src/Elf/Trace.antt =====
-- `ftrace`, which the core calls at every jump, and `show_ftrace` of csrc/utils/elf.cc.
use fpga_npc.Base.{
  ℕ, ◌+◌, ◌-◌, ◌^◌, ◌&&◌, not, Option, none, some, List, [], ◌∷◌, ◌++◌, ltb, ◌==◌, if◌then◌else◌,
  Outcome, done, undefined, ◌>>=◌, u32, sub32,
}
use fpga_npc.Elf.{call, ret, FtraceNode, Tracer, query_funcname}

-- The nodes behind the first cell, which is there from the first call on.
abbrev pub nodes_of : Option (List FtraceNode) → List FtraceNode
nodes_of none = []
nodes_of (some ns) = ns

abbrev pub append_node : FtraceNode → Tracer → Tracer
append_node n t = record t { nodes = some (nodes_of t.nodes ++ n ∷ []) }

unfoldable pub ftrace : ℕ → ℕ → ℕ → ℕ → Tracer → Outcome Tracer
ftrace pc target rd rs1 t =
    if not t.elf_loaded
    then done t
    else if (rd == 0) && (rs1 == 1)
    then (do
      name ← query_funcname pc t.functab
      done (append_node (record { addr = pc; type = ret; func_name = name; func_addr = 0 }) t))
    else if not (rd == 0)
    then (do
      name ← query_funcname target t.functab
      done
          (append_node (record { addr = pc; type = call; func_name = name; func_addr = target }) t))
    else done (record t { nodes = some (nodes_of t.nodes) })

-- A line of the trace: the address, how many spaces follow it, and the rest.
pub data Line : Type 0 where
  call_line : (addr spaces : ℕ) (func_name : List ℕ) (func_addr : ℕ) → Line
  ret_line : (addr spaces : ℕ) (func_name : List ℕ) → Line

-- `%*s` of an empty string with an `int` as its width: a negative width counts from its absolute
-- value.
unfoldable pub spaces_of : ℕ → ℕ
spaces_of width = if ltb width (2 ^ 31) then width else 2 ^ 32 - width

unfoldable pub show_loop : ℕ → List FtraceNode → List Line
show_loop space_num [] = []
show_loop space_num (p ∷ ps) = elim p.type [
  | call ↦
      let inner = u32 (space_num + 2) in
      call_line p.addr (spaces_of inner) p.func_name p.func_addr ∷ show_loop inner ps
  | ret ↦ ret_line p.addr (spaces_of space_num) p.func_name ∷ show_loop (sub32 space_num 2) ps
]

-- `none` is the message that the trace is empty.
unfoldable pub show_ftrace : Tracer → Outcome (Option (List Line))
show_ftrace t = elim t.nodes [
  | none ↦ done none
  | some [] ↦ undefined
  | some (p ∷ ps) ↦ done (some (show_loop (sub32 0 2) (p ∷ ps)))
]
