-- ===== src/Elf/Nested.antt =====
-- The indentation of the trace, for calls that are nested.
use mathlib.Core.List.{append_assoc, append-nil}
use fpga_npc.Base.{
  ℕ, suc, ◌+◌, ◌*◌, ◌^◌, ◌≤◌, ◌≡◌, refl, ap, sym, ◌∙◌, some, List, [], ◌∷◌, ◌++◌, leb,
  if◌then◌else◌, done, arith, u32, sub32,
}
use fpga_npc.Elf.{call, ret, FtraceNode, Tracer}
use fpga_npc.Elf.Trace.{Line, call_line, ret_line, spaces_of, show_loop, show_ftrace}

-- A call and its return.
pub record Visit : Type 0 where
  pub call_addr : ℕ
  pub func_name : List ℕ
  pub func_addr : ℕ
  pub ret_addr : ℕ
  pub ret_name : List ℕ

-- Calls one after another, each with the calls inside it.
pub data Calls : Type 0 where
  finished : Calls
  visit : Visit → (inside behind : Calls) → Calls

abbrev call_node : Visit → FtraceNode
call_node v = record {
  addr = v.call_addr;
  type = call;
  func_name = v.func_name;
  func_addr = v.func_addr;
}

abbrev ret_node : Visit → FtraceNode
ret_node v = record { addr = v.ret_addr; type = ret; func_name = v.ret_name; func_addr = 0 }

-- The nodes in the order of the run.
abbrev pub history : Calls → List FtraceNode
history finished = []
history (visit v inside behind) = call_node v ∷ (history inside ++ ret_node v ∷ history behind)

-- The deepest nesting.
abbrev pub height : Calls → ℕ
height finished = 0
height (visit v inside behind) =
    if leb (height behind) (suc (height inside)) then suc (height inside) else height behind

-- Every line at two spaces for each call that it is inside of.
abbrev pub layout : ℕ → Calls → List Line
layout depth finished = []
layout depth (visit v inside behind) =
    call_line v.call_addr (2 * depth) v.func_name v.func_addr
    ∷ (layout (suc depth) inside
        ++ ret_line v.ret_addr (2 * depth) v.ret_name ∷ layout depth behind)

-- `space_num` inside `depth` calls, at the start and behind each call.
abbrev space_num : ℕ → ℕ
space_num depth = sub32 (2 * depth) 2

spaces_of-double : (depth : ℕ) → depth ≤ 2 ^ 29 → spaces_of (2 * depth) ≡ 2 * depth
unfolding spaces_of
spaces_of-double depth h = ground arith

enters : (depth : ℕ) → depth ≤ 2 ^ 29 → u32 (space_num depth + 2) ≡ 2 * depth
enters depth h = omega arith

inner : (depth : ℕ) → depth ≤ 2 ^ 29 → space_num (suc depth) ≡ 2 * depth
inner depth h = omega arith

-- The lines behind a call, and behind the return from it.
show_loop-call :
    (v : Visit) (depth : ℕ) (rest : List FtraceNode)
    → depth ≤ 2 ^ 29
    → show_loop (space_num depth) (call_node v ∷ rest)
      ≡ call_line v.call_addr (2 * depth) v.func_name v.func_addr
        ∷ show_loop (space_num (suc depth)) rest
unfolding show_loop
show_loop-call v depth rest h = rw (enters depth h, inner depth h, spaces_of-double depth h) refl

show_loop-ret :
    (v : Visit) (depth : ℕ) (rest : List FtraceNode)
    → depth ≤ 2 ^ 29
    → show_loop (space_num (suc depth)) (ret_node v ∷ rest)
      ≡ ret_line v.ret_addr (2 * depth) v.ret_name ∷ show_loop (space_num depth) rest
unfolding show_loop
show_loop-ret v depth rest h = rw (inner depth h, spaces_of-double depth h) refl

show_loop-history :
    (c : Calls) (depth : ℕ) (rest : List FtraceNode)
    → depth + height c ≤ 2 ^ 29
    → show_loop (space_num depth) (history c ++ rest)
      ≡ layout depth c ++ show_loop (space_num depth) rest
show_loop-history finished depth rest h = refl
show_loop-history (visit v inside behind) depth rest h =
    let line = call_line v.call_addr (2 * depth) v.func_name v.func_addr in
    let returned = ret_line v.ret_addr (2 * depth) v.ret_name in
    let d : depth ≤ 2 ^ 29 = ground arith in
    let i : suc depth + height inside ≤ 2 ^ 29 = ground arith in
    let b : depth + height behind ≤ 2 ^ 29 = ground arith in
    let after = history behind ++ rest in
    show_loop-call v depth ((history inside ++ ret_node v ∷ history behind) ++ rest) d
    ∙ ap (λ l. line ∷ show_loop (space_num (suc depth)) l)
        (append_assoc (history inside) (ret_node v ∷ history behind) rest)
    ∙ ap (λ l. line ∷ l) (show_loop-history inside (suc depth) (ret_node v ∷ after) i)
    ∙ ap (λ l. line ∷ (layout (suc depth) inside ++ l)) (show_loop-ret v depth after d)
    ∙ ap (λ l. line ∷ (layout (suc depth) inside ++ returned ∷ l))
        (show_loop-history behind depth rest b)
    ∙ ap (λ l. line ∷ l)
        (sym (
          append_assoc (layout (suc depth) inside) (returned ∷ layout depth behind)
            (show_loop (space_num depth) rest)))

-- For a trace of nested calls, at most 2 ^ 29 deep, show_ftrace prints each call and its return at
-- two spaces for every call around them.
pub show_ftrace-layout :
    (v : Visit) (inside behind : Calls) (t : Tracer)
    → height (visit v inside behind) ≤ 2 ^ 29
    → t.nodes ≡ some (history (visit v inside behind))
    → show_ftrace t ≡ done (some (layout 0 (visit v inside behind)))
unfolding show_ftrace show_loop
show_ftrace-layout v inside behind t h e =
    let c = visit v inside behind in
    let shown : show_loop (sub32 0 2) (history c) ≡ layout 0 c =
      ap (show_loop (sub32 0 2)) (sym (append-nil (history c)))
      ∙ show_loop-history c 0 [] (omega (arith, h))
      ∙ append-nil (layout 0 c) in
    rw e (ap (λ l. done (some l)) shown)
