-- ===== src/Reg.antt =====
-- csrc/riscv32/reg.cpp, and the part of `cpu_state` that it reads: the general registers and the pc.
pub mod Display
mod Examples
use fpga_npc.Base.{
  ℕ, zero, suc, ◌+◌, Bool, true, false, none, some, List, [], ◌∷◌, if◌then◌else◌, Outcome, done,
  undefined, ◌>>=◌, codes, str_eq, get_elem?,
}

-- `*cpu.pc_if`, and `*cpu.gpr`: the file of the 31 registers x1 to x31.
pub record Cpu : Type 0 where
  pub pc_if : ℕ
  pub gpr_file : List ℕ

abbrev pub nr_gpr : ℕ
nr_gpr = 32

-- The macro `gpr(i)`, `(*cpu.gpr)[i - 1]`: there is no cell for x0, and none behind x31.
unfoldable pub gpr : Cpu → ℕ → Outcome ℕ
gpr c zero = undefined
gpr c (suc i) = elim (get_elem? c.gpr_file i) [ none ↦ undefined | some v ↦ done v ]

abbrev pub regs : List (List ℕ)
regs =
    codes "$0"
    ∷ codes "ra"
    ∷ codes "sp"
    ∷ codes "gp"
    ∷ codes "tp"
    ∷ codes "t0"
    ∷ codes "t1"
    ∷ codes "t2"
    ∷ codes "s0"
    ∷ codes "s1"
    ∷ codes "a0"
    ∷ codes "a1"
    ∷ codes "a2"
    ∷ codes "a3"
    ∷ codes "a4"
    ∷ codes "a5"
    ∷ codes "a6"
    ∷ codes "a7"
    ∷ codes "s2"
    ∷ codes "s3"
    ∷ codes "s4"
    ∷ codes "s5"
    ∷ codes "s6"
    ∷ codes "s7"
    ∷ codes "s8"
    ∷ codes "s9"
    ∷ codes "s10"
    ∷ codes "s11"
    ∷ codes "t3"
    ∷ codes "t4"
    ∷ codes "t5"
    ∷ codes "t6"
    ∷ []

-- The loop over the names: the value and `*success`.
unfoldable pub reg_loop : Cpu → List ℕ → ℕ → List (List ℕ) → Outcome (ℕ × Bool)
reg_loop c s i [] = done (0, false)
reg_loop c s i (name ∷ names) =
    let on = reg_loop c s (i + 1) names in
    if str_eq name s then (do v ← gpr c i; done (v, true)) else on

unfoldable pub isa_reg_str2val : Cpu → List ℕ → Outcome (ℕ × Bool)
isa_reg_str2val c s = if str_eq s (codes "pc") then done (c.pc_if, true) else reg_loop c s 0 regs

-- The lines of `reg_display`: name and value of x1 to x31.
unfoldable pub display_loop : Cpu → ℕ → List (List ℕ) → Outcome (List (List ℕ × ℕ))
display_loop c i [] = done []
display_loop c i (name ∷ names) = do
  v ← gpr c i
  rest ← display_loop c (i + 1) names
  done ((name, v) ∷ rest)

unfoldable pub reg_display : Cpu → Outcome (List (List ℕ × ℕ))
reg_display c = elim regs [ [] ↦ done [] | zero_name ∷ names ↦ display_loop c 1 names ]

-- `reg_name`: a read of the table of names.
unfoldable pub reg_name : ℕ → Outcome (List ℕ)
reg_name i = elim (get_elem? regs i) [ none ↦ undefined | some s ↦ done s ]
