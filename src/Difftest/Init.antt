-- ===== src/Difftest/Init.antt =====
-- `init_difftest` of csrc/cpu/dut.cc: the reference model is loaded and gets the image and the registers.
use fpga_npc.Base.{
  ℕ, Bool, true, false, ◌||◌, ◌&&◌, if◌then◌else◌, Option, none, some, List, [], ◌∷◌, Outcome, done,
  aborted, ◌>>=◌, codes, str_eq, get_or,
}
use fpga_npc.Npc.{Core}
use fpga_npc.Difftest.{DiffContext, Reference, Difftest, read_gprs}

-- `PC_INIT` of include/memory/paddr.h.
abbrev pub pc_init : ℕ
pc_init = 0x10000000

-- `DIFFTEST_TO_REF`, as a `bool`.
abbrev pub difftest_to_ref : Bool
difftest_to_ref = true

-- What `dlopen` gives: the names that `dlsym` finds, and the functions. `difftest_init` makes the
-- model's state.
pub record Library (R : Type 0) : Type 0 where
  pub symbols : List (List ℕ)
  pub functions : Reference R
  pub init : ℕ → R
  pub memcpy : ℕ → List ℕ → Bool → R → Outcome R

-- `dlsym(handle, name)` is not `NULL`.
abbrev pub has_symbol : List ℕ → List (List ℕ) → Bool
has_symbol name [] = false
has_symbol name (s ∷ symbols) = str_eq s name || has_symbol name symbols

-- The symbols that are looked up, each with an `assert` that it is there.
abbrev pub has_symbols : List (List ℕ) → Bool
has_symbols symbols =
    has_symbol (codes "difftest_memcpy") symbols
    && has_symbol (codes "difftest_regcpy") symbols
    && has_symbol (codes "difftest_exec") symbols
    && has_symbol (codes "difftest_init") symbols
    && has_symbol (codes "difftest_raise_intr") symbols

-- The registers as `init_difftest` and the macro `gpr` read them: x0 is the word in front of the file.
-- The fields that are not written stay as they were in `ctx`.
unfoldable pub read_context : ℕ → Core → DiffContext → Outcome DiffContext
read_context before c ctx = do
  gprs ← read_gprs 31 1 c
  done (record {
    ctx_gpr = before ∷ gprs;
    pc = pc_init;
    ctx_csrs =
        get_or c.csrs 0 0
        ∷ get_or ctx.ctx_csrs 1 0
        ∷ get_or ctx.ctx_csrs 2 0
        ∷ get_or ctx.ctx_csrs 3 0
        ∷ get_or ctx.ctx_csrs 4 0
        ∷ get_or ctx.ctx_csrs 5 0
        ∷ 0x79737978
        ∷ 0x23060051
        ∷ [];
  })

module _ {R : Type 0} where
  -- The library, with all the symbols that are looked up, in order.
  unfoldable pub load_library : Option (Option (Library R)) → Outcome (Library R)
  load_library none = aborted
  load_library (some none) = aborted
  load_library (some (some l)) = if has_symbols l.symbols then done l else aborted

  -- No file name, a library that `dlopen` does not open, or the library; the bytes of the image in
  -- `pmem`, the port, the word in front of the register file and the signals. The result is the
  -- functions that the pointers are set to, and the variables.
  unfoldable pub init_difftest :
      Option (Option (Library R))
      → List ℕ
      → ℕ
      → ℕ
      → Core
      → Difftest R
      → Outcome (Reference R × Difftest R)
  init_difftest ref_so_file image port before c d = do
    l ← load_library ref_so_file
    r ← l.memcpy pc_init image difftest_to_ref (l.init port)
    ctx ← read_context before c d.ctx
    done (l.functions, record d { ctx = ctx; ref = l.functions.regcpy_to_ref ctx r })
