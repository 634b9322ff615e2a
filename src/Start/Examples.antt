-- ===== src/Start/Examples.antt =====
-- A batch run of the core of CpuExec.Agreeing, with an image of three bytes and no other files but the
-- library. The cycles of the reset do not move this core.
use fpga_npc.Base.{
  ℕ, zero, suc, ◌+◌, ◌≡◌, refl, if◌then◌else◌, Bool, true, false, none, some, List, [], ◌∷◌, done,
  arith, codes, replicate,
}
use fpga_npc.Reg.{gpr}
use fpga_npc.Difftest.{DiffContext, read_gprs}
use fpga_npc.Difftest.Init.{Library, load_library, read_context}
use fpga_npc.Memory.Ddr.{Memories}
use fpga_npc.Memory.Image.{load_img-image}
use fpga_npc.Elf.File.{init_elf}
use fpga_npc.CpuExec.Cycles.{after, next, Calm}
use fpga_npc.CpuExec.Agreeing.{calls-harmless, signals, reference, agreeing, Rel, agreeing-Lockstep}
use fpga_npc.Start.{
  Opt, batch, diff, operand, Options, no_options, set_option, parse_args, init_log, Files, System,
  open_img,
}
use fpga_npc.Start.Boot.{no_tracer, load_files, main}
use fpga_npc.Start.Status.{Boots, main-good_trap}

abbrev library : Library ℕ
library = record {
  symbols =
      codes "difftest_memcpy"
      ∷ codes "difftest_regcpy"
      ∷ codes "difftest_exec"
      ∷ codes "difftest_init"
      ∷ codes "difftest_raise_intr"
      ∷ [];
  functions = reference;
  init = λ port. 0;
  memcpy = λ addr buf to_ref r. done r;
}

-- An image of five bytes.
abbrev image : List ℕ
image = 0x13 ∷ 0 ∷ 0 ∷ 0 ∷ 0x73 ∷ []

abbrev files : Files ℕ
files = record { opens = λ _. true; bytes_of = λ _. some image; library_of = λ _. some library }

abbrev sys : System ℕ ℕ
sys = record {
  world = agreeing;
  power_on = λ _ _. 0;
  set_reset = λ b d. if b then 1000 else 0;
  trace_of = λ _. no_tracer;
  before = 77;
  memories = record {
    pmem = λ _. 0;
    flash = λ _. 0;
    sdram = record { cells = λ _. 0; actived_rows = λ _. none };
  };
  unloaded = 0;
}

-- `-b -d ref.so image`, and the same without `-b`.
abbrev argv : Bool → List Opt
argv b =
    if b
    then batch ∷ diff (codes "ref.so") ∷ operand (codes "image") ∷ []
    else diff (codes "ref.so") ∷ operand (codes "image") ∷ []

abbrev options : Bool → Options
options b = record no_options {
  diff_so_file = some (codes "ref.so");
  img_file = some (codes "image");
  is_batch_mode = b;
}

argv-options : (b : Bool) → parse_args (argv b) no_options ≡ some (options b)
unfolding parse_args set_option
argv-options true = refl
argv-options false = refl

abbrev mem : Memories
mem = (load_img-image image sys.memories (omega arith) (omega arith)).0

loads-mem : (b : Bool) → load_files sys files (options b) ≡ done (5, mem, no_tracer)
unfolding load_files init_log init_elf open_img
loads-mem b = rw ((load_img-image image sys.memories (omega arith) (omega arith)).1) refl

after-add : (j d : ℕ) → after (next agreeing) j d ≡ d + j
after-add zero d = omega arith
after-add (suc j) d = omega (arith, after-add j (d + 1))

reset-Calm : Calm agreeing 100 1000
reset-Calm j h = calls-harmless (after (next agreeing) j 1000) (omega (arith, after-add j 1000))

abbrev ctx : DiffContext
ctx = record {
  ctx_gpr = 77 ∷ replicate 31 0;
  pc = 0x10000000;
  ctx_csrs = 0 ∷ 0 ∷ 0 ∷ 0 ∷ 0 ∷ 0 ∷ 0x79737978 ∷ 0x23060051 ∷ [];
}

registers-ctx :
    read_context 77 (signals 0) (record { ctx_gpr = []; pc = 0; ctx_csrs = [] }) ≡ done ctx
unfolding read_context read_gprs gpr
registers-ctx = refl

library-loads : load_library (some (some library)) ≡ done library
unfolding load_library
library-loads = refl

abbrev booting : (b : Bool) → Boots sys files (options b)
booting b = record {
  img_size = 5;
  mem = mem;
  tracer = no_tracer;
  lib = library;
  loaded = 0;
  ctx = ctx;
  has_files = loads-mem b;
  has_library = library-loads;
  calm = reset-Calm;
  takes_image = refl;
  has_registers = registers-ctx;
}

main-good_trap_example : main sys files (argv true) [] ≡ done 0
main-good_trap_example =
    main-good_trap sys files (argv true) [] (options true) (booting true) Rel 3 (argv-options true)
      refl agreeing-Lockstep (refl, refl) (omega arith)
