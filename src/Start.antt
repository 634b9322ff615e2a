-- ===== src/Start.antt =====
-- csrc/sim_main.cpp: the options, the parts that are initialised and the exit status; and `init_log` of
-- csrc/utils/log.cc. The core as it is made, the files and what `getopt_long` gives are arguments.
pub mod Boot
pub mod Status
mod Examples
use fpga_npc.Base.{
  ℕ, zero, suc, ◌+◌, Bool, true, false, Option, none, some, List, [], ◌∷◌, if◌then◌else◌, Outcome,
  done, aborted, ◌>>=◌,
}
use fpga_npc.Npc.{npc_state, is_exit_status_bad}
use fpga_npc.Difftest.{Reference, Difftest}
use fpga_npc.Difftest.Init.{Library, init_difftest}
use fpga_npc.LightSss.{start_info}
use fpga_npc.Watchpoint.{Watchpoints}
use fpga_npc.Memory.{Bytes}
use fpga_npc.Memory.Ddr.{Memories, load_img}
use fpga_npc.Elf.{Tracer}
use fpga_npc.Elf.File.{init_elf}
use fpga_npc.CpuExec.{World, Host}
use fpga_npc.CpuExec.Reset.{reset}
use fpga_npc.Sdb.{Message}
use fpga_npc.Sdb.Loop.{sdb_mainloop, init_sdb}

-- What `getopt_long` returns, with `optarg`; `port` has what `sscanf` reads of it.
pub data Opt : Type 0 where
  batch : Opt
  waveform : List ℕ → Opt
  log : List ℕ → Opt
  diff : List ℕ → Opt
  port : Option ℕ → Opt
  elf : List ℕ → Opt
  operand : List ℕ → Opt
  other : Opt

-- The static variables, and `is_batch_mode`.
pub record Options : Type 0 where
  pub wave_file : Option (List ℕ)
  pub img_file : Option (List ℕ)
  pub elf_file : Option (List ℕ)
  pub log_file : Option (List ℕ)
  pub diff_so_file : Option (List ℕ)
  pub difftest_port : ℕ
  pub is_batch_mode : Bool

abbrev pub no_options : Options
no_options = record {
  wave_file = none;
  img_file = none;
  elf_file = none;
  log_file = none;
  diff_so_file = none;
  difftest_port = 1234;
  is_batch_mode = false;
}

-- The `switch`, but for the case that exits.
unfoldable pub set_option : Opt → Options → Option Options
set_option batch o = some (record o { is_batch_mode = true })
set_option (waveform s) o = some (record o { wave_file = some s })
set_option (log s) o = some (record o { log_file = some s })
set_option (diff s) o = some (record o { diff_so_file = some s })
set_option (port none) o = some o
set_option (port (some n)) o = some (record o { difftest_port = n })
set_option (elf s) o = some (record o { elf_file = some s })
set_option (operand s) o = some (record o { img_file = some s })
set_option other o = none

-- The loop; `none` is `exit(0)`.
unfoldable pub parse_args : List Opt → Options → Option Options
parse_args [] o = some o
parse_args (x ∷ xs) o = elim (set_option x o) [ none ↦ none | some p ↦ parse_args xs p ]

-- `log_fp`
pub data LogFile : Type 0 where
  to_stdout : LogFile
  to_file : List ℕ → LogFile

-- `opens` is whether `fopen` opens the file.
unfoldable pub init_log : (List ℕ → Bool) → Option (List ℕ) → Outcome LogFile
init_log opens none = done to_stdout
init_log opens (some log_file) = if opens log_file then done (to_file log_file) else aborted

-- What is found under the names of files.
pub record Files (R : Type 0) : Type 0 where
  pub opens : List ℕ → Bool
  pub bytes_of : List ℕ → Option (List ℕ)
  pub library_of : List ℕ → Option (Library R)

-- The simulation: the core as it is made, when the memories and the table of functions are loaded,
-- its input `reset`, its trace of calls, the word in front of its register file, the memories at the
-- start, and a value that stands for the reference model before it is loaded.
pub record System (D R : Type 0) : Type 0 where
  pub world : World D R
  pub power_on : Tracer → Memories → D
  pub set_reset : Bool → D → D
  pub trace_of : D → Tracer
  pub before : ℕ
  pub memories : Memories
  pub unloaded : R

-- A file name, if there is one, and what is found under it.
abbrev pub found_in {ℓ} : {A : Type ℓ} → (List ℕ → A) → Option (List ℕ) → Option A
found_in f none = none
found_in f (some name) = some (f name)

-- `load_img` with the file that `fopen` gives.
unfoldable pub open_img : Option (Option (List ℕ)) → Memories → Outcome (ℕ × Memories)
open_img none m = load_img none m
open_img (some none) m = aborted
open_img (some (some file)) m = load_img (some file) m

-- The first bytes of an array, from number `i` on.
unfoldable pub bytes_from : ℕ → ℕ → Bytes → List ℕ
bytes_from zero i mem = []
bytes_from (suc n) i mem = mem i ∷ bytes_from n (i + 1) mem
