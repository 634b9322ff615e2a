-- ===== src/Start/Boot.antt =====
-- `main` of csrc/sim_main.cpp.
use fpga_npc.Base.{
  ℕ, Bool, false, Option, none, some, List, [], if◌then◌else◌, Outcome, done, ◌>>=◌,
}
use fpga_npc.Npc.{npc_state, is_exit_status_bad}
use fpga_npc.Difftest.{Reference, Difftest}
use fpga_npc.Difftest.Init.{init_difftest}
use fpga_npc.LightSss.{start_info}
use fpga_npc.Watchpoint.{Watchpoints}
use fpga_npc.Memory.Ddr.{Memories}
use fpga_npc.Elf.{Tracer}
use fpga_npc.Elf.File.{init_elf}
use fpga_npc.CpuExec.{World, Host}
use fpga_npc.CpuExec.Reset.{reset}
use fpga_npc.Sdb.Loop.{sdb_mainloop, init_sdb}
use fpga_npc.Start.{
  Opt, Options, no_options, parse_args, init_log, Files, System, found_in, open_img, bytes_from,
}

-- The static variables at the start, which are 0.
abbrev pub no_watchpoints : Watchpoints
no_watchpoints = record {
  wp_pool = λ _. record { no = 0; next = none; what = []; value = 0; trigger_flag = false };
  head = none;
  free_ = none;
}

abbrev pub no_difftest : {R : Type 0} → R → Difftest R
no_difftest r = record {
  pcs_to_skip = [];
  pc_intr_triggered = 0;
  cause_no_intr_triggered = 0;
  diff_npc = 0;
  csr_ctx_q = [];
  ctx = record { ctx_gpr = []; pc = 0; ctx_csrs = [] };
  ref = r;
}

abbrev pub no_tracer : Tracer
no_tracer = record { elf_loaded = false; functab = []; nodes = none }

module _ {D R : Type 0} (sys : System D R) (files : Files R) where
  abbrev pub start_host : D → Host D R
  start_host d = record {
    npc = npc_state;
    g_nr_cycle = 0;
    g_nr_guest_inst = 0;
    watchpoints = no_watchpoints;
    difftest = no_difftest sys.unloaded;
    lightsss = record {
      slot_cnt = 0;
      wait_process = false;
      pid_slot = [];
      info = start_info;
      killed = [];
    };
    top = d;
  }

  -- The world with the functions of the loaded reference model.
  abbrev pub with_ref : Reference R → World D R
  with_ref ref = record sys.world { ref = ref }

  -- The files: the size of the image, the memories and the table of functions.
  unfoldable pub load_files : Options → Outcome (ℕ × Memories × Tracer)
  load_files o = do
    log_fp ← init_log files.opens o.log_file
    tracer ← init_elf (found_in files.bytes_of o.elf_file) no_tracer
    (img_size, m) ← open_img (found_in files.bytes_of o.img_file) sys.memories
    done (img_size, m, tracer)

  -- `init_sdb`, `reset(100)` and `init_difftest`.
  unfoldable pub boot : Options → Outcome (Reference R × Host D R)
  boot o = do
    (img_size, m, tracer) ← load_files o
    h ← reset sys.world sys.set_reset 100 (init_sdb (start_host (sys.power_on tracer m)))
    (ref, d) ←
        init_difftest (found_in files.library_of o.diff_so_file) (bytes_from img_size 0 m.pmem)
          o.difftest_port sys.before (sys.world.dut.core h.top) h.difftest
    done (ref, record h { difftest = d })

  -- `sdb_mainloop(); return is_exit_status_bad();`, with the lines that are typed.
  unfoldable pub finish : Bool → List (List ℕ) → Reference R × Host D R → Outcome ℕ
  finish is_batch_mode lines (ref, h) = do
    (t, printed) ← sdb_mainloop (with_ref ref) sys.trace_of is_batch_mode lines h
    done (if is_exit_status_bad t.npc then 1 else 0)

  unfoldable pub run_main : List (List ℕ) → Option Options → Outcome ℕ
  run_main lines none = done 0
  run_main lines (some o) = do r ← boot o; finish o.is_batch_mode lines r

  -- The exit status.
  unfoldable pub main : List Opt → List (List ℕ) → Outcome ℕ
  main argv lines = run_main lines (parse_args argv no_options)
