-- ===== src/Start/Status.antt =====
-- The exit status of whole runs.
use fpga_npc.Base.{
  ℕ, zero, suc, ◌-◌, ◌^◌, ◌<◌, ◌≡◌, refl, ◌∙◌, true, false, inl, some, List, [], ◌∷◌, done, ◌>>=◌,
  arith, codes,
}
use fpga_npc.Npc.{is_exit_status_bad}
use fpga_npc.Difftest.{DiffContext}
use fpga_npc.Difftest.Init.{pc_init, Library, load_library, read_context, init_difftest}
use fpga_npc.Watchpoint.{init_wp_pool}
use fpga_npc.Memory.Ddr.{Memories}
use fpga_npc.Elf.{Tracer}
use fpga_npc.CpuExec.{World, Host}
use fpga_npc.CpuExec.Cycles.{after, next, Calm}
use fpga_npc.CpuExec.Calls.{handle_all-harmless}
use fpga_npc.CpuExec.Reset.{reset_loop, reset}
use fpga_npc.CpuExec.Lockstep.{Lockstep, Synced}
use fpga_npc.CpuExec.GoodTrap.{cpu_exec-good_trap}
use fpga_npc.Sdb.{strtok}
use fpga_npc.Sdb.Commands.{cmd_c, exec_command}
use fpga_npc.Sdb.Loop.{sdb_mainloop, line_loop, init_sdb}
use fpga_npc.Sdb.Words.{sdb_mainloop-quit}
use fpga_npc.Start.{Opt, Options, no_options, parse_args, Files, System, found_in, bytes_from}
use fpga_npc.Start.Boot.{
  no_difftest, start_host, with_ref, load_files, boot, finish, run_main, main,
}

module _ {D R : Type 0} (w : World D R) where
  reset_loop-calm :
      (n : ℕ) (h : Host D R)
      → Calm w n h.top
      → reset_loop w n h ≡ done (record h { top = after (next w) n h.top })
  unfolding reset_loop
  reset_loop-calm zero h q = refl
  reset_loop-calm (suc n) h q =
      let t = record h { top = next w h.top } in
      rw (handle_all-harmless (w.dut.cycle h.top).0 t (q 0 (omega arith)), ◌>>=◌)
        (reset_loop-calm n t (λ j l. q (suc j) (omega arith)))

module _ {D R : Type 0} (sys : System D R) (files : Files R) where
  -- What has to be there for a start: the files and the library, which takes the image, and the
  -- registers of the core; and the core's calls leave the host alone while it is reset.
  pub record Boots (o : Options) : Type 0 where
    pub img_size : ℕ
    pub mem : Memories
    pub tracer : Tracer
    pub lib : Library R
    pub loaded : R
    pub ctx : DiffContext
    pub has_files : load_files sys files o ≡ done (img_size, mem, tracer)
    pub has_library : load_library (found_in files.library_of o.diff_so_file) ≡ done lib
    pub calm : Calm sys.world 100 (sys.set_reset true (sys.power_on tracer mem))
    pub takes_image :
        lib.memcpy pc_init (bytes_from img_size 0 mem.pmem) true (lib.init o.difftest_port)
        ≡ done loaded
    pub has_registers :
        read_context sys.before
          (sys.world.dut.core (
            sys.set_reset false
              (after (next sys.world) 100 (sys.set_reset true (sys.power_on tracer mem)))))
          (no_difftest sys.unloaded).ctx
        ≡ done ctx

  module _ (o : Options) (b : Boots o) where
    -- The core and the reference model at the start of the main loop.
    abbrev pub core_start : D
    core_start =
        sys.set_reset false
          (after (next sys.world) 100 (sys.set_reset true (sys.power_on b.tracer b.mem)))

    abbrev pub ref_start : R
    ref_start = b.lib.functions.regcpy_to_ref b.ctx b.loaded

    abbrev booted : Host D R
    booted = record (init_sdb (start_host sys files core_start)) {
      difftest = record (no_difftest sys.unloaded) { ctx = b.ctx; ref = ref_start };
    }

    boot-booted : boot sys files o ≡ done (b.lib.functions, booted)
    unfolding boot reset init_sdb init_difftest
    boot-booted =
        let started = init_sdb (start_host sys files (sys.power_on b.tracer b.mem)) in
        let held = record started { top = sys.set_reset true started.top } in
        rw
          (
            b.has_files,
            reset_loop-calm sys.world 100 held b.calm,
            b.has_library,
            b.takes_image,
            b.has_registers,
          )
          refl

    boots :
        (argv : List Opt) (lines : List (List ℕ))
        → parse_args argv no_options ≡ some o
        → main sys files argv lines
          ≡ finish sys files o.is_batch_mode lines (b.lib.functions, booted)
    unfolding main run_main
    boots argv lines e = rw (e, run_main) (rw boot-booted refl)

    booted-Synced :
        (Rel : ℕ → D → R → Type 0) (m : ℕ)
        → Rel m core_start ref_start
        → Synced (with_ref sys files b.lib.functions) Rel m booted
    unfolding init_sdb init_wp_pool
    booted-Synced Rel m r = record {
      related = r;
      no_skips = refl;
      no_contexts = refl;
      at_pc = inl refl;
      no_watchpoints = refl;
    }

    good_batch :
        (Rel : ℕ → D → R → Type 0) (m : ℕ) (lines : List (List ℕ))
        → Lockstep (with_ref sys files b.lib.functions) Rel
        → Rel m core_start ref_start
        → m < 2 ^ 64 - 1
        → finish sys files true lines (b.lib.functions, booted) ≡ done 0
    unfolding finish sdb_mainloop cmd_c exec_command init_sdb
    good_batch Rel m lines lockstep r l =
        let (t, e, over, good, insts) =
          cpu_exec-good_trap (with_ref sys files b.lib.functions) Rel booted (2 ^ 64 - 1) m lockstep
            refl l (booted-Synced Rel m r) in
        rw (e, good) refl

-- For options with -b, when the files and the library are there, the library takes the image, the
-- register file of the core can be read, and the core calls only ebreak with other instructions,
-- and update_csr, in the 100 cycles of the reset: if core and reference model then start in a
-- relation that a lockstep of both keeps, m < 2 ^ 64 - 1 instructions before one that traps, main
-- ends with exit status 0. In lockstep, each of these instructions of the core retires within 19999
-- cycles at the model's pc, without a flush for an interrupt, and leaves the 31 registers that the
-- model's instruction leaves; in its cycles the core calls only ebreak with other instructions, and
-- update_csr. The one that traps retires as soon; in its cycles the core calls ebreak with 0x100073
-- at least once, always with 0 in a0, and else only as before.
pub main-good_trap :
    {D : Type 0} {R : Type 0} (sys : System D R) (files : Files R) (argv : List Opt)
    (lines : List (List ℕ)) (o : Options) (b : Boots sys files o) (Rel : ℕ → D → R → Type 0) (m : ℕ)
    → parse_args argv no_options ≡ some o
    → o.is_batch_mode ≡ true
    → Lockstep (with_ref sys files b.lib.functions) Rel
    → Rel m (core_start sys files o b) (ref_start sys files o b)
    → m < 2 ^ 64 - 1
    → main sys files argv lines ≡ done 0
main-good_trap sys files argv lines o b Rel m e batch lockstep r l =
    boots sys files o b argv lines e ∙ rw batch (good_batch sys files o b Rel m lines lockstep r l)

-- For options without -b, when the files and the library are there, the library takes the image, the
-- register file can be read and the core's calls in the 100 cycles of the reset leave the host alone,
-- main ends with exit status 1 when no line is typed, and with 0 when
-- the first word of the first line is q.
pub main-first_line :
    {D : Type 0} {R : Type 0} (sys : System D R) (files : Files R) (argv : List Opt) (o : Options)
    (b : Boots sys files o)
    → parse_args argv no_options ≡ some o
    → o.is_batch_mode ≡ false
    → (main sys files argv [] ≡ done 1)
      × ((line : List ℕ) (lines : List (List ℕ))
          → (strtok line).0 ≡ some (codes "q")
          → main sys files argv (line ∷ lines) ≡ done 0)
unfolding finish sdb_mainloop line_loop is_exit_status_bad init_sdb
main-first_line sys files argv o b e batch = (
  boots sys files o b argv [] e ∙ rw batch refl,
  λ line lines q.
      let (t, f, quits, good) =
        sdb_mainloop-quit (with_ref sys files b.lib.functions) sys.trace_of line lines
          (booted sys files o b) q in
      boots sys files o b argv (line ∷ lines) e ∙ rw (batch, f, good) refl,
)
