-- ===== src/CpuExec/Waveform.antt =====
-- `exec_once`, `trace_and_difftest` and `excute` of csrc/cpu/cpu-exec.cpp in a build with
-- CONFIG_DIFFTEST and CONFIG_WAVEFORM and without CONFIG_WAVEFORM_DIVIDE and CONFIG_ITRACE. What `fork`
-- returns is an argument; `none` is a process that exits.
use fpga_npc.Base.{
  ℕ, zero, suc, ◌+◌, Bool, true, false, Option, none, some, List, ◌++◌, ◌==◌, Outcome, done,
  out_of_fuel, ◌>>=◌, u64,
}
use fpga_npc.Npc.{npc_abort, is_running, Core}
use fpga_npc.Difftest.{Reference}
use fpga_npc.LightSss.{Fork}
use fpga_npc.Wave.{Wave, Tracing, dump_wave}
use fpga_npc.CpuExec.{
  DpiCall, Dut, World, Host, death_loop, set_state, handle_all, watch, trace_and_difftest,
}

-- The simulated core, with an `eval` for each value of the clock.
pub record Halves (D : Type 0) : Type 0 where
  pub half : Bool → D → List (Core × DpiCall) × D
  pub core : D → Core

-- The two halves as one clock cycle.
abbrev pub dut_of : {D : Type 0} → Halves D → Dut D
dut_of t = record {
  cycle =
      λ d. let (calls, e) = t.half false d in let (more, f) = t.half true e in (calls ++ more, f);
  core = t.core;
}

pub record WaveHost (D R : Type 0) : Type 0 where
  pub host : Host D R
  pub wave : Wave

-- The rest of a function, while the process goes on.
infixl 5 ◌>>?◌
abbrev pub ◌>>?◌ {ℓ κ} :
    {A : Type ℓ} {B : Type κ} → Outcome (Option A) → (A → Outcome (Option B)) → Outcome (Option B)
m >>? f = m >>= λ r. elim r [ none ↦ done none | some a ↦ f a ]

module _ {D R : Type 0} where
  abbrev pub tracing_of : WaveHost D R → Tracing
  tracing_of h = record { wave = h.wave; lightsss = h.host.lightsss; npc = h.host.npc }

  abbrev pub with_tracing : WaveHost D R → Tracing → WaveHost D R
  with_tracing h t = record {
    host = record h.host { lightsss = t.lightsss; npc = t.npc };
    wave = t.wave;
  }

  -- `dump_wave` in the cycle of the host.
  unfoldable pub dump_host : Fork → WaveHost D R → Outcome (Option (WaveHost D R))
  dump_host f h =
      dump_wave f h.host.g_nr_cycle (tracing_of h) >>? λ t. done (some (with_tracing h t))

  module _ (halves : Halves D) (ref : Reference R) (skip : ℕ → Bool) where
    -- The program without snapshots.
    abbrev pub plain : World D R
    plain = record { dut = dut_of halves; ref = ref; skip = skip }

  module _ (halves : Halves D) (ref : Reference R) (skip : ℕ → Bool) (forks : Bool → ℕ → Fork) where
    -- `top->clock = value; top->eval(); dump_wave();`
    unfoldable pub eval_dump : Bool → WaveHost D R → Outcome (Option (WaveHost D R))
    eval_dump value h =
        let (calls, d) = halves.half value h.host.top in
        (do
          t ← handle_all calls (record h.host { top = d })
          dump_host (forks value t.g_nr_cycle) (record h { host = t }))

    unfoldable pub clock_wave : WaveHost D R → Outcome (Option (WaveHost D R))
    clock_wave h = eval_dump false h >>? eval_dump true >>? λ u.
        done (some (record u { host = record u.host { g_nr_cycle = u64 (u.host.g_nr_cycle + 1) } }))

    unfoldable pub exec_loop_wave : ℕ → WaveHost D R → Outcome (Option (WaveHost D R))
    exec_loop_wave zero h = out_of_fuel
    exec_loop_wave (suc counter) h = clock_wave h >>? λ t. elim (counter == 0) [
      | true ↦
          done (some (record t { host = record t.host { npc = set_state npc_abort t.host.npc } }))
      | false ↦ elim (halves.core t.host.top).is_done [
        | true ↦ done (some t)
        | false ↦ exec_loop_wave counter t
      ]
    ]

    -- A snapshot that records is not compared with the reference model.
    unfoldable pub trace_and_difftest_wave : WaveHost D R → Outcome (WaveHost D R)
    trace_and_difftest_wave h = do
      t ← elim h.wave.start_waveform [
        | true ↦ watch (plain halves ref skip) h.host
        | false ↦ trace_and_difftest (plain halves ref skip) h.host
      ]
      done (record h { host = t })

    -- `exec_once(); g_nr_guest_inst++;`
    unfoldable pub retire_wave : WaveHost D R → Outcome (Option (WaveHost D R))
    retire_wave h = exec_loop_wave death_loop h >>? λ t. done (
        some (record t {
          host = record t.host { g_nr_guest_inst = u64 (t.host.g_nr_guest_inst + 1) };
        }))

    unfoldable pub excute_wave : ℕ → WaveHost D R → Outcome (Option (WaveHost D R))
    excute_wave zero h = done (some h)
    excute_wave (suc n) h = retire_wave h >>? λ t. elim (is_running t.host.npc.state) [
      | false ↦ done (some t)
      | true ↦ do u ← trace_and_difftest_wave t; excute_wave n u
    ]
