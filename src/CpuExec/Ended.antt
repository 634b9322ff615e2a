-- ===== src/CpuExec/Ended.antt =====
-- A process with two snapshots that ends by a signal.
use fpga_npc.Base.{◌≡◌, refl, true, false, none, some, [], ◌∷◌, inr, done, undefined}
use fpga_npc.Npc.{npc_state}
use fpga_npc.LightSss.{LightSss, start_info}
use fpga_npc.CpuExec.Handlers.{
  live, freed, Process, sigabrt, sig_dfl, set_handlers, reset_handlers, deliver, assert_macro,
}
use fpga_npc.CpuExec.Handled.{Live, Ended, deliver-Ended, assert_macro-twice}

abbrev two_alive : LightSss
two_alive = record {
  slot_cnt = 2;
  wait_process = false;
  pid_slot = 12 ∷ 11 ∷ [];
  info = start_info;
  killed = [];
}

abbrev process : Process
process = record {
  tfp = live;
  top = live;
  contextp = live;
  lightsss = two_alive;
  npc = npc_state;
  handlers = λ _. sig_dfl;
  ended_by = none;
}

process-Live : Live process
process-Live = record { waveform = refl; core = refl; context = refl }

deliver-Ended_example :
    (q : Process) × (deliver 2 (set_handlers true process) ≡ done q)
    × Ended 2 (11 ∷ 12 ∷ []) process q
deliver-Ended_example =
    deliver-Ended process (11 ∷ 12 ∷ []) process-Live refl true 2 (inr (inr (refl, refl)))

assert_macro-twice_example :
    (assert_macro false (set_handlers false process) ≡ undefined)
    × (assert_macro false (reset_handlers process)
        ≡ done (record (reset_handlers process) {
          top = freed;
          contextp = freed;
          ended_by = some sigabrt;
        }))
assert_macro-twice_example = assert_macro-twice process (11 ∷ 12 ∷ []) process-Live refl false
