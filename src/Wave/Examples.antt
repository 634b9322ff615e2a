-- ===== src/Wave/Examples.antt =====
-- Small runs with snapshots.
use fpga_npc.Base.{
  ℕ, ◌+◌, ◌≡◌, refl, false, some, List, map, codes, All, [], ◌∷◌, ◌++◌, done, arith,
}
use fpga_npc.Npc.{npc_state}
use fpga_npc.LightSss.{LightSss, start_info, is_child}
use fpga_npc.LightSss.Slots.{Shows, wake_and_clear}
use fpga_npc.Wave.{Tracing, dump_waves}
use fpga_npc.Wave.Divide.{
  find_last_of_dot, base_name, decimal_text, new_wave_file, Dividing, dump_all,
}
use fpga_npc.Wave.Undivided.{call_of, Forking, Idle, Named, dump_all-undivided}
use fpga_npc.Wave.Window.{cycles, Numbers, Parent}
use fpga_npc.Wave.Failure.{Replays, failure-Replays}

abbrev fresh : Tracing
fresh = record {
  wave = record { count = 0; start_waveform = false; main_time = 0; dumped = [] };
  lightsss = record {
    slot_cnt = 0;
    wait_process = false;
    pid_slot = [];
    info = start_info;
    killed = [];
  };
  npc = npc_state;
}

fresh-Parent : Parent fresh
unfolding is_child
fresh-Parent = record { no_child = refl; not_started = refl }

fresh-Shows : Shows fresh.lightsss (record { alive = []; dead = [] })
fresh-Shows = record { listed = refl; counted = refl; few = omega arith; dead_listed = refl }

abbrev pid_of : ℕ → ℕ
pid_of k = 4711 + k

pid_of-Numbers : Numbers pid_of
pid_of-Numbers = record {
  not_zero = λ k e. absurd (omega (arith, e));
  distinct = λ j k ne e. ne (omega (arith, e));
}

-- The run fails in cycle 1700000: the snapshot of cycle 1000000 is woken.
failure-Replays_example :
    (u : Tracing) × (l : LightSss) × (dump_waves (cycles pid_of 0 1700001) fresh ≡ done (some u))
    × (wake_and_clear 1700001 u.lightsss ≡ done l)
    × (l.pid_slot ≡ [])
    × Replays pid_of 1700000 fresh l.info
failure-Replays_example =
    failure-Replays pid_of 1700000 fresh (record { alive = []; dead = [] }) pid_of-Numbers
      fresh-Parent fresh-Shows

name-text :
    new_wave_file (codes "logs/wave.vcd") (codes "1125_233600") 12345678
    ≡ codes "logs/wave_1125_233600_12.fst"
unfolding new_wave_file base_name find_last_of_dot decimal_text
name-text = refl

-- A dot in a folder's name counts as the dot of the file.
folder-text : new_wave_file (codes "./wave") (codes "1125_233600") 0 ≡ codes "_1125_233600_0.fst"
unfolding new_wave_file base_name find_last_of_dot decimal_text
folder-text = refl

abbrev wave_fst : List ℕ
wave_fst = codes "wave.fst"

abbrev dividing : Dividing
dividing = record { tracing = fresh; wave_file = some wave_fst; opened = wave_fst ∷ [] }

dividing-Idle : Idle dividing
dividing-Idle = record {
  parent = fresh-Parent;
  no_time = refl;
  nothing = refl;
  slots = record { alive = []; dead = [] };
  shows = fresh-Shows;
}

-- The first cycle and the next two windows.
abbrev three_forks : List Forking
three_forks =
    record { pid = 7; local_time = codes "1125_233600"; g_nr_cycle = 0 }
    ∷ record { pid = 8; local_time = codes "1125_233603"; g_nr_cycle = 500000 }
    ∷ record { pid = 9; local_time = codes "1125_233606"; g_nr_cycle = 1000000 }
    ∷ []

dump_all-undivided_example :
    (names : List (List ℕ)) × (e : Dividing) × (dump_all false (map call_of three_forks) dividing
      ≡ done (some e))
    × (e.tracing.wave.dumped ≡ [])
    × (e.opened ≡ (wave_fst ∷ []) ++ names)
    × All (Named wave_fst) names
dump_all-undivided_example = dump_all-undivided wave_fst three_forks dividing dividing-Idle refl
