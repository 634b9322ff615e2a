-- ===== src/CpuExec/Alongside.antt =====
-- Two instructions of a core that runs with snapshots.
use fpga_npc.Base.{none, ℕ, ◌+◌, ◌*◌, refl, Bool, false, [], ◌∷◌, if◌then◌else◌, arith}
use fpga_npc.LightSss.{LightSss, Fork, in_parent, is_child, start_info}
use fpga_npc.Wave.{Wave}
use fpga_npc.CpuExec.{excute}
use fpga_npc.CpuExec.Examples.{host}
use fpga_npc.CpuExec.Agreeing.{signals, reference, calls}
use fpga_npc.CpuExec.Waveform.{Halves, plain, excute_wave}
use fpga_npc.CpuExec.Snapshots.{Original, Follows, at}
use fpga_npc.CpuExec.Undisturbed.{excute-Follows}

abbrev halves : Halves ℕ
halves = record { half = λ value d. if value then (calls d, d + 1) else ([], d); core = signals }

abbrev children : Bool → ℕ → Fork
children value g = in_parent (if value then 2 * g + 1 else 2 * g)

abbrev one_alive : LightSss
one_alive = record {
  slot_cnt = 1;
  wait_process = false;
  pid_slot = 7 ∷ [];
  info = start_info;
  killed = [];
}

abbrev wave : Wave
wave = record { count = 0; start_waveform = false; main_time = 0; dumped = [] }

one_alive-Original : Original one_alive wave
unfolding is_child
one_alive-Original = record {
  no_child = refl;
  not_started = refl;
  slots = record { alive = 7 ∷ []; dead = [] };
  shows = record { listed = refl; counted = refl; few = omega arith; dead_listed = refl };
}

excute-Follows_example :
    Follows
      (excute (plain halves reference (λ _. false)) 2 (host none))
      (excute_wave halves reference (λ _. false) children 2 (at (host none) one_alive wave))
excute-Follows_example =
    excute-Follows halves reference (λ _. false) children
      (λ value g. (if value then 2 * g + 1 else 2 * g, refl)) 2 (host none) one_alive wave
      one_alive-Original
