-- ===== src/Watchpoint/Examples.antt =====
-- Runs of the pool of watchpoints on a small state.
use fpga_npc.Base.{
  ◌*◌, ◌≡◌, refl, false, none, some, List, [], ◌∷◌, ◌==◌, if◌then◌else◌, done, arith, codes,
}
use fpga_npc.Watchpoint.{Pool, Watchpoints, free_wp}
use fpga_npc.Watchpoint.Invariant.{Holds, Takes, new_wp-Holds}
use fpga_npc.Watchpoint.Release.{Cleared, free_wp-Holds, free_wp-leak}
use fpga_npc.Watchpoint.Refinement.{Call, adds, deletes, run, view_run, Refines, run-Refines}

-- Cells 2 and 5 are in use; 1 and 3 are free.
abbrev small_pool : Pool
small_pool a = record {
  no = a;
  next = if a == 2 then some 5 else if a == 1 then some 3 else none;
  what = codes "pc";
  value = 7 * a;
  trigger_flag = false;
}

abbrev pub small : Watchpoints
small = record { wp_pool = small_pool; head = some 2; free_ = some 1 }

-- The same with no free cell.
abbrev full : Watchpoints
full = record small { free_ = none }

pub small-Holds : Holds small (2 ∷ 5 ∷ []) (1 ∷ 3 ∷ [])
small-Holds = record {
  used_listed = (refl, (refl, refl));
  free_listed = (refl, (refl, refl));
  used_within = omega arith;
  free_within = omega arith;
  apart = λ a h. ground arith;
  numbered = λ a h. refl;
}

full-Holds : Holds full (2 ∷ 5 ∷ []) []
full-Holds = record {
  used_listed = (refl, (refl, refl));
  free_listed = refl;
  used_within = omega arith;
  free_within = omega arith;
  apart = λ a h. refl;
  numbered = λ a h. refl;
}

abbrev history : List Call
history = adds ∷ deletes 2 ∷ adds ∷ deletes 40 ∷ deletes 9 ∷ []

run-Refines_example :
    Refines (run history small) (view_run history (record { used = 2 ∷ 5 ∷ []; free = 1 ∷ 3 ∷ [] }))
run-Refines_example =
    run-Refines history small (record { used = 2 ∷ 5 ∷ []; free = 1 ∷ 3 ∷ [] }) small-Holds

new_wp-Holds_example : (t : Watchpoints) × Holds t (1 ∷ 2 ∷ 5 ∷ []) (3 ∷ []) × Takes small 1 t
new_wp-Holds_example = new_wp-Holds small (2 ∷ 5 ∷ []) 1 (3 ∷ []) small-Holds

free_wp-Holds_example :
    (t : Watchpoints) × (free_wp 5 small ≡ done t)
    × Holds t (2 ∷ []) (1 ∷ 3 ∷ 5 ∷ [])
    × Cleared 5 small t
free_wp-Holds_example = free_wp-Holds 5 small (2 ∷ 5 ∷ []) 1 (3 ∷ []) small-Holds refl

free_wp-leak_example :
    (t : Watchpoints) × (free_wp 5 full ≡ done t) × Holds t (2 ∷ []) [] × Cleared 5 full t
free_wp-leak_example = free_wp-leak 5 full (2 ∷ 5 ∷ []) full-Holds refl
