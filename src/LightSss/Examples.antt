-- ===== src/LightSss/Examples.antt =====
-- Runs of the snapshots.
use fpga_npc.Base.{◌≡◌, refl, false, [], ◌∷◌, done, arith}
use fpga_npc.LightSss.{LightSss, start_info}
use fpga_npc.LightSss.Slots.{Shows, forks, forks-Shows}

abbrev fresh : LightSss
fresh = record { slot_cnt = 0; wait_process = false; pid_slot = []; info = start_info; killed = [] }

fresh-Shows : Shows fresh (record { alive = []; dead = [] })
fresh-Shows = record { listed = refl; counted = refl; few = omega arith; dead_listed = refl }

forks-Shows_example :
    (t : LightSss) × (forks (11 ∷ 12 ∷ 13 ∷ 14 ∷ []) fresh ≡ done t)
    × Shows t (record { alive = 14 ∷ 13 ∷ []; dead = 11 ∷ 12 ∷ [] })
forks-Shows_example =
    forks-Shows (11 ∷ 12 ∷ 13 ∷ 14 ∷ []) fresh (record { alive = []; dead = [] }) fresh-Shows
