-- ===== src/Wave/Waking.antt =====
-- The oldest snapshot when it is woken: it opens the file of `tfp` anew.
use fpga_npc.Base.{
  ℕ, ◌+◌, ◌-◌, ◌/◌, ◌≤◌, ◌≡◌, refl, ap, ◌∙◌, true, not, ◌||◌, ◌==◌, some, List, [], ◌∷◌, ◌++◌, done,
  u32, u64, arith,
}
use fpga_npc.LightSss.{
  LightSss, ShInfo, fork_child, in_child, kill_oldest, forked, shwait, do_fork, is_child,
}
use fpga_npc.LightSss.Slots.{Slots, Shows}
use fpga_npc.Wave.{Tracing, divide_condition, after_fork, dump_if, dump_wave}
use fpga_npc.Wave.Window.{Parent}
use fpga_npc.Wave.Replay.{Woken, written, dump-in_time}
use fpga_npc.Wave.Original.{counting, one_fork}

-- The process number `own` goes on when it is the oldest and the run was not good.
pub record Wakes (own g : ℕ) (info : ShInfo) : Type 0 where
  pub not_good : info.notgood ≡ true
  pub is_oldest : info.oldest ≡ own
  pub in_time : g ≤ info.end_cycles

do_fork-in_child :
    (own g : ℕ) (info : ShInfo) (s : LightSss) (alive dead : List ℕ)
    → Wakes own g info
    → Shows s (record { alive = alive; dead = dead })
    → (v : LightSss) × (do_fork (in_child own info) s ≡ done (fork_child, v))
      × (v.wait_process ≡ true)
      × (v.info ≡ info)
unfolding do_fork kill_oldest forked shwait
do_fork-in_child own g info s [] dead k h =
    let oldest : (info.oldest == own) ≡ true = ground (arith, k.is_oldest) in
    (
      record s { wait_process = true; info = info },
      rw (h.counted, k.not_good, oldest) refl,
      refl,
      refl,
    )
do_fork-in_child own g info s (p ∷ []) dead k h =
    let oldest : (info.oldest == own) ≡ true = ground (arith, k.is_oldest) in
    (
      record s { wait_process = true; info = info },
      rw (h.counted, k.not_good, oldest) refl,
      refl,
      refl,
    )
do_fork-in_child own g info s (p ∷ q ∷ []) dead k h =
    let oldest : (info.oldest == own) ≡ true = ground (arith, k.is_oldest) in
    (
      record s {
        slot_cnt = s.slot_cnt - 1;
        pid_slot = p ∷ [];
        killed = s.killed ++ q ∷ [];
        wait_process = true;
        info = info;
      },
      rw (h.counted, h.listed, k.not_good, oldest) refl,
      refl,
      refl,
    )
do_fork-in_child own g info s (p ∷ q ∷ r ∷ ps) dead k h = absurd (omega (arith, h.few))

-- A snapshot is forked in this cycle.
abbrev pub Forks : ℕ → Tracing → Type 0
Forks g t = not (t.wave.count == u32 (g / 500000)) || (g == 0) ≡ true

-- The call that forked the snapshot, in the snapshot: it opens the file anew and records the first time.
pub call-Woken :
    (own g : ℕ) (info : ShInfo) (t : Tracing) (s : Slots)
    → Parent t
    → Shows t.lightsss s
    → Forks g t
    → Wakes own g info
    → (u : Tracing) × (dump_wave (in_child own info) g t ≡ done (some u))
      × Woken u
      × (u.lightsss.info ≡ info)
      × (u.npc ≡ t.npc)
      × (u.wave.main_time ≡ u64 (t.wave.main_time + 1))
      × (u.wave.dumped ≡ t.wave.main_time ∷ [])
unfolding divide_condition dump_if after_fork is_child
call-Woken own g info t s p h y k =
    let c = u32 (g / 500000) in
    let f = in_child own info in
    let (v, e, wait, same) = do_fork-in_child own g info t.lightsss s.alive s.dead k h in
    let w = record (counting f g c t) {
      lightsss = v;
      wave = record t.wave { count = c; start_waveform = true; dumped = [] };
    } in
    let divided : divide_condition g t.wave ≡ (true, record t.wave { count = c }) = rw y refl in
    (
      record w { wave = written w.wave },
      one_fork f g c t divided p.no_child
          ∙ rw e (ap (λ x. done (some x)) (dump-in_time g w refl (rw same k.in_time))),
      record { child = wait; started = refl },
      same,
      refl,
      refl,
      refl,
    )
