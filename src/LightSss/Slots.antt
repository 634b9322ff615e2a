-- ===== src/LightSss/Slots.antt =====
-- Which snapshots are alive after a history of forks.
use fpga_npc.Base.{
  ℕ, ◌+◌, ◌-◌, ◌≤◌, ◌≡◌, refl, ap, ◌≢◌, true, List, [], ◌∷◌, ◌++◌, Outcome, done, undefined, ◌>>=◌,
  arith, length,
}
use fpga_npc.LightSss.{
  LightSss, in_parent, fork_ok, kill_oldest, forked, do_fork, others, wakeup_child, clear_loop,
  do_clear,
}

-- The abstract slots: the processes alive, the newest first, and those killed, the first one first.
pub record Slots : Type 0 where
  pub alive : List ℕ
  pub dead : List ℕ

-- A new process lives; of the others only the newest goes on living.
abbrev pub newest_two : ℕ → List ℕ → List ℕ → Slots
newest_two pid [] dead = record { alive = pid ∷ []; dead = dead }
newest_two pid (p ∷ []) dead = record { alive = pid ∷ p ∷ []; dead = dead }
newest_two pid (p ∷ q ∷ ps) dead = record { alive = pid ∷ p ∷ []; dead = dead ++ q ∷ [] }

-- A process that forks one snapshot after another.
unfoldable pub forks : List ℕ → LightSss → Outcome LightSss
forks [] s = done s
forks (pid ∷ pids) s = do (_, t) ← do_fork (in_parent pid) s; forks pids t

abbrev pub newest : List ℕ → Slots → Slots
newest [] v = v
newest (pid ∷ pids) v = newest pids (newest_two pid v.alive v.dead)

-- The members agree with the abstract slots, and at most two processes are alive.
pub record Shows (s : LightSss) (v : Slots) : Type 0 where
  pub listed : s.pid_slot ≡ v.alive
  pub counted : s.slot_cnt ≡ length v.alive
  pub few : length v.alive ≤ 2
  pub dead_listed : s.killed ≡ v.dead

pub do_fork-Shows :
    (pid : ℕ) (s : LightSss) (alive dead : List ℕ)
    → Shows s (record { alive = alive; dead = dead })
    → (t : LightSss) × (do_fork (in_parent pid) s ≡ done (fork_ok, t))
      × (t.wait_process ≡ s.wait_process)
      × Shows t (newest_two pid alive dead)
unfolding do_fork kill_oldest forked
do_fork-Shows pid s [] dead h = (
  record s { slot_cnt = s.slot_cnt + 1; pid_slot = pid ∷ s.pid_slot },
  rw h.counted refl,
  refl,
  record {
    listed = ap (◌∷◌ pid) h.listed;
    counted = omega (arith, h.counted);
    few = omega arith;
    dead_listed = h.dead_listed;
  },
)
do_fork-Shows pid s (p ∷ []) dead h = (
  record s { slot_cnt = s.slot_cnt + 1; pid_slot = pid ∷ s.pid_slot },
  rw h.counted refl,
  refl,
  record {
    listed = ap (◌∷◌ pid) h.listed;
    counted = omega (arith, h.counted);
    few = omega arith;
    dead_listed = h.dead_listed;
  },
)
do_fork-Shows pid s (p ∷ q ∷ []) dead h = (
  record s { slot_cnt = s.slot_cnt - 1 + 1; pid_slot = pid ∷ p ∷ []; killed = s.killed ++ q ∷ [] },
  rw (h.counted, h.listed) refl,
  refl,
  record {
    listed = refl;
    counted = omega (arith, h.counted);
    few = omega arith;
    dead_listed = ap (λ d. d ++ q ∷ []) h.dead_listed;
  },
)
do_fork-Shows pid s (p ∷ q ∷ r ∷ ps) dead h = absurd (omega (arith, h.few))

-- From members that agree with a list of at most two processes, any sequence of snapshots of the
-- original process ends with members that agree with the two newest processes alive, newest first;
-- each older one was killed, in the order of their forks.
pub forks-Shows :
    (pids : List ℕ) (s : LightSss) (v : Slots)
    → Shows s v
    → (t : LightSss) × (forks pids s ≡ done t) × Shows t (newest pids v)
unfolding forks
forks-Shows [] s v h = (s, refl, h)
forks-Shows (pid ∷ pids) s v h =
    let (t, e, same, h') = do_fork-Shows pid s v.alive v.dead h in
    let (u, g, k) = forks-Shows pids t (newest_two pid v.alive v.dead) h' in (u, rw e g, k)

-- On a list of distinct processes with a last one, `others` drops that one.
others-two : (p q : ℕ) → p ≢ q → others q (p ∷ q ∷ []) ≡ p ∷ []
unfolding others
others-two p q h = ground arith

-- The failing run: `wakeup_child` and then `do_clear`, as `cpu_exec` calls them.
unfoldable pub wake_and_clear : ℕ → LightSss → Outcome LightSss
wake_and_clear cycles s = do t ← wakeup_child cycles s; do_clear t

-- With two distinct snapshots alive, wakeup_child and then do_clear wake the older one for the
-- given cycle and leave no process; the newer one is killed by both functions, the older one by
-- do_clear.
pub wake_and_clear-two :
    (cycles p q : ℕ) (s : LightSss) (dead : List ℕ)
    → p ≢ q
    → Shows s (record { alive = p ∷ q ∷ []; dead = dead })
    → (t : LightSss) × (wake_and_clear cycles s ≡ done t)
      × Shows t (record { alive = []; dead = ((dead ++ p ∷ []) ++ q ∷ []) ++ p ∷ [] })
      × (t.info ≡ record { flag = true; notgood = true; end_cycles = cycles; oldest = q })
unfolding wake_and_clear wakeup_child do_clear clear_loop kill_oldest
wake_and_clear-two cycles p q s dead ne h = (
  record s {
    slot_cnt = s.slot_cnt - 1 - 1;
    pid_slot = [];
    killed = ((s.killed ++ p ∷ []) ++ q ∷ []) ++ p ∷ [];
    info = record { flag = true; notgood = true; end_cycles = cycles; oldest = q };
  },
  rw (h.listed, others-two p q ne) refl,
  record {
    listed = refl;
    counted = omega (arith, h.counted);
    few = omega arith;
    dead_listed = ap (λ d. ((d ++ p ∷ []) ++ q ∷ []) ++ p ∷ []) h.dead_listed;
  },
  refl,
)

-- With no snapshot alive, `wakeup_child` reads the last element of an empty list.
pub wakeup_child-empty :
    (cycles : ℕ) (s : LightSss) → s.pid_slot ≡ [] → wakeup_child cycles s ≡ undefined
unfolding wakeup_child
wakeup_child-empty cycles s h = rw h refl
