-- ===== src/LightSss.antt =====
-- csrc/cpu/lightsss.cpp and include/lightsss.h: snapshots of the simulation as forked processes.
-- What `fork` returns and what the shared memory holds when a child wakes up are arguments. The
-- processes that were killed and waited for are recorded.
pub mod Slots
pub mod Clear
pub mod SharedMemory
mod Examples
use fpga_npc.Base.{
  ℕ, suc, ◌+◌, ◌-◌, Bool, true, false, Option, none, some, List, [], ◌∷◌, ◌++◌, ◌==◌, if◌then◌else◌,
  Outcome, done, undefined, ◌>>=◌,
}

-- `SLOT_SIZE` of include/common.h.
abbrev pub slot_size : ℕ
slot_size = 2

-- `shinfo`
pub record ShInfo : Type 0 where
  pub flag : Bool
  pub notgood : Bool
  pub end_cycles : ℕ
  pub oldest : ℕ

-- The members of `LightSSS`; the newest process is the first of `pid_slot`.
pub record LightSss : Type 0 where
  pub slot_cnt : ℕ
  pub wait_process : Bool
  pub pid_slot : List ℕ
  pub info : ShInfo
  pub killed : List ℕ

abbrev pub start_info : ShInfo
start_info = record { flag = false; notgood = false; end_cycles = 0; oldest = 0 }

-- What `fork` returns: an error, the child's number in the parent, which the system never makes 0, or
-- 0 in the child, with the child's own number and the shared memory when `shwait` sees its flag.
pub data Fork : Type 0 where
  fork_fails : Fork
  in_parent : ℕ → Fork
  in_child : ℕ → ShInfo → Fork

-- How `do_fork` ends: with a result, or with `exit(0)` in `shwait`.
pub data Returned : Type 0 where
  fork_ok fork_error fork_child exits : Returned

-- `pidSlot.back()` and the list without it; `back` of an empty list is undefined.
abbrev pub back : List ℕ → Option (List ℕ × ℕ)
back [] = none
back (p ∷ ps) = elim (back ps) [ none ↦ some ([], p) | some (front, q) ↦ some (p ∷ front, q) ]

-- `pop_back`, `kill` and `waitpid` on the oldest process.
unfoldable pub kill_oldest : LightSss → Outcome LightSss
kill_oldest s = elim (back s.pid_slot) [
  | none ↦ undefined
  | some (rest, temp) ↦
      done (record s { pid_slot = rest; killed = s.killed ++ temp ∷ []; slot_cnt = s.slot_cnt - 1 })
]

-- `shwait`, when the flag is set: the process goes on or exits.
unfoldable pub shwait : ShInfo → Bool
shwait info = info.notgood

unfoldable pub forked : Fork → LightSss → Returned × LightSss
forked fork_fails s = (fork_error, s)
forked (in_parent pid) s =
    (fork_ok, record s { slot_cnt = s.slot_cnt + 1; pid_slot = pid ∷ s.pid_slot })
forked (in_child own info) s =
    let woken = record s { wait_process = true; info = info } in
    if shwait info
    then (if info.oldest == own then (fork_child, woken) else (fork_error, woken))
    else (exits, woken)

unfoldable pub do_fork : Fork → LightSss → Outcome (Returned × LightSss)
do_fork f s =
    if s.slot_cnt == slot_size then (do t ← kill_oldest s; done (forked f t)) else done (forked f s)

-- The loop of `wakeup_child`: all processes but the oldest are killed, the newest first.
unfoldable pub others : ℕ → List ℕ → List ℕ
others oldest [] = []
others oldest (p ∷ ps) = if p == oldest then others oldest ps else p ∷ others oldest ps

unfoldable pub wakeup_child : ℕ → LightSss → Outcome LightSss
wakeup_child cycles s = elim (back s.pid_slot) [
  | none ↦ undefined
  | some (rest, oldest) ↦ done (record s {
    killed = s.killed ++ others oldest s.pid_slot;
    info = record { flag = true; notgood = true; end_cycles = cycles; oldest = oldest };
  })
]

unfoldable pub is_child : LightSss → Bool
is_child s = s.wait_process

-- `while (!pidSlot.empty())`; each round takes one process away.
unfoldable pub clear_loop : List ℕ → LightSss → Outcome LightSss
clear_loop [] s = done s
clear_loop (p ∷ rounds) s = do t ← kill_oldest s; clear_loop rounds t

unfoldable pub do_clear : LightSss → Outcome LightSss
do_clear s = clear_loop s.pid_slot s
