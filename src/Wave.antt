-- ===== src/Wave.antt =====
-- `divide_condition`, `dump_condition` and `dump_wave` of csrc/cpu/cpu-exec.cpp in a build with
-- CONFIG_WAVEFORM and without CONFIG_WAVEFORM_DIVIDE: when the simulation is forked, and what a
-- snapshot that was woken records. What `fork` returns is an argument.
pub mod Replay
pub mod Window
pub mod Original
pub mod Waking
pub mod Oldest
pub mod Failure
pub mod Divide
pub mod Undivided
mod Examples
use fpga_npc.Base.{
  ℕ, zero, suc, ◌+◌, ◌*◌, ◌/◌, Bool, true, false, ◌&&◌, ◌||◌, not, Option, none, some, List, [],
  ◌∷◌, ◌++◌, ltb, ◌==◌, if◌then◌else◌, Outcome, done, ◌>>=◌, u32, u64,
}
use fpga_npc.Npc.{NpcState, npc_abort}
use fpga_npc.LightSss.{
  LightSss, Fork, Returned, fork_ok, fork_error, fork_child, exits, do_fork, is_child,
}

-- The static variables, and the times that the open file of `tfp` has.
pub record Wave : Type 0 where
  pub count : ℕ
  pub start_waveform : Bool
  pub main_time : ℕ
  pub dumped : List ℕ

-- With the variables that the functions share with the others.
pub record Tracing : Type 0 where
  pub wave : Wave
  pub lightsss : LightSss
  pub npc : NpcState

unfoldable pub divide_condition : ℕ → Wave → Bool × Wave
divide_condition g_nr_cycle w =
    let new_count = u32 (g_nr_cycle / 500000) in
    if not (w.count == new_count) || (g_nr_cycle == 0)
    then (true, record w { count = new_count })
    else (false, w)

-- What follows the fork; `none` is a process that exits in `do_fork`. A snapshot that was woken opens
-- the file anew.
unfoldable pub after_fork : Returned → Tracing → Option Tracing
after_fork fork_ok t = some t
after_fork fork_error t = some t
after_fork fork_child t =
    some (record t { wave = record t.wave { start_waveform = true; dumped = [] } })
after_fork exits t = none

-- The end of `dump_wave`; `dump_condition` is true.
unfoldable pub dump : ℕ → Tracing → Tracing
dump g_nr_cycle t =
    let w = t.wave in
    let written = record w {
      main_time = u64 (w.main_time + 1);
      dumped = w.dumped ++ w.main_time ∷ [];
    } in
    let late = record t.npc { state = npc_abort } in
    if w.start_waveform
    then (if ltb t.lightsss.info.end_cycles g_nr_cycle
        then record t { wave = written; npc = late }
        else record t { wave = written })
    else t

unfoldable pub dump_if : ℕ → Option Tracing → Option Tracing
dump_if g_nr_cycle none = none
dump_if g_nr_cycle (some t) = some (dump g_nr_cycle t)

unfoldable pub dump_wave : Fork → ℕ → Tracing → Outcome (Option Tracing)
dump_wave f g_nr_cycle t =
    let (divide, wave) = divide_condition g_nr_cycle t.wave in
    let u = record t { wave = wave } in
    elim (divide && not (is_child u.lightsss)) [
      | false ↦ done (some (dump g_nr_cycle u))
      | true ↦ do
        (ret, s) ← do_fork f u.lightsss
        done (dump_if g_nr_cycle (after_fork ret (record u { lightsss = s })))
    ]

-- Calls of `dump_wave`, until the process exits.
unfoldable pub dump_waves : List (Fork × ℕ) → Tracing → Outcome (Option Tracing)
dump_waves [] t = done (some t)
dump_waves ((f, g_nr_cycle) ∷ calls) t = do
  r ← dump_wave f g_nr_cycle t
  elim r [ none ↦ done none | some u ↦ dump_waves calls u ]
