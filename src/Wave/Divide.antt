-- ===== src/Wave/Divide.antt =====
-- `trace_new` and `dump_wave` of csrc/cpu/cpu-exec.cpp in a build with CONFIG_WAVEFORM_DIVIDE, which
-- starts a new file at every fork. What `fork` returns and the text of the local time that `put_time`
-- writes are arguments.
use fpga_npc.Base.{
  ℕ, zero, suc, ◌+◌, ◌/◌, ◌%◌, Bool, true, false, ◌&&◌, not, Option, none, some, List, [], ◌∷◌,
  ◌++◌, ltb, ◌==◌, if◌then◌else◌, Outcome, done, undefined, ◌>>=◌, codes, take,
}
use fpga_npc.LightSss.{Fork, Returned, fork_ok, fork_error, fork_child, exits, do_fork, is_child}
use fpga_npc.Wave.{Tracing, divide_condition, after_fork, dump}

-- `std::string::find_last_of` with a dot; `none` is `npos`.
unfoldable pub find_last_of_dot : List ℕ → Option ℕ
find_last_of_dot [] = none
find_last_of_dot (c ∷ s) =
    let rest = find_last_of_dot s in
    elim rest [ some i ↦ some (suc i) | none ↦ if c == b'.' then some 0 else none ]

abbrev pub base_name_to : List ℕ → Option ℕ → List ℕ
base_name_to wave_file none = wave_file
base_name_to wave_file (some last_dot) = take last_dot wave_file

unfoldable pub base_name : List ℕ → List ℕ
base_name wave_file = base_name_to wave_file (find_last_of_dot wave_file)

-- A number in decimal, of at most so many digits; an unsigned 64-bit number has 20 at most.
unfoldable pub decimal_text : ℕ → ℕ → List ℕ
decimal_text zero n = []
decimal_text (suc digits) n =
    let front = decimal_text digits (n / 10) in
    if ltb n 10 then (b'0' + n) ∷ [] else front ++ (b'0' + n % 10) ∷ []

-- The name of the file for the time `main_time`.
unfoldable pub new_wave_file : List ℕ → List ℕ → ℕ → List ℕ
new_wave_file wave_file local_time main_time =
    base_name wave_file
    ++ codes "_"
    ++ local_time
    ++ codes "_"
    ++ decimal_text 20 (main_time / 1000000)
    ++ codes ".fst"

-- With `wave_file`, which the option sets, and the files that `tfp` has opened, in order.
pub record Dividing : Type 0 where
  pub tracing : Tracing
  pub wave_file : Option (List ℕ)
  pub opened : List (List ℕ)

-- The file is new, so it holds no times.
unfoldable pub open_file : List ℕ → Dividing → Dividing
open_file name d =
    let t = d.tracing in
    record d {
      tracing = record t { wave = record t.wave { dumped = [] } };
      opened = d.opened ++ name ∷ [];
    }

-- `overlap` is CONFIG_WAVEFORM_OVERLAP. A string made of NULL is undefined.
unfoldable pub trace_new : Bool → List ℕ → Dividing → Outcome Dividing
trace_new overlap local_time d = elim d.wave_file [
  | none ↦ undefined
  | some wave_file ↦
      if overlap
      then done (open_file wave_file d)
      else done (open_file (new_wave_file wave_file local_time d.tracing.wave.main_time) d)
]

-- The snapshot that was woken opens `wave_file`.
unfoldable pub reopen : Returned → Dividing → Outcome Dividing
reopen fork_ok d = done d
reopen fork_error d = done d
reopen fork_child d = elim d.wave_file [
  | none ↦ undefined
  | some wave_file ↦ done (open_file wave_file d)
]
reopen exits d = done d

unfoldable pub divide_file :
    Bool → List ℕ → ℕ → Returned → Dividing → Option Tracing → Outcome (Option Dividing)
divide_file overlap local_time g_nr_cycle ret d none = done none
divide_file overlap local_time g_nr_cycle ret d (some t) = do
  e ← reopen ret (record d { tracing = t })
  u ← trace_new overlap local_time e
  done (some (record u { tracing = dump g_nr_cycle u.tracing }))

unfoldable pub dump_wave_dividing : Bool → Fork → List ℕ → ℕ → Dividing → Outcome (Option Dividing)
dump_wave_dividing overlap f local_time g_nr_cycle d =
    let t = d.tracing in
    let (divide, wave) = divide_condition g_nr_cycle t.wave in
    let u = record t { wave = wave } in
    elim (divide && not (is_child u.lightsss)) [
      | false ↦ done (some (record d { tracing = dump g_nr_cycle u }))
      | true ↦ do
        (ret, s) ← do_fork f u.lightsss
        divide_file overlap local_time g_nr_cycle ret d (after_fork ret (record u { lightsss = s }))
    ]

-- A call: what `fork` returns, the local time, and the cycle.
pub record Call : Type 0 where
  pub fork : Fork
  pub local_time : List ℕ
  pub g_nr_cycle : ℕ

unfoldable pub dump_all : Bool → List Call → Dividing → Outcome (Option Dividing)
dump_all overlap [] d = done (some d)
dump_all overlap (c ∷ calls) d = do
  r ← dump_wave_dividing overlap c.fork c.local_time c.g_nr_cycle d
  elim r [ none ↦ done none | some e ↦ dump_all overlap calls e ]
