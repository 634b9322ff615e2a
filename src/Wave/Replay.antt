-- ===== src/Wave/Replay.antt =====
-- What a snapshot that was woken records, and where it ends.
use fpga_npc.Base.{
  ℕ, zero, suc, ◌+◌, ◌≤◌, ◌<◌, ◌≡◌, refl, ap, ap₂, ◌∙◌, sym, ◌/◌, not, ◌||◌, ◌==◌, u32, Bool-cases,
  inl, inr, Bool, true, false, some, List, [], ◌∷◌, ◌++◌, done, ◌>>=◌, u64, All, length, arith,
}
use mathlib.Core.List.{append_assoc, append-nil}
use fpga_npc.Npc.{npc_abort}
use fpga_npc.LightSss.{Fork, is_child}
use fpga_npc.Wave.{Wave, Tracing, divide_condition, dump, dump_wave, dump_waves}

-- The times that `n` calls record from `m` on.
abbrev pub times : ℕ → ℕ → List ℕ
times m zero = []
times m (suc n) = m ∷ times (u64 (m + 1)) n

-- A snapshot that was woken.
pub record Woken (t : Tracing) : Type 0 where
  pub child : is_child t.lightsss ≡ true
  pub started : t.wave.start_waveform ≡ true

-- It has recorded `n` more times, and nothing else has changed but its state and its counter.
pub record Recorded (n : ℕ) (t u : Tracing) : Type 0 where
  pub same_lightsss : u.lightsss ≡ t.lightsss
  pub still_started : u.wave.start_waveform ≡ true
  pub more : u.wave.dumped ≡ t.wave.dumped ++ times t.wave.main_time n

pub divide-count :
    (g : ℕ) (w : Wave) → (b : Bool) × (c : ℕ) × (divide_condition g w ≡ (b, record w { count = c }))
unfolding divide_condition
divide-count g w =
    let new_count = u32 (g / 500000) in
    elim (Bool-cases (not (w.count == new_count) || (g == 0))) [
      | inl y ↦ (true, new_count, rw y refl)
      | inr n ↦ (false, w.count, rw n refl)
    ]

child-dumps :
    (f : Fork) (g c : ℕ) (b : Bool) (t : Tracing)
    → is_child t.lightsss ≡ true
    → divide_condition g t.wave ≡ (b, record t.wave { count = c })
    → dump_wave f g t ≡ done (some (dump g (record t { wave = record t.wave { count = c } })))
unfolding dump_wave
child-dumps f g c b t w e = ground (arith, w, e)

-- The time is written.
abbrev pub written : Wave → Wave
written w = record w { main_time = u64 (w.main_time + 1); dumped = w.dumped ++ w.main_time ∷ [] }

pub dump-in_time :
    (g : ℕ) (t : Tracing)
    → t.wave.start_waveform ≡ true
    → g ≤ t.lightsss.info.end_cycles
    → dump g t ≡ record t { wave = written t.wave }
unfolding dump
dump-in_time g t s l = ground (arith, s, l)

dump-late :
    (g : ℕ) (t : Tracing)
    → t.wave.start_waveform ≡ true
    → t.lightsss.info.end_cycles < g
    → dump g t ≡ record t { wave = written t.wave; npc = record t.npc { state = npc_abort } }
unfolding dump
dump-late g t s l = ground (arith, s, l)

pub Recorded-Woken : (n : ℕ) (t u : Tracing) → Woken t → Recorded n t u → Woken u
Recorded-Woken n t u w r = record {
  child = ap is_child r.same_lightsss ∙ w.child;
  started = r.still_started;
}

both-Recorded :
    (n : ℕ) (t u v : Tracing)
    → Recorded 1 t u
    → u.wave.main_time ≡ u64 (t.wave.main_time + 1)
    → Recorded n u v
    → Recorded (suc n) t v
both-Recorded n t u v a m b = record {
  same_lightsss = b.same_lightsss ∙ a.same_lightsss;
  still_started = b.still_started;
  more =
      b.more
      ∙ ap₂ (λ d k. d ++ times k n) a.more m
      ∙ append_assoc t.wave.dumped (t.wave.main_time ∷ []) (times (u64 (t.wave.main_time + 1)) n);
}

-- Calls up to the end leave the state alone.
pub dump_waves-in_time :
    (calls : List (Fork × ℕ)) (t : Tracing)
    → Woken t
    → All (λ c. c.1 ≤ t.lightsss.info.end_cycles) calls
    → (u : Tracing) × (dump_waves calls t ≡ done (some u))
      × Recorded (length calls) t u
      × (u.npc ≡ t.npc)
unfolding dump_waves
dump_waves-in_time [] t w l = (
  t,
  refl,
  record { same_lightsss = refl; still_started = w.started; more = sym (append-nil t.wave.dumped) },
  refl,
)
dump_waves-in_time ((f, g) ∷ calls) t w l =
    let (b, c, e) = divide-count g t.wave in
    let counted = record t { wave = record t.wave { count = c } } in
    let u = record t { wave = written counted.wave } in
    let first : dump_wave f g t ≡ done (some u) =
      child-dumps f g c b t w.child e
      ∙ ap (λ x. done (some x)) (dump-in_time g counted w.started l.0) in
    let one : Recorded 1 t u = record {
      same_lightsss = refl;
      still_started = w.started;
      more = refl;
    } in
    let (v, f, r, same) = dump_waves-in_time calls u (Recorded-Woken 1 t u w one) l.1 in
    (v, rw (first, ◌>>=◌) f, both-Recorded (length calls) t u v one refl r, same)

pub dump_wave-late :
    (f : Fork) (g : ℕ) (t : Tracing)
    → Woken t
    → t.lightsss.info.end_cycles < g
    → (u : Tracing) × (dump_wave f g t ≡ done (some u)) × Recorded 1 t u × (u.npc.state ≡ npc_abort)
dump_wave-late f g t w l =
    let (b, c, e) = divide-count g t.wave in
    let counted = record t { wave = record t.wave { count = c } } in
    (
      record t { wave = written counted.wave; npc = record t.npc { state = npc_abort } },
      child-dumps f g c b t w.child e ∙ ap (λ x. done (some x)) (dump-late g counted w.started l),
      record { same_lightsss = refl; still_started = w.started; more = refl },
      refl,
    )

-- A snapshot that was woken records one time with every call of dump_wave, whatever fork would
-- return: in the calls at cycles up to end_cycles the state of the simulation stays as it was, and
-- the first call at a later cycle records too and sets NPC_ABORT.
pub dump_waves-replay :
    (calls : List (Fork × ℕ)) (f : Fork) (g : ℕ) (t : Tracing)
    → Woken t
    → All (λ c. c.1 ≤ t.lightsss.info.end_cycles) calls
    → t.lightsss.info.end_cycles < g
    → (u : Tracing) × (v : Tracing) × (dump_waves calls t ≡ done (some u))
      × (u.npc ≡ t.npc)
      × (u.wave.dumped ≡ t.wave.dumped ++ times t.wave.main_time (length calls))
      × (dump_wave f g u ≡ done (some v))
      × (v.npc.state ≡ npc_abort)
      × (v.wave.dumped ≡ u.wave.dumped ++ u.wave.main_time ∷ [])
dump_waves-replay calls f g t w l late =
    let (u, e, r, same) = dump_waves-in_time calls t w l in
    let still_late : u.lightsss.info.end_cycles < g = rw r.same_lightsss late in
    let (v, k, one, abort) =
      dump_wave-late f g u (Recorded-Woken (length calls) t u w r) still_late in
    (u, v, e, same, r.more, k, abort, one.more)
