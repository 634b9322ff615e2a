-- ===== src/CpuExec/Undisturbed.antt =====
-- Whole runs of the original process with snapshots, against those without.
use fpga_npc.Base.{
  ℕ, zero, suc, ◌+◌, ◌≡◌, refl, sym, ap, ◌∙◌, Bool, true, false, Option, ◌++◌, ◌==◌, Outcome, done,
  aborted, undefined, out_of_fuel, ◌>>=◌, u64, subst,
}
use fpga_npc.Npc.{is_running}
use fpga_npc.Difftest.{Reference}
use fpga_npc.LightSss.{LightSss, Fork, in_parent}
use fpga_npc.Wave.{Wave}
use fpga_npc.CpuExec.{
  World, Host, death_loop, handle_all, clock, exec_loop, exec_once, watch, trace_and_difftest,
  retire, excute,
}
use fpga_npc.CpuExec.Waveform.{
  Halves, WaveHost, dump_host, eval_dump, clock_wave, exec_loop_wave, trace_and_difftest_wave,
  retire_wave, excute_wave, plain,
}
use fpga_npc.CpuExec.Snapshots.{
  bind-bind, Original, over, lit, at, Follows, Follows-bind, Follows-cases, handle_all-over,
  handle_all-append, trace-lit, dump_host-Follows,
}

module _ {D R : Type 0} (halves : Halves D) (ref : Reference R) (skip : ℕ → Bool)
    (forks : Bool → ℕ → Fork)
    (parent : (value : Bool) (g : ℕ) → (pid : ℕ) × (forks value g ≡ in_parent pid)) where
  abbrev w : World D R
  w = plain halves ref skip

  -- One `eval` without snapshots.
  abbrev half_step : Bool → Host D R → Outcome (Host D R)
  half_step value t =
      let (calls, d) = halves.half value t.top in handle_all calls (record t { top = d })

  dumped-Follows :
      (value : Bool) (m : Outcome (Host D R)) (d : D) (l s : LightSss) (v : Wave)
      → Original s v
      → Follows (m >>= λ u. done (over d l u)) (
          (m >>= λ u. done (over d s u)) >>= λ u.
          dump_host (forks value u.g_nr_cycle) (record { host = u; wave = v }))
  dumped-Follows value (done u) d l s v o =
      let (pid, is) = parent value u.g_nr_cycle in
      dump_host-Follows (forks value u.g_nr_cycle) pid (over d l u) s v is o
  dumped-Follows value aborted d l s v o = refl
  dumped-Follows value undefined d l s v o = refl
  dumped-Follows value out_of_fuel d l s v o = refl

  eval-Follows :
      (value : Bool) (t : Host D R) (s : LightSss) (v : Wave)
      → Original s v
      → Follows (half_step value t) (eval_dump halves ref skip forks value (at t s v))
  unfolding eval_dump
  eval-Follows value t s v o =
      let (calls, d) = halves.half value t.top in
      let rest =
        λ (u : Host D R). dump_host (forks value u.g_nr_cycle) (record { host = u; wave = v }) in
      subst (λ m. Follows m (handle_all calls (over d s t) >>= rest))
        (sym (handle_all-over calls d t.lightsss t))
        (subst (λ m. Follows (handle_all calls t >>= λ u. done (over d t.lightsss u)) (m >>= rest))
          (sym (handle_all-over calls d s t))
          (dumped-Follows value (handle_all calls t) d t.lightsss s v o))

  abbrev ticked : Host D R → Outcome (Host D R)
  ticked u = done (record u { g_nr_cycle = u64 (u.g_nr_cycle + 1) })

  clock-halves : (t : Host D R) → clock w t ≡ (half_step false t >>= half_step true >>= ticked)
  unfolding clock
  clock-halves t =
      let l = t.lightsss in
      let (calls, e) = halves.half false t.top in
      let (more, f) = halves.half true e in
      let m = handle_all calls t in
      let last = λ (u : Host D R). handle_all more (over f l u) in
      let both : handle_all (calls ++ more) (over f l t) ≡ (half_step false t >>= half_step true) =
        handle_all-append calls more (over f l t)
        ∙ ap (λ r. r >>= handle_all more) (handle_all-over calls f l t)
        ∙ sym (bind-bind m (λ u. done (over f l u)) (handle_all more) last (λ u. refl))
        ∙ bind-bind m (λ u. done (over e l u)) (half_step true) last (λ u. refl)
        ∙ ap (λ r. r >>= half_step true) (sym (handle_all-over calls e l t)) in
      ap (λ r. r >>= ticked) both

  clock-Follows :
      (t : Host D R) (s : LightSss) (v : Wave)
      → Original s v
      → Follows (clock w t) (clock_wave halves ref skip forks (at t s v))
  unfolding clock_wave
  clock-Follows t s v o =
      subst (λ m. Follows m (clock_wave halves ref skip forks (at t s v))) (sym (clock-halves t))
        (Follows-bind (half_step false t >>= half_step true) _ _ _
          (Follows-bind (half_step false t) _ (half_step true) _ (eval-Follows false t s v o)
            (eval-Follows true))
          (λ u s' v' o'. (s', v', refl, o')))

  exec_loop-Follows :
      (counter : ℕ) (t : Host D R) (s : LightSss) (v : Wave)
      → Original s v
      → Follows (exec_loop w counter t) (exec_loop_wave halves ref skip forks counter (at t s v))
  unfolding exec_loop exec_loop_wave
  exec_loop-Follows zero t s v o = refl
  exec_loop-Follows (suc counter) t s v o =
      Follows-bind (clock w t) (clock_wave halves ref skip forks (at t s v)) _ _
        (clock-Follows t s v o)
        (λ u s' v' o'.
          Follows-cases (counter == 0) _ _ _ _ (s', v', refl, o')
            (Follows-cases (halves.core u.top).is_done _ _ _ _ (s', v', refl, o')
              (exec_loop-Follows counter u s' v' o')))

  retire-Follows :
      (t : Host D R) (s : LightSss) (v : Wave)
      → Original s v
      → Follows (retire w t) (retire_wave halves ref skip forks (at t s v))
  unfolding retire retire_wave exec_once
  retire-Follows t s v o =
      Follows-bind (exec_loop w death_loop t)
        (exec_loop_wave halves ref skip forks death_loop (at t s v)) _ _
        (exec_loop-Follows death_loop t s v o) (λ u s' v' o'. (s', v', refl, o'))

  -- The comparison and the watchpoints, and what follows them.
  then-Follows :
      (m : Outcome (Host D R)) (s : LightSss) (v : Wave) (f : Host D R → Outcome (Host D R))
      (g : WaveHost D R → Outcome (Option (WaveHost D R)))
      → ((u : Host D R) → Follows (f u) (g (at u s v)))
      → Follows (m >>= f) ((m >>= λ u. done (at u s v)) >>= g)
  then-Follows (done u) s v f g next = next u
  then-Follows aborted s v f g next = refl
  then-Follows undefined s v f g next = refl
  then-Follows out_of_fuel s v f g next = refl

  abbrev chosen : Bool → Host D R → Outcome (Host D R)
  chosen start_waveform u = elim start_waveform [
    | true ↦ watch w u
    | false ↦ trace_and_difftest w u
  ]

  compared :
      (t : Host D R) (s : LightSss) (v : Wave)
      → Original s v
      → trace_and_difftest_wave halves ref skip forks (at t s v)
        ≡ (trace_and_difftest w t >>= λ u. done (at u s v))
  unfolding trace_and_difftest_wave
  compared t s v o =
      let with_wave : Host D R → Outcome (WaveHost D R) =
        λ u. done (record { host = u; wave = v }) in
      ap (λ b. chosen b (lit s t) >>= with_wave) o.not_started
      ∙ ap (λ m. m >>= with_wave) (trace-lit w s t)
      ∙ sym (
          bind-bind (trace_and_difftest w t) (λ u. done (lit s u)) with_wave (λ u. done (at u s v))
            (λ u. refl))

  -- For a process in which fork always gives a child, and which is no woken snapshot, records nothing
  -- and has at most two snapshots, n instructions in the build with CONFIG_WAVEFORM fail as they do in
  -- the build without it, or end in the same state of the host but for the snapshots, with the
  -- process still as it was in these three points.
  pub excute-Follows :
      (n : ℕ) (t : Host D R) (s : LightSss) (v : Wave)
      → Original s v
      → Follows (excute w n t) (excute_wave halves ref skip forks n (at t s v))
  unfolding excute excute_wave
  excute-Follows zero t s v o = (s, v, refl, o)
  excute-Follows (suc n) t s v o =
      Follows-bind (retire w t) (retire_wave halves ref skip forks (at t s v)) _ _
        (retire-Follows t s v o)
        (λ u s' v' o'.
          let rest =
            then-Follows (trace_and_difftest w u) s' v' (excute w n)
              (excute_wave halves ref skip forks n) (λ x. excute-Follows n x s' v' o') in
          Follows-cases (is_running u.npc.state) _ _ _ _
            (subst
              (λ m.
                Follows (trace_and_difftest w u >>= excute w n)
                  (m >>= excute_wave halves ref skip forks n))
              (sym (compared u s' v' o')) rest)
            (s', v', refl, o'))
