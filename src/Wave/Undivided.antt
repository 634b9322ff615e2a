-- ===== src/Wave/Undivided.antt =====
-- What the files of the original process hold when they are divided.
use fpga_npc.Base.{
  ℕ, ◌/◌, ◌≡◌, refl, sym, ap, ◌∙◌, map, false, ◌||◌, not, some, List, [], ◌∷◌, ◌++◌, ◌==◌, done,
  ◌>>=◌, u32, arith, Bool-cases, inl, inr, All,
}
use mathlib.Core.List.{append_assoc, append-nil}
use fpga_npc.LightSss.{LightSss, in_parent, is_child}
use fpga_npc.LightSss.Slots.{Slots, Shows, newest_two, do_fork-Shows}
use fpga_npc.Wave.{divide_condition, after_fork}
use fpga_npc.Wave.Window.{Parent, dump-silent}
use fpga_npc.Wave.Divide.{
  new_wave_file, Dividing, open_file, trace_new, reopen, divide_file, dump_wave_dividing, Call,
  dump_all,
}

-- A call in which `fork` returns the number of a child.
pub record Forking : Type 0 where
  pub pid : ℕ
  pub local_time : List ℕ
  pub g_nr_cycle : ℕ

abbrev pub call_of : Forking → Call
call_of x = record { fork = in_parent x.pid; local_time = x.local_time; g_nr_cycle = x.g_nr_cycle }

pub is_child-same : (s t : LightSss) → t.wait_process ≡ s.wait_process → is_child t ≡ is_child s
unfolding is_child
is_child-same s t e = e

-- The original process, with the time at 0 and a file that holds nothing.
pub record Idle (d : Dividing) : Type 0 where
  pub parent : Parent d.tracing
  pub no_time : d.tracing.wave.main_time ≡ 0
  pub nothing : d.tracing.wave.dumped ≡ []
  pub slots : Slots
  pub shows : Shows d.tracing.lightsss slots

module _ (wave_file : List ℕ) where
  abbrev pub Named : List ℕ → Type 0
  Named name = (local_time : List ℕ) × (name ≡ new_wave_file wave_file local_time 0)

  call-Idle :
      (x : Forking) (d : Dividing)
      → Idle d
      → d.wave_file ≡ some wave_file
      → (names : List (List ℕ)) × (e : Dividing) × (dump_wave_dividing false
            (in_parent x.pid)
            x.local_time
            x.g_nr_cycle
            d
          ≡ done (some e))
        × Idle e
        × (e.wave_file ≡ some wave_file)
        × (e.opened ≡ d.opened ++ names)
        × All Named names
  unfolding dump_wave_dividing divide_condition divide_file after_fork reopen trace_new open_file
  call-Idle x d i w =
      elim (Bool-cases
        (not (d.tracing.wave.count == u32 (x.g_nr_cycle / 500000)) || (x.g_nr_cycle == 0))) [
          | inl y ↦
              let t = d.tracing in
              let child : is_child t.lightsss ≡ false = i.parent.no_child in
              let (s, e, same, k) =
                do_fork-Shows x.pid t.lightsss i.slots.alive i.slots.dead i.shows in
              let name = new_wave_file wave_file x.local_time t.wave.main_time in
              let wave = record t.wave { count = u32 (x.g_nr_cycle / 500000); dumped = [] } in
              let u = record t { lightsss = s; wave = wave } in
              (
                name ∷ [],
                record d { tracing = u; opened = d.opened ++ name ∷ [] },
                ground (arith, y, child, e, w)
                    ∙ ap
                        (λ v.
                          done (some (record d { tracing = v; opened = d.opened ++ name ∷ [] })))
                        (dump-silent x.g_nr_cycle u i.parent.not_started),
                record {
                  parent = record {
                    no_child = is_child-same t.lightsss s same ∙ child;
                    not_started = i.parent.not_started;
                  };
                  no_time = i.no_time;
                  nothing = refl;
                  slots = newest_two x.pid i.slots.alive i.slots.dead;
                  shows = k;
                },
                w,
                refl,
                ((x.local_time, ap (new_wave_file wave_file x.local_time) i.no_time), tt),
              )
          | inr n ↦ (
            [],
            d,
            ground (arith, n)
                ∙ ap (λ t. done (some (record d { tracing = t })))
                    (dump-silent x.g_nr_cycle d.tracing i.parent.not_started),
            i,
            w,
            sym (append-nil d.opened),
            tt,
          )
        ]

  All-append : (xs ys : List (List ℕ)) → All Named xs → All Named ys → All Named (xs ++ ys)
  All-append [] ys a b = b
  All-append (x ∷ xs) ys (p, a) b = (p, All-append xs ys a b)

  calls-Idle :
      (xs : List Forking) (d : Dividing)
      → Idle d
      → d.wave_file ≡ some wave_file
      → (names : List (List ℕ)) × (e : Dividing) × (dump_all false (map call_of xs) d
          ≡ done (some e))
        × Idle e
        × (e.opened ≡ d.opened ++ names)
        × All Named names
  unfolding dump_all
  calls-Idle [] d i w = ([], d, refl, i, sym (append-nil d.opened), tt)
  calls-Idle (x ∷ xs) d i w =
      let (names, e, f, idle, v, opened, all) = call-Idle x d i w in
      let (more, g, h, last, files, rest) = calls-Idle xs e idle v in
      (
        names ++ more,
        g,
        rw (f, ◌>>=◌) h,
        last,
        files ∙ ap (λ o. o ++ more) opened ∙ append_assoc d.opened names more,
        All-append names more all rest,
      )

  -- In a build with CONFIG_WAVEFORM_DIVIDE and without CONFIG_WAVEFORM_OVERLAP, whatever cycles the
  -- original process calls dump_wave in, from the time 0, at most two snapshots and a file with no
  -- times, every file that it opens has the name for the time 0, and the last one holds no times.
  pub dump_all-undivided :
      (xs : List Forking) (d : Dividing)
      → Idle d
      → d.wave_file ≡ some wave_file
      → (names : List (List ℕ)) × (e : Dividing) × (dump_all false (map call_of xs) d
          ≡ done (some e))
        × (e.tracing.wave.dumped ≡ [])
        × (e.opened ≡ d.opened ++ names)
        × All Named names
  dump_all-undivided xs d i w =
      let (names, e, f, idle, opened, all) = calls-Idle xs d i w in
      (names, e, f, idle.nothing, opened, all)
