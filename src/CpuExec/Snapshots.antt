-- ===== src/CpuExec/Snapshots.antt =====
-- The original process of a build with CONFIG_WAVEFORM does what the build without it does.
use fpga_npc.Base.{
  ℕ, ◌≡◌, refl, sym, ap, ◌∙◌, Bool, true, false, Option, none, some, List, [], ◌∷◌, ◌++◌, Outcome,
  done, aborted, undefined, out_of_fuel, ◌>>=◌, Bool-cases, inl, inr, subst,
}
use fpga_npc.Npc.{Core, ebreak}
use fpga_npc.Difftest.{difftest_step}
use fpga_npc.LightSss.{LightSss, Fork, in_parent, is_child}
use fpga_npc.LightSss.Slots.{Slots, Shows, newest_two, do_fork-Shows}
use fpga_npc.Wave.Undivided.{is_child-same}
use fpga_npc.Watchpoint.{Watchpoints, check_diff}
use fpga_npc.Wave.{Wave, divide_condition, after_fork, dump_if, dump_wave}
use fpga_npc.Wave.Window.{dump-silent}
use fpga_npc.Wave.Replay.{divide-count}
use fpga_npc.Wave.Original.{counting, no_fork, one_fork}
use fpga_npc.CpuExec.{
  DpiCall, calls_ebreak, calls_diff_skip, calls_raise_intr, calls_update_csr, World, Host, handle,
  handle_all, watch, trigger, trace_and_difftest, expr_value,
}
use fpga_npc.CpuExec.Waveform.{WaveHost, ◌>>?◌, tracing_of, with_tracing, dump_host}

-- A chain whose rest is a chain.
pub bind-bind {ℓ ℓ' ℓ''} :
    {A : Type ℓ} {B : Type ℓ'} {C : Type ℓ''} (m : Outcome A) (f : A → Outcome B)
    (g : B → Outcome C) (k : A → Outcome C)
    → ((a : A) → k a ≡ (f a >>= g))
    → (m >>= k) ≡ ((m >>= f) >>= g)
bind-bind (done a) f g k h = h a
bind-bind aborted f g k h = refl
bind-bind undefined f g k h = refl
bind-bind out_of_fuel f g k h = refl

-- The original process, which records nothing and has at most two snapshots.
pub record Original (s : LightSss) (v : Wave) : Type 0 where
  pub no_child : is_child s ≡ false
  pub not_started : v.start_waveform ≡ false
  pub slots : Slots
  pub shows : Shows s slots

module _ {D R : Type 0} where
  -- With another core and other snapshots.
  abbrev pub over : D → LightSss → Host D R → Host D R
  over d s t = record t { top = d; lightsss = s }

  abbrev pub lit : LightSss → Host D R → Host D R
  lit s t = record t { lightsss = s }

  handle-over :
      (c : Core) (call : DpiCall) (d : D) (s : LightSss) (t : Host D R)
      → handle c call (over d s t) ≡ (handle c call t >>= λ u. done (over d s u))
  unfolding handle
  handle-over c (calls_ebreak inst) d s t =
      bind-bind (ebreak inst c t.npc) (λ n. done (record t { npc = n })) (λ u. done (over d s u))
        (λ n. done (record (over d s t) { npc = n })) (λ n. refl)
  handle-over c (calls_diff_skip pc) d s t = refl
  handle-over c (calls_raise_intr cause_no) d s t = refl
  handle-over c (calls_update_csr pc) d s t = refl

  pub handle_all-over :
      (calls : List (Core × DpiCall)) (d : D) (s : LightSss) (t : Host D R)
      → handle_all calls (over d s t) ≡ (handle_all calls t >>= λ u. done (over d s u))
  unfolding handle_all
  handle_all-over [] d s t = refl
  handle_all-over ((c, call) ∷ calls) d s t =
      ap (λ m. m >>= handle_all calls) (handle-over c call d s t)
      ∙ sym (
          bind-bind (handle c call t) (λ u. done (over d s u)) (handle_all calls)
            (λ u. handle_all calls (over d s u)) (λ u. refl))
      ∙ bind-bind (handle c call t) (handle_all calls) (λ u. done (over d s u))
          (λ u. handle_all calls (over d s u)) (λ u. handle_all-over calls d s u)

  pub handle_all-append :
      (xs ys : List (Core × DpiCall)) (t : Host D R)
      → handle_all (xs ++ ys) t ≡ (handle_all xs t >>= handle_all ys)
  unfolding handle_all
  handle_all-append [] ys t = refl
  handle_all-append ((c, call) ∷ xs) ys t =
      bind-bind (handle c call t) (handle_all xs) (handle_all ys) (λ u. handle_all (xs ++ ys) u)
        (λ u. handle_all-append xs ys u)

  trigger-lit : (i : ℕ) (s : LightSss) (t : Host D R) → trigger i (lit s t) ≡ lit s (trigger i t)
  unfolding trigger
  trigger-lit i s t = elim (Bool-cases (t.watchpoints.wp_pool i).trigger_flag) [
    | inl y ↦ rw y refl
    | inr n ↦ rw n refl
  ]

  -- What is done about a changed watchpoint, or none.
  abbrev react : Host D R → Option (ℕ × ℕ) × Watchpoints → Outcome (Host D R)
  react h (diff, s) = elim diff [
    | none ↦ done (record h { watchpoints = s })
    | some (i, old_value) ↦ done (trigger i (record h { watchpoints = s }))
  ]

  react-lit :
      (s : LightSss) (t : Host D R) (r : Option (ℕ × ℕ) × Watchpoints)
      → react (lit s t) r ≡ (react t r >>= λ u. done (lit s u))
  react-lit s t (none, p) = refl
  react-lit s t (some (i, old_value), p) = ap done (trigger-lit i s (record t { watchpoints = p }))

  watch-react :
      (w : World D R) (t : Host D R)
      → watch w t ≡ (check_diff (expr_value (w.dut.core t.top)) t.watchpoints >>= react t)
  unfolding watch
  watch-react w t = refl

  watch-lit :
      (w : World D R) (s : LightSss) (t : Host D R)
      → watch w (lit s t) ≡ (watch w t >>= λ u. done (lit s u))
  watch-lit w s t =
      let m = check_diff (expr_value (w.dut.core t.top)) t.watchpoints in
      watch-react w (lit s t)
      ∙ bind-bind m (react t) (λ u. done (lit s u)) (react (lit s t)) (react-lit s t)
      ∙ ap (λ m. m >>= λ u. done (lit s u)) (sym (watch-react w t))

  pub trace-lit :
      (w : World D R) (s : LightSss) (t : Host D R)
      → trace_and_difftest w (lit s t) ≡ (trace_and_difftest w t >>= λ u. done (lit s u))
  unfolding trace_and_difftest
  trace-lit w s t =
      let c = w.dut.core t.top in
      bind-bind (difftest_step w.skip w.ref c c.pc_done (t.difftest, t.npc))
        (λ r. watch w (record t { difftest = r.0; npc = r.1 })) (λ u. done (lit s u))
        (λ r. watch w (record (lit s t) { difftest = r.0; npc = r.1 }))
        (λ r. watch-lit w s (record t { difftest = r.0; npc = r.1 }))

  abbrev pub at : Host D R → LightSss → Wave → WaveHost D R
  at t s v = record { host = lit s t; wave = v }

  -- The run with snapshots gives what the plain one gives, but for the snapshots.
  abbrev pub Follows : Outcome (Host D R) → Outcome (Option (WaveHost D R)) → Type 0
  Follows (done t) r = (s : LightSss) × (v : Wave) × (r ≡ done (some (at t s v))) × Original s v
  Follows aborted r = r ≡ aborted
  Follows undefined r = r ≡ undefined
  Follows out_of_fuel r = r ≡ out_of_fuel

  pub Follows-bind :
      (m : Outcome (Host D R)) (r : Outcome (Option (WaveHost D R)))
      (f : Host D R → Outcome (Host D R)) (g : WaveHost D R → Outcome (Option (WaveHost D R)))
      → Follows m r
      → ((t : Host D R) (s : LightSss) (v : Wave) → Original s v → Follows (f t) (g (at t s v)))
      → Follows (m >>= f) (r >>? g)
  Follows-bind (done t) r f g (s, v, e, o) next =
      subst (λ x. Follows (f t) (x >>? g)) (sym e) (next t s v o)
  Follows-bind aborted r f g e next = ap (λ x. x >>? g) e
  Follows-bind undefined r f g e next = ap (λ x. x >>? g) e
  Follows-bind out_of_fuel r f g e next = ap (λ x. x >>? g) e

  pub Follows-cases :
      (b : Bool) (m n : Outcome (Host D R)) (r q : Outcome (Option (WaveHost D R)))
      → Follows m r
      → Follows n q
      → Follows (elim b [ true ↦ m | false ↦ n ]) (elim b [ true ↦ r | false ↦ q ])
  Follows-cases true m n r q h k = h
  Follows-cases false m n r q h k = k

  dump_host-step :
      (pid c : ℕ) (b : Bool) (t : Host D R) (s : LightSss) (v : Wave)
      → Original s v
      → divide_condition t.g_nr_cycle v ≡ (b, record v { count = c })
      → Follows (done t) (dump_host (in_parent pid) (at t s v))
  unfolding dump_host dump_if after_fork
  dump_host-step pid c false t s v o d =
      let g = t.g_nr_cycle in
      let x = counting (in_parent pid) g c (tracing_of (at t s v)) in
      let silent : dump_wave (in_parent pid) g (tracing_of (at t s v)) ≡ done (some x) =
        no_fork (in_parent pid) g c (tracing_of (at t s v)) d
        ∙ ap (λ y. done (some y)) (dump-silent g x o.not_started) in
      (
        s,
        record v { count = c },
        ap (λ r. r >>? λ y. done (some (with_tracing (at t s v) y))) silent,
        record {
          no_child = o.no_child;
          not_started = o.not_started;
          slots = o.slots;
          shows = o.shows;
        },
      )
  dump_host-step pid c true t s v o d =
      let g = t.g_nr_cycle in
      let f = in_parent pid in
      let (s', e, same, shows) = do_fork-Shows pid s o.slots.alive o.slots.dead o.shows in
      let x = record (counting f g c (tracing_of (at t s v))) { lightsss = s' } in
      let forked : dump_wave f g (tracing_of (at t s v)) ≡ done (some x) =
        one_fork f g c (tracing_of (at t s v)) d o.no_child
        ∙ rw e (ap (λ y. done (some y)) (dump-silent g x o.not_started)) in
      (
        s',
        record v { count = c },
        ap (λ r. r >>? λ y. done (some (with_tracing (at t s v) y))) forked,
        record {
          no_child = is_child-same s s' same ∙ o.no_child;
          not_started = o.not_started;
          slots = newest_two pid o.slots.alive o.slots.dead;
          shows = shows;
        },
      )

  pub dump_host-Follows :
      (f : Fork) (pid : ℕ) (t : Host D R) (s : LightSss) (v : Wave)
      → f ≡ in_parent pid
      → Original s v
      → Follows (done t) (dump_host f (at t s v))
  dump_host-Follows f pid t s v is o =
      let (b, c, d) = divide-count t.g_nr_cycle v in
      subst (λ k. Follows (done t) (dump_host k (at t s v))) (sym is)
        (dump_host-step pid c b t s v o d)
