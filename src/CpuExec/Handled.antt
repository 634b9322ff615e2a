-- ===== src/CpuExec/Handled.antt =====
-- How a process ends by a signal or by a failed `Assert`.
use fpga_npc.Base.{
  ℕ, ◌≡◌, ◌⊎◌, inl, inr, refl, sym, subst, Bool, true, false, List, some, done, undefined,
}
use fpga_npc.LightSss.Clear.{newest_first, cleared, do_clear-all}
use fpga_npc.CpuExec.Handlers.{
  null, live, freed, sigint, sigabrt, sigsegv, Handler, sig_dfl, Process, signal, set_handlers,
  reset_handlers, end_by, deliver, assert_macro,
}

-- While the objects live.
pub record Live (p : Process) : Type 0 where
  pub waveform : p.tfp ≡ live
  pub core : p.top ≡ live
  pub context : p.contextp ≡ live

-- The process has ended by the signal; the processes of the list were killed.
pub record Ended (signum : ℕ) (qs : List ℕ) (p q : Process) : Type 0 where
  pub by_signal : q.ended_by ≡ some signum
  pub waveform_closed : q.tfp ≡ null
  pub core_deleted : q.top ≡ freed
  pub context_deleted : q.contextp ≡ freed
  pub no_snapshots : q.lightsss ≡ cleared qs p.lightsss

module _ (p : Process) (qs : List ℕ) (l : Live p) (e : p.lightsss.pid_slot ≡ newest_first qs) where
  end_by-Ended :
      (signum : ℕ) (handlers : ℕ → Handler)
      → (q : Process) × (end_by signum (record p { handlers = handlers }) ≡ done q)
        × Ended signum qs p q
  unfolding end_by
  end_by-Ended signum handlers = (
    record (signal signum sig_dfl (record p { handlers = handlers })) {
      tfp = null;
      top = freed;
      contextp = freed;
      lightsss = cleared qs p.lightsss;
      ended_by = some signum;
    },
    rw (l.waveform, do_clear-all qs p.lightsss e, l.core, l.context) refl,
    record {
      by_signal = refl;
      waveform_closed = refl;
      core_deleted = refl;
      context_deleted = refl;
      no_snapshots = refl;
    },
  )

-- The signals that end the process while `excute` runs.
abbrev pub Fatal : Bool → ℕ → Type 0
Fatal is_batch_mode signum =
    (signum ≡ sigabrt) ⊎ (signum ≡ sigsegv) ⊎ ((signum ≡ sigint) × (is_batch_mode ≡ true))

module _ (p : Process) (qs : List ℕ) (l : Live p) (e : p.lightsss.pid_slot ≡ newest_first qs) where
  abbrev Ends : Bool → ℕ → Type 0
  Ends is_batch_mode signum =
      (q : Process) × (deliver signum (set_handlers is_batch_mode p) ≡ done q) × Ended signum qs p q

  Ends-sigint : (is_batch_mode : Bool) → is_batch_mode ≡ true → Ends is_batch_mode sigint
  unfolding deliver set_handlers
  Ends-sigint true h = end_by-Ended p qs l e sigint (set_handlers true p).handlers
  Ends-sigint false h = absurd (cc)

  Ends-Fatal :
      (is_batch_mode : Bool) (signum : ℕ) → Fatal is_batch_mode signum → Ends is_batch_mode signum
  unfolding deliver set_handlers
  Ends-Fatal b signum (inl h) =
      subst (Ends b) (sym h) (end_by-Ended p qs l e sigabrt (set_handlers b p).handlers)
  Ends-Fatal b signum (inr (inl h)) =
      subst (Ends b) (sym h) (end_by-Ended p qs l e sigsegv (set_handlers b p).handlers)
  Ends-Fatal b signum (inr (inr (h, batch))) = subst (Ends b) (sym h) (Ends-sigint b batch)

  -- While cpu_exec runs its loop, whose process has a waveform object, a core and a context and any
  -- number of snapshots, SIGABRT, SIGSEGV and, in the batch mode, SIGINT end the process by that signal,
  -- with the waveform closed, the core and the context deleted once, and all snapshots killed, the
  -- oldest first.
  pub deliver-Ended :
      (is_batch_mode : Bool) (signum : ℕ)
      → Fatal is_batch_mode signum
      → (q : Process) × (deliver signum (set_handlers is_batch_mode p) ≡ done q)
        × Ended signum qs p q
  deliver-Ended b signum f = Ends-Fatal b signum f

  -- In a process with a waveform object, a core and a context, and any snapshots, an Assert that fails
  -- while cpu_exec runs its loop deletes the core a second time in the handler of SIGABRT, which is
  -- undefined; one that fails outside of it deletes the core and the context, ends the process by
  -- SIGABRT, and leaves the snapshots alive.
  pub assert_macro-twice :
      (is_batch_mode : Bool)
      → (assert_macro false (set_handlers is_batch_mode p) ≡ undefined)
        × (assert_macro false (reset_handlers p)
            ≡ done (record (reset_handlers p) {
              top = freed;
              contextp = freed;
              ended_by = some sigabrt;
            }))
  unfolding assert_macro set_handlers reset_handlers
  assert_macro-twice b = (
    rw (l.waveform, l.core, l.context, do_clear-all qs p.lightsss e) refl,
    rw (l.waveform, l.core, l.context) refl,
  )
