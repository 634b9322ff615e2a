-- ===== src/Wave/Failure.antt =====
-- A run with snapshots that fails: which of them is woken, and what it records.
use fpga_npc.Base.{
  ℕ, zero, suc, ◌+◌, ◌/◌, ◌≤◌, ◌<◌, ◌≡◌, ◌⊎◌, refl, sym, ap, ap₂, ◌∙◌, true, some, List, [], ◌∷◌,
  ◌++◌, done, ◌>>=◌, arith, length, All, All-of_append, subst, ◌≢◌,
}
use fpga_npc.Npc.{npc_abort}
use fpga_npc.LightSss.{LightSss, ShInfo, Fork, fork_fails, in_parent, in_child}
use fpga_npc.LightSss.Slots.{Slots, Shows, wake_and_clear, wake_and_clear-two}
use fpga_npc.Wave.{Tracing, dump_wave, dump_waves}
use fpga_npc.Wave.Window.{Parent, Numbers, cycles, newest_of, older_of, first_cycles}
use fpga_npc.Wave.Replay.{times, dump_waves-in_time, dump_wave-late, Recorded-Woken}
use fpga_npc.Wave.Original.{Parents, calls-Alike, cycles-Parents}
use fpga_npc.Wave.Waking.{Wakes, call-Woken}
use fpga_npc.Wave.Oldest.{Forked, oldest-Forked}

newest-ne-older : (q : ℕ) → newest_of q ≢ older_of q
newest-ne-older zero = ground arith
newest-ne-older (suc zero) = ground arith
newest-ne-older (suc (suc q)) = λ e. absurd (omega (arith, e))

module _ (pid_of : ℕ → ℕ) where
  cycles-le : (i n last : ℕ) → i + n ≤ suc last → All (λ c. c.1 ≤ last) (cycles pid_of i n)
  cycles-le i zero last h = tt
  cycles-le i (suc n) last h =
      (omega (arith, h), (omega (arith, h), cycles-le (i + 1) n last (omega (arith, h))))

  -- What becomes of the oldest snapshot, `info.oldest`, when the run from `t` has failed in the cycle g.
  -- The calls of `dump_wave` up to the cycle g + 1 are those `before` its fork, the one that forked it
  -- in the cycle `forked_in`, and those `behind` it. The snapshot is the state `at_fork`.
  pub record Replays (g : ℕ) (t : Tracing) (info : ShInfo) : Type 0 where
    pub forked_in : ℕ
    pub before : List (Fork × ℕ)
    pub behind : List (Fork × ℕ)
    pub at_fork : Tracing
    pub recorded : Tracing
    pub ended : Tracing
    pub split :
        cycles pid_of 0 (suc (suc g)) ≡ before ++ (in_parent info.oldest, forked_in) ∷ behind
    pub early : (forked_in + 500000 ≤ g) ⊎ (forked_in ≡ 0)
    pub late : g < forked_in + 1000000
    pub reaches : dump_waves before t ≡ done (some at_fork)
    pub replays :
        dump_waves ((in_child info.oldest info, forked_in) ∷ behind) at_fork ≡ done (some recorded)
    pub same_state : recorded.npc ≡ t.npc
    pub all_times : recorded.wave.dumped ≡ times t.wave.main_time (suc (length behind))
    pub ends : dump_wave fork_fails (suc (suc g)) recorded ≡ done (some ended)
    pub aborts : ended.npc.state ≡ npc_abort

  Forked-Replays :
      (g : ℕ) (t : Tracing) (info : ShInfo)
      → Parent t
      → Forked pid_of g t info.oldest
      → info.notgood ≡ true
      → info.end_cycles ≡ suc g
      → Replays g t info
  unfolding dump_waves
  Forked-Replays g t info p k bad last =
      let (before_calls, calls) =
        All-of_append _ k.before _
          (subst Parents k.split (cycles-Parents pid_of 0 (suc (suc g)))) in
      let (all, ends) =
        All-of_append (λ c. c.1 ≤ suc g) k.before ((in_parent info.oldest, k.forked_in) ∷ k.behind)
          (subst (All (λ c. c.1 ≤ suc g)) k.split
            (cycles-le 0 (suc (suc g)) (suc g) (omega arith))) in
      let alike = calls-Alike k.before t k.at_fork before_calls p k.reaches in
      let wakes : Wakes info.oldest k.forked_in info = record {
        not_good = bad;
        is_oldest = refl;
        in_time = omega (arith, last, ends.0);
      } in
      let (u, f, woken, same, npc, time, dumped) =
        call-Woken info.oldest k.forked_in info k.at_fork k.slots k.parent k.shows k.forks wakes in
      let end_cycles : u.lightsss.info.end_cycles ≡ suc g = rw same last in
      let (v, e, r, still) =
        dump_waves-in_time k.behind u woken
          (subst (λ n. All (λ c. c.1 ≤ n) k.behind) (sym end_cycles) ends.1) in
      let v_end : v.lightsss.info.end_cycles < suc (suc g) =
        rw r.same_lightsss (omega (arith, end_cycles)) in
      let (w, l, one, abort) =
        dump_wave-late fork_fails (suc (suc g)) v (Recorded-Woken (length k.behind) u v woken r)
          v_end in
      record {
        forked_in = k.forked_in;
        before = k.before;
        behind = k.behind;
        at_fork = k.at_fork;
        recorded = v;
        ended = w;
        split = k.split;
        early = k.early;
        late = k.late;
        reaches = k.reaches;
        replays = rw (f, ◌>>=◌) e;
        same_state = still ∙ npc ∙ alike.same_npc;
        all_times =
            r.more
            ∙ ap₂ (λ d m. d ++ times m (length k.behind)) dumped time
            ∙ ap (λ m. times m (suc (length k.behind))) alike.same_time;
        ends = l;
        aborts = abort;
      }

-- When the original process, from any at most two snapshots, calls dump_wave twice in each cycle
-- from 0 to g, and fork, where call number k forks, gives process number pid_of k, for any distinct
-- numbers that are not 0, then wakeup_child for g + 1 cycles and do_clear succeed and leave no
-- process. The process that is woken was forked in a cycle less than 1000000 cycles before g, and
-- at least 500000 cycles before g unless it is cycle 0. From the state that the original process
-- had in front of that fork, it records a time with every call from there up to the last one of
-- cycle g + 1, from the time that the original process had, with the state of the simulation as it
-- was; the first call of cycle g + 2 sets NPC_ABORT.
pub failure-Replays :
    (pid_of : ℕ → ℕ) (g : ℕ) (t : Tracing) (s : Slots)
    → Numbers pid_of
    → Parent t
    → Shows t.lightsss s
    → (u : Tracing) × (l : LightSss) × (dump_waves (cycles pid_of 0 (suc g)) t ≡ done (some u))
      × (wake_and_clear (suc g) u.lightsss ≡ done l)
      × (l.pid_slot ≡ [])
      × Replays pid_of g t l.info
failure-Replays pid_of g t s numbers p h =
    let q = g / 500000 in
    let (u, e, b) = first_cycles pid_of g t s p h in
    let (l, f, shows, info) =
      wake_and_clear-two (suc g) (pid_of (newest_of q)) (pid_of (older_of q)) u.lightsss b.dead
        (numbers.distinct _ _ (newest-ne-older q)) b.shows in
    let is_oldest : l.info.oldest ≡ pid_of (older_of q) = ap (λ i. i.oldest) info in
    (
      u,
      l,
      e,
      f,
      shows.listed,
      Forked-Replays pid_of g t l.info p
          (subst (Forked pid_of g t) (sym is_oldest) (oldest-Forked pid_of q g t s refl p h))
          (ap (λ i. i.notgood) info) (ap (λ i. i.end_cycles) info),
    )
