-- ===== src/Wave/Original.antt =====
-- What the original process leaves alone while it calls `dump_wave`.
use fpga_npc.Base.{
  ℕ, zero, suc, ◌+◌, ◌*◌, ◌≡◌, inl, inr, refl, sym, ap, ◌∙◌, Bool, true, false, ◌==◌, some, List,
  [], ◌∷◌, done, ◌>>=◌, arith, Bool-cases, bind-done, done_injective, All, none, Option-cases,
  subst,
}
use fpga_npc.LightSss.{
  LightSss, Fork, Returned, fork_ok, in_parent, kill_oldest, forked, do_fork, is_child, back,
}
use fpga_npc.Wave.{Tracing, divide_condition, dump, after_fork, dump_if, dump_wave, dump_waves}
use fpga_npc.Wave.Window.{Parent, cycles, dump-silent}
use fpga_npc.Wave.Replay.{divide-count}

-- What the original process leaves alone.
pub record Alike (t u : Tracing) : Type 0 where
  pub same_npc : u.npc ≡ t.npc
  pub same_time : u.wave.main_time ≡ t.wave.main_time
  pub same_start : u.wave.start_waveform ≡ t.wave.start_waveform
  pub same_wait : u.lightsss.wait_process ≡ t.lightsss.wait_process

kill_oldest-wait : (s v : LightSss) → kill_oldest s ≡ done v → v.wait_process ≡ s.wait_process
unfolding kill_oldest
kill_oldest-wait s v e = elim (Option-cases (back s.pid_slot)) [
  | inl n ↦ ground (arith, n)
  | inr (p, y) ↦ ground (arith, y)
]

do_fork-in_parent :
    (pid : ℕ) (s v : LightSss) (ret : Returned)
    → do_fork (in_parent pid) s ≡ done (ret, v)
    → (ret ≡ fork_ok) × (v.wait_process ≡ s.wait_process)
unfolding do_fork forked
do_fork-in_parent pid s v ret e = elim (Bool-cases (s.slot_cnt == 2)) [
  | inl y ↦
      let (k, f, g) = bind-done (kill_oldest s) _ (ret, v) (rw y at e) in
      let same = done_injective (sym g) in
      (ap (λ r. r.0) same, ap (λ r. r.1.wait_process) same ∙ kill_oldest-wait s k f)
  | inr n ↦
      let same = done_injective (sym (rw n at e)) in
      (ap (λ r. r.0) same, ap (λ r. r.1.wait_process) same)
]

pub some_injective : {t u : Tracing} → done (some t) ≡ done (some u) → t ≡ u
some_injective e = cc (done_injective e)

dump-Alike : (g : ℕ) (t w u : Tracing) → Parent t → Alike t w → dump g w ≡ u → Alike t u
dump-Alike g t w u p a e =
    subst (Alike t) (sym (dump-silent g w (a.same_start ∙ p.not_started)) ∙ e) a

module _ (f : Fork) (g c : ℕ) (t : Tracing) where
  abbrev pub counting : Tracing
  counting = record t { wave = record t.wave { count = c } }

  pub no_fork :
      divide_condition g t.wave ≡ (false, record t.wave { count = c })
      → dump_wave f g t ≡ done (some (dump g counting))
  unfolding dump_wave
  no_fork d = ground (arith, d)

  pub one_fork :
      divide_condition g t.wave ≡ (true, record t.wave { count = c })
      → is_child t.lightsss ≡ false
      → dump_wave f g t ≡ (do
        (ret, s) ← do_fork f t.lightsss
        done (dump_if g (after_fork ret (record counting { lightsss = s }))))
  unfolding dump_wave
  one_fork d n = ground (arith, d, n)

-- The original process records nothing.
call-Alike :
    (pid g : ℕ) (t u : Tracing) (b : Bool) (c : ℕ)
    → divide_condition g t.wave ≡ (b, record t.wave { count = c })
    → Parent t
    → dump_wave (in_parent pid) g t ≡ done (some u)
    → Alike t u
unfolding dump_if after_fork
call-Alike pid g t u false c d p e =
    dump-Alike g t (counting (in_parent pid) g c t) u p
      (record { same_npc = refl; same_time = refl; same_start = refl; same_wait = refl })
      (some_injective (sym (no_fork (in_parent pid) g c t d) ∙ e))
call-Alike pid g t u true c d p e =
    let ((ret, s), f, k) =
      bind-done (do_fork (in_parent pid) t.lightsss) _ (some u)
        (sym (one_fork (in_parent pid) g c t d p.no_child) ∙ e) in
    let (ok, wait) = do_fork-in_parent pid t.lightsss s ret f in
    dump-Alike g t (record (counting (in_parent pid) g c t) { lightsss = s }) u p
      (record { same_npc = refl; same_time = refl; same_start = refl; same_wait = wait })
      (some_injective (rw (ok, after_fork) at k))

pub Alike-Parent : (t u : Tracing) → Parent t → Alike t u → Parent u
unfolding is_child
Alike-Parent t u p a = record {
  no_child = a.same_wait ∙ p.no_child;
  not_started = a.same_start ∙ p.not_started;
}

both-Alike : (t u v : Tracing) → Alike t u → Alike u v → Alike t v
both-Alike t u v a b = record {
  same_npc = b.same_npc ∙ a.same_npc;
  same_time = b.same_time ∙ a.same_time;
  same_start = b.same_start ∙ a.same_start;
  same_wait = b.same_wait ∙ a.same_wait;
}

-- The calls of the original process.
abbrev pub Parents : List (Fork × ℕ) → Type 0
Parents calls = All (λ c. (pid : ℕ) × (c.0 ≡ in_parent pid)) calls

pub calls-Alike :
    (calls : List (Fork × ℕ)) (t u : Tracing)
    → Parents calls
    → Parent t
    → dump_waves calls t ≡ done (some u)
    → Alike t u
unfolding dump_waves
calls-Alike [] t u a p e =
    subst (Alike t) (some_injective e)
      (record { same_npc = refl; same_time = refl; same_start = refl; same_wait = refl })
calls-Alike ((f, g) ∷ calls) t u ((pid, is), a) p e =
    let (r, d, k) = bind-done (dump_wave f g t) _ (some u) e in
    elim (Option-cases r) [
      | inl n ↦ absurd (none_some u (rw n at k))
      | inr (v, y) ↦
          let (b, c, counted) = divide-count g t.wave in
          let first = call-Alike pid g t v b c counted p (rw (is, y) at d) in
          both-Alike t v u first (calls-Alike calls v u a (Alike-Parent t v p first) (rw y at k))
    ]
  where
    none_some : (u : Tracing) → done none ≡ done (some u) → ⊥
    none_some u e = cc (done_injective e)

pub cycles-Parents : (pid_of : ℕ → ℕ) (i n : ℕ) → Parents (cycles pid_of i n)
cycles-Parents pid_of i zero = tt
cycles-Parents pid_of i (suc n) =
    ((pid_of (2 * i), refl), ((pid_of (2 * i + 1), refl), cycles-Parents pid_of (i + 1) n))
