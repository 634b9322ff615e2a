-- ===== src/Wave/Window.antt =====
-- Which snapshots are alive after a number of cycles.
use fpga_npc.Base.{
  ℕ, zero, suc, ◌+◌, ◌*◌, ◌/◌, ◌<◌, ◌≡◌, ◌⊎◌, inl, inr, refl, ap, ◌∙◌, sym, true, false, ◌||◌, not,
  some, List, [], ◌∷◌, ◌++◌, ◌==◌, done, ◌>>=◌, u32, arith, Bool-cases, subst, ◌≢◌,
}
use fpga_npc.LightSss.{Fork, in_parent, is_child}
use fpga_npc.LightSss.Slots.{Slots, Shows, newest_two, do_fork-Shows}
use fpga_npc.Wave.{Tracing, divide_condition, dump, after_fork, dump_if, dump_wave, dump_waves}

-- The call that forked the newest process when `q` is the number of whole windows of 500000 cycles that are over: of the
-- second call of cycle 0, or of the first call of a window.
abbrev pub newest_of : ℕ → ℕ
newest_of zero = 1
newest_of (suc q) = 2 * (500000 * suc q)

abbrev pub older_of : ℕ → ℕ
older_of zero = 0
older_of (suc q) = newest_of q

-- The parent, which records nothing.
pub record Parent (t : Tracing) : Type 0 where
  pub no_child : is_child t.lightsss ≡ false
  pub not_started : t.wave.start_waveform ≡ false

pub dump-silent : (g : ℕ) (t : Tracing) → t.wave.start_waveform ≡ false → dump g t ≡ t
unfolding dump
dump-silent g t n = ground (arith, n)

stays :
    (f : Fork) (g : ℕ) (t : Tracing)
    → Parent t
    → 0 < g
    → t.wave.count ≡ u32 (g / 500000)
    → dump_wave f g t ≡ done (some t)
unfolding dump_wave divide_condition
stays f g t p l e = ground (arith, e, l) ∙ ap (λ x. done (some x)) (dump-silent g t p.not_started)

pub forks_one :
    (pid g : ℕ) (t : Tracing) (alive dead : List ℕ)
    → Parent t
    → not (t.wave.count == u32 (g / 500000)) || (g == 0) ≡ true
    → Shows t.lightsss (record { alive = alive; dead = dead })
    → (u : Tracing) × (dump_wave (in_parent pid) g t ≡ done (some u))
      × Parent u
      × (u.wave.count ≡ u32 (g / 500000))
      × Shows u.lightsss (newest_two pid alive dead)
unfolding dump_wave divide_condition dump_if after_fork is_child
forks_one pid g t alive dead p y h =
    let (s, e, same, k) = do_fork-Shows pid t.lightsss alive dead h in
    let u = record t { lightsss = s; wave = record t.wave { count = u32 (g / 500000) } } in
    let child : t.lightsss.wait_process ≡ false = p.no_child in
    (
      u,
      ground (arith, y, child, e) ∙ ap (λ x. done (some x)) (dump-silent g u p.not_started),
      record { no_child = same ∙ p.no_child; not_started = p.not_started },
      refl,
      k,
    )

-- Two more processes are the two that live.
two_more :
    (p q : ℕ) (alive dead : List ℕ)
    → let v = newest_two p alive dead in
      (later : List ℕ) × (newest_two q v.alive v.dead ≡ record { alive = q ∷ p ∷ []; dead = later })
two_more p q [] dead = (dead, refl)
two_more p q (a ∷ []) dead = (dead ++ a ∷ [], refl)
two_more p q (a ∷ b ∷ ps) dead = ((dead ++ b ∷ []) ++ a ∷ [], refl)

-- `fork` returns to the original process the number of the new one, which is not 0; call number k of
-- `dump_wave` forks process number `pid_of k`, if it forks.
module _ (pid_of : ℕ → ℕ) where
  -- A process has a number that no other has.
  pub record Numbers : Type 0 where
    pub not_zero : (k : ℕ) → pid_of k ≢ 0
    pub distinct : (j k : ℕ) → j ≢ k → pid_of j ≢ pid_of k

  -- The two calls of each clock cycle: `n` cycles from number `i` on.
  abbrev pub cycles : ℕ → ℕ → List (Fork × ℕ)
  cycles i zero = []
  cycles i (suc n) =
      (in_parent (pid_of (2 * i)), i) ∷ (in_parent (pid_of (2 * i + 1)), i) ∷ cycles (i + 1) n

  -- After the cycle `g`.
  pub record Behind (g : ℕ) (t : Tracing) : Type 0 where
    pub parent : Parent t
    pub counted : t.wave.count ≡ u32 (g / 500000)
    pub dead : List ℕ
    pub shows : Shows t.lightsss (record {
      alive = pid_of (newest_of (g / 500000)) ∷ pid_of (older_of (g / 500000)) ∷ [];
      dead = dead;
    })

  -- Behind one more cycle.
  Cycle : ℕ → Tracing → Type 0
  Cycle g t =
      (u : Tracing) × (v : Tracing) × (dump_wave (in_parent (pid_of (2 * g))) g t ≡ done (some u))
      × (dump_wave (in_parent (pid_of (2 * g + 1))) g u ≡ done (some v))
      × Behind g v

  same_window : (g : ℕ) (t : Tracing) → Behind g t → suc g / 500000 ≡ g / 500000 → Cycle (suc g) t
  unfolding Cycle
  same_window g t b e =
      let counted : t.wave.count ≡ u32 (suc g / 500000) = b.counted ∙ ap u32 (sym e) in
      (
        t,
        t,
        stays (in_parent (pid_of (2 * suc g))) (suc g) t b.parent (omega arith) counted,
        stays (in_parent (pid_of (2 * suc g + 1))) (suc g) t b.parent (omega arith) counted,
        record {
          parent = b.parent;
          counted = counted;
          dead = b.dead;
          shows =
              subst
                (λ q. Shows t.lightsss (record {
                  alive = pid_of (newest_of q) ∷ pid_of (older_of q) ∷ [];
                  dead = b.dead;
                }))
                (sym e) b.shows;
        },
      )

  next_window :
      (g : ℕ) (t : Tracing) → Behind g t → suc g / 500000 ≡ suc (g / 500000) → Cycle (suc g) t
  unfolding Cycle
  next_window g t b e =
      let q = g / 500000 in
      let other : (t.wave.count == u32 (suc g / 500000)) ≡ false = ground (arith, b.counted, e) in
      let (u, f, p, counted, h) =
        forks_one (pid_of (2 * suc g)) (suc g) t (pid_of (newest_of q) ∷ pid_of (older_of q) ∷ [])
          b.dead b.parent (rw other refl) b.shows in
      let number : pid_of (2 * suc g) ≡ pid_of (newest_of (suc q)) = ap pid_of (omega (arith, e)) in
      (
        u,
        u,
        f,
        stays (in_parent (pid_of (2 * suc g + 1))) (suc g) u p (omega arith) counted,
        record {
          parent = p;
          counted = counted;
          dead = b.dead ++ pid_of (older_of q) ∷ [];
          shows =
              subst
                (λ r. Shows u.lightsss (record {
                  alive = pid_of (newest_of r) ∷ pid_of (older_of r) ∷ [];
                  dead = b.dead ++ pid_of (older_of q) ∷ [];
                }))
                (sym e)
                (subst
                  (λ n. Shows u.lightsss (record {
                    alive = n ∷ pid_of (newest_of q) ∷ [];
                    dead = b.dead ++ pid_of (older_of q) ∷ [];
                  }))
                  number h);
        },
      )

  Behind-Cycle : (g : ℕ) (t : Tracing) → Behind g t → Cycle (suc g) t
  Behind-Cycle g t b = elim (windows g) [
    | inl e ↦ same_window g t b e
    | inr e ↦ next_window g t b e
  ]
    where
      windows : (g : ℕ) → (suc g / 500000 ≡ g / 500000) ⊎ (suc g / 500000 ≡ suc (g / 500000))
      windows g = elim (Bool-cases (suc g / 500000 == g / 500000)) [
        | inl y ↦ inl (ground arith)
        | inr n ↦ inr (ground (arith, n))
      ]

  later_cycles :
      (n g : ℕ) (t : Tracing)
      → Behind g t
      → (u : Tracing) × (dump_waves (cycles (suc g) n) t ≡ done (some u)) × Behind (g + n) u
  unfolding dump_waves Cycle
  later_cycles zero g t b = (t, refl, subst (λ i. Behind i t) (omega arith) b)
  later_cycles (suc n) g t b =
      let (u, v, e, f, c) = Behind-Cycle g t b in
      let (w, k, d) = later_cycles n (suc g) v c in
      (
        w,
        rw (e, ◌>>=◌, f) (ap (λ i. dump_waves (cycles i n) v) (omega arith) ∙ k),
        subst (λ i. Behind i w) (omega arith) d,
      )

  -- Cycle 0, in which both calls fork.
  Parent-Cycle : (t : Tracing) (s : Slots) → Parent t → Shows t.lightsss s → Cycle 0 t
  unfolding Cycle
  Parent-Cycle t s p h =
      let always : (c : ℕ) → not (c == u32 (0 / 500000)) || (0 == 0) ≡ true = λ c. ground arith in
      let (u, e, pu, cu, hu) = forks_one (pid_of 0) 0 t s.alive s.dead p (always t.wave.count) h in
      let one = newest_two (pid_of 0) s.alive s.dead in
      let (v, f, pv, cv, hv) =
        forks_one (pid_of 1) 0 u one.alive one.dead pu (always u.wave.count) hu in
      let (later, two) = two_more (pid_of 0) (pid_of 1) s.alive s.dead in
      (
        u,
        v,
        e,
        f,
        record { parent = pv; counted = cv; dead = later; shows = subst (Shows v.lightsss) two hv },
      )

  -- The cycles from 0 to g.
  pub first_cycles :
      (g : ℕ) (t : Tracing) (s : Slots)
      → Parent t
      → Shows t.lightsss s
      → (u : Tracing) × (dump_waves (cycles 0 (suc g)) t ≡ done (some u)) × Behind g u
  unfolding dump_waves Cycle
  first_cycles g t s p h =
      let (u, v, e, f, b) = Parent-Cycle t s p h in
      let (w, k, d) = later_cycles g 0 v b in
      (w, rw (e, ◌>>=◌, f) k, subst (λ i. Behind i w) (omega arith) d)
