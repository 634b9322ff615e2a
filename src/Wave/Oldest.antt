-- ===== src/Wave/Oldest.antt =====
-- Where the oldest of the snapshots that wait was forked.
use fpga_npc.Base.{
  ℕ, zero, suc, ◌+◌, ◌-◌, ◌*◌, ◌/◌, ◌≤◌, ◌<◌, ◌≡◌, ◌⊎◌, inl, inr, refl, sym, ap, ap₂, ◌∙◌, false,
  ◌==◌, some, List, [], ◌∷◌, ◌++◌, done, ◌>>=◌, u32, arith,
}
use fpga_npc.LightSss.{Fork, in_parent}
use fpga_npc.LightSss.Slots.{Slots, Shows, newest_two}
use fpga_npc.Wave.{Tracing, dump_waves}
use fpga_npc.Wave.Window.{Parent, cycles, newest_of, older_of, forks_one, first_cycles}
use fpga_npc.Wave.Waking.{Forks}

always : (t : Tracing) → Forks 0 t
always t = ground arith

module _ (pid_of : ℕ → ℕ) where
  -- In the calls of the cycles up to g + 1, the place of the call that forks process number `k`, and the
  -- state in front of it.
  pub record Forked (g : ℕ) (t : Tracing) (k : ℕ) : Type 0 where
    pub forked_in : ℕ
    pub before : List (Fork × ℕ)
    pub behind : List (Fork × ℕ)
    pub at_fork : Tracing
    pub slots : Slots
    pub split : cycles pid_of 0 (suc (suc g)) ≡ before ++ (in_parent k, forked_in) ∷ behind
    pub early : (forked_in + 500000 ≤ g) ⊎ (forked_in ≡ 0)
    pub late : g < forked_in + 1000000
    pub reaches : dump_waves before t ≡ done (some at_fork)
    pub parent : Parent at_fork
    pub shows : Shows at_fork.lightsss slots
    pub forks : Forks forked_in at_fork

  cycles-split :
      (i m n : ℕ) → cycles pid_of i (m + n) ≡ cycles pid_of i m ++ cycles pid_of (i + m) n
  cycles-split i zero n = ap₂ (cycles pid_of) (omega arith) (omega arith)
  cycles-split i (suc m) n =
      let more : suc m + n ≡ suc (m + n) = omega arith in
      let from : i + 1 + m ≡ i + suc m = omega arith in
      ap (cycles pid_of i) more
      ∙ ap (λ cs. (in_parent (pid_of (2 * i)), i) ∷ (in_parent (pid_of (2 * i + 1)), i) ∷ cs)
          (cycles-split (i + 1) m n ∙ ap (λ j. cycles pid_of (i + 1) m ++ cycles pid_of j n) from)

  pub oldest-Forked :
      (q g : ℕ) (t : Tracing) (s : Slots)
      → g / 500000 ≡ q
      → Parent t
      → Shows t.lightsss s
      → Forked g t (pid_of (older_of q))
  unfolding dump_waves
  oldest-Forked zero g t s e p h = record {
    forked_in = 0;
    before = [];
    behind = (in_parent (pid_of 1), 0) ∷ cycles pid_of 1 (suc g);
    at_fork = t;
    slots = s;
    split = refl;
    early = inr refl;
    late = omega (arith, e);
    reaches = refl;
    parent = p;
    shows = h;
    forks = always t;
  }
  oldest-Forked (suc zero) g t s e p h =
      let (u, f, parent, counted, shows) = forks_one (pid_of 0) 0 t s.alive s.dead p (always t) h in
      record {
        forked_in = 0;
        before = (in_parent (pid_of 0), 0) ∷ [];
        behind = cycles pid_of 1 (suc g);
        at_fork = u;
        slots = newest_two (pid_of 0) s.alive s.dead;
        split = refl;
        early = inr refl;
        late = omega (arith, e);
        reaches = rw (f, ◌>>=◌) refl;
        parent = parent;
        shows = shows;
        forks = always u;
      }
  oldest-Forked (suc (suc q)) g t s e p h =
      let m = 500000 * suc q in
      let (u, f, b) = first_cycles pid_of (m - 1) t s p h in
      let started : suc (m - 1) ≡ m = omega arith in
      let all : suc (suc g) ≡ m + suc (g + 1 - m) = omega (arith, e) in
      let behind = (in_parent (pid_of (2 * m + 1)), m) ∷ cycles pid_of (m + 1) (g + 1 - m) in
      let other : (u.wave.count == u32 (m / 500000)) ≡ false = ground (arith, b.counted) in
      record {
        forked_in = m;
        before = cycles pid_of 0 m;
        behind = behind;
        at_fork = u;
        slots = record {
          alive = pid_of (newest_of ((m - 1) / 500000)) ∷ pid_of (older_of ((m - 1) / 500000)) ∷ [];
          dead = b.dead;
        };
        split =
            ap (cycles pid_of 0) all
            ∙ cycles-split 0 m (suc (g + 1 - m))
            ∙ ap (λ j. cycles pid_of 0 m ++ cycles pid_of j (suc (g + 1 - m))) (omega arith);
        early = inl (omega (arith, e));
        late = omega (arith, e);
        reaches = ap (λ n. dump_waves (cycles pid_of 0 n) t) (sym started) ∙ f;
        parent = b.parent;
        shows = b.shows;
        forks = rw other refl;
      }
