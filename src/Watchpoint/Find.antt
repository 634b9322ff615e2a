-- ===== src/Watchpoint/Find.antt =====
-- The search loop of `free_wp`: it takes the cell of a number out of a list.
use fpga_npc.Base.{
  ℕ, zero, suc, ◌<◌, ◌≡◌, refl, ap, ◌∙◌, ◌≢◌, true, false, Option, none, some, List, [], ◌∷◌, ◌==◌,
  if◌then◌else◌, done, arith, length, Bool-cases, inl, inr,
}
use fpga_npc.Watchpoint.{Chain, relink, find_loop}
use fpga_npc.Watchpoint.Chains.{Links, has, Distinct, Named, start, Links-frame}

abbrev pub remove : ℕ → List ℕ → List ℕ
remove n [] = []
remove n (x ∷ xs) = if x == n then xs else x ∷ remove n xs

-- What the loop relies on: the list behind `pre`, and `pre` outside of it.
pub record Readable (xs : List ℕ) (pre : Option ℕ) (c : Chain) : Type 0 where
  pub listed : Links c.pool (start pre c) xs
  pub named : Named c.pool xs
  pub distinct : Distinct xs
  pub pre_out : (p : ℕ) → pre ≡ some p → has p xs ≡ false

pub record Removed (n : ℕ) (xs : List ℕ) (pre : Option ℕ) (c d : Chain) : Type 0 where
  pub linked : Links d.pool (start pre d) (remove n xs)
  pub kept_first : pre ≢ none → d.first ≡ c.first
  pub only_next : (a : ℕ) → d.pool a ≡ record (c.pool a) { next = (d.pool a).next }
  pub frame : (a : ℕ) → has a xs ≡ false → pre ≢ some a → d.pool a ≡ c.pool a

Readable-tail :
    (i : ℕ) (xs : List ℕ) (pre : Option ℕ) (c : Chain)
    → Readable (i ∷ xs) pre c
    → Readable xs (some i) c
Readable-tail i xs pre c r = record {
  listed = r.listed.1;
  named = r.named.1;
  distinct = r.distinct.1;
  pre_out = λ p e. ground (arith, r.distinct);
}

module _ (i : ℕ) (xs : List ℕ) (c : Chain) where
  unlinked : Option ℕ → Chain
  unfolding relink
  unlinked pre = relink pre (c.pool i).next c

  unlinked-Removed :
      (n : ℕ) (pre : Option ℕ)
      → Readable (i ∷ xs) pre c
      → (i == n) ≡ true
      → Removed n (i ∷ xs) pre c (unlinked pre)
  unfolding unlinked
  unlinked-Removed n none r h = record {
    linked = rw h r.listed.1;
    kept_first = ground arith;
    only_next = λ a. refl;
    frame = λ a o p. refl;
  }
  unlinked-Removed n (some p) r h = record {
    linked =
        let e : start (some p) (unlinked (some p)) ≡ (c.pool i).next = ground arith in
        rw (h, e)
          (Links-frame c.pool (unlinked (some p)).pool (c.pool i).next xs
            (λ a m. ground (arith, r.pre_out p)) r.listed.1);
    kept_first = λ _. refl;
    only_next = λ a. ground arith;
    frame = λ a o p. ground arith;
  }

  passed-Removed :
      (n : ℕ) (pre : Option ℕ) (d : Chain)
      → Readable (i ∷ xs) pre c
      → (i == n) ≡ false
      → Removed n xs (some i) c d
      → Removed n (i ∷ xs) pre c d
  passed-Removed n none d r h v = record {
    linked = rw h (ground (arith, v.kept_first), v.linked);
    kept_first = ground arith;
    only_next = v.only_next;
    frame = λ a o p. v.frame a (ground arith) (ground arith);
  }
  passed-Removed n (some p) d r h v = record {
    linked = rw h (ground (arith, v.frame p, r.pre_out p), v.linked);
    kept_first = λ _. v.kept_first (ground arith);
    only_next = v.only_next;
    frame = λ a o q. v.frame a (ground arith) (ground arith);
  }

find_loop-empty :
    (fuel n : ℕ) (pre : Option ℕ) (c : Chain) → find_loop (suc fuel) n pre none c ≡ done (none, c)
unfolding find_loop
find_loop-empty fuel n pre c = refl

find_loop-hit :
    (fuel n i : ℕ) (pre : Option ℕ) (c : Chain)
    → ((c.pool i).no == n) ≡ true
    → find_loop (suc fuel) n pre (some i) c ≡ done (some i, relink pre (c.pool i).next c)
unfolding find_loop
find_loop-hit fuel n i pre c h = rw h

find_loop-past :
    (fuel n i : ℕ) (pre : Option ℕ) (c : Chain)
    → ((c.pool i).no == n) ≡ false
    → find_loop (suc fuel) n pre (some i) c ≡ find_loop fuel n (some i) (c.pool i).next c
unfolding find_loop
find_loop-past fuel n i pre c h = rw h

found-here :
    (fuel n i : ℕ) (xs : List ℕ) (pre : Option ℕ) (c : Chain)
    → Readable (i ∷ xs) pre c
    → (i == n) ≡ true
    → find_loop (suc fuel) n pre (some i) c ≡ done (some n, unlinked i xs c pre)
unfolding unlinked
found-here fuel n i xs pre c r h =
    find_loop-hit fuel n i pre c (rw r.named.0 h)
    ∙ ap (λ t. done (some t, relink pre (c.pool i).next c)) (ground arith)

-- A number in the list is found, and its cell is taken out.
pub find_loop-Removed :
    (fuel n : ℕ) (xs : List ℕ) (pre : Option ℕ) (c : Chain)
    → Readable xs pre c
    → has n xs ≡ true
    → length xs < fuel
    → (d : Chain) × (find_loop fuel n pre (start pre c) c ≡ done (some n, d)) × Removed n xs pre c d
find_loop-Removed fuel n [] pre c r m f = ground arith
find_loop-Removed zero n (i ∷ xs) pre c r m f = absurd (omega arith)
find_loop-Removed (suc fuel) n (i ∷ xs) pre c r m f = elim (Bool-cases (i == n)) [
  | inl h ↦ (
    unlinked i xs c pre,
    rw r.listed.0 (found-here fuel n i xs pre c r h),
    unlinked-Removed i xs c n pre r h,
  )
  | inr h ↦
      let (d, e, v) =
        find_loop-Removed fuel n xs (some i) c (Readable-tail i xs pre c r) (ground arith)
          (omega arith) in
      (
        d,
        rw r.listed.0 (find_loop-past fuel n i pre c (rw r.named.0 h) ∙ e),
        passed-Removed i xs c n pre d r h v,
      )
]

-- A number that is not in the list is not found, and nothing changes.
pub find_loop-none :
    (fuel n : ℕ) (xs : List ℕ) (pre p : Option ℕ) (c : Chain)
    → Links c.pool p xs
    → Named c.pool xs
    → has n xs ≡ false
    → length xs < fuel
    → find_loop fuel n pre p c ≡ done (none, c)
find_loop-none zero n xs pre p c l v m f = absurd (omega arith)
find_loop-none (suc fuel) n [] pre p c l v m f = rw l (find_loop-empty fuel n pre c)
find_loop-none (suc fuel) n (i ∷ xs) pre p c l v m f = rw l.0 (
    find_loop-past fuel n i pre c (rw v.0 (ground arith))
    ∙ find_loop-none fuel n xs (some i) (c.pool i).next c l.1 v.1 (ground arith) (omega arith))
