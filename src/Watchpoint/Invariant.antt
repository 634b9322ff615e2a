-- ===== src/Watchpoint/Invariant.antt =====
-- The invariant of the pool, and `new_wp`.
use fpga_npc.Base.{
  ℕ, suc, ◌+◌, ◌<◌, ◌≡◌, ap, ◌∙◌, ◌≢◌, true, false, Option, none, some, List, [], ◌∷◌, done, arith,
  length,
}
use fpga_npc.Watchpoint.{Wp, Pool, set_next, Watchpoints, nr_wp, Chain, insert_loop, new_wp}
use fpga_npc.Watchpoint.Chains.{
  Links, has, Named, insert, Links-frame, Inserted, Ready, insert_loop-Inserted,
}
use fpga_npc.Watchpoint.Sorted.{
  Within, Within-lower, length-Within, has-Within, Within-Distinct, insert-Within, not-has_below,
  has-insert, length-insert,
}

-- The cells in use and the free cells are two lists, rising and apart; a cell's number is its index.
pub record Holds (s : Watchpoints) (used free : List ℕ) : Type 0 where
  pub used_listed : Links s.wp_pool s.head used
  pub free_listed : Links s.wp_pool s.free_ free
  pub used_within : Within 0 nr_wp used
  pub free_within : Within 0 nr_wp free
  pub apart : (a : ℕ) → has a used ≡ true → has a free ≡ false
  pub numbered : (a : ℕ) → a < nr_wp → (s.wp_pool a).no ≡ a

-- Cells with the same contents, whatever they are linked to.
abbrev pub SameData : Wp → Wp → Type 0
SameData v w =
    (w.no ≡ v.no) × (w.what ≡ v.what) × (w.value ≡ v.value) × (w.trigger_flag ≡ v.trigger_flag)

pub Named-of_Within :
    (pool : Pool) (lo : ℕ) (xs : List ℕ)
    → ((a : ℕ) → a < nr_wp → (pool a).no ≡ a)
    → Within lo nr_wp xs
    → Named pool xs
Named-of_Within pool lo [] h w = tt
Named-of_Within pool lo (x ∷ xs) h w =
    (h x (omega (arith, length-Within nr_wp (suc x) xs w.1)), Named-of_Within pool (suc x) xs h w.1)

-- A list that gets a new cell has room for it, so the rounds of the loop suffice.
pub room :
    (n i : ℕ) (xs : List ℕ)
    → Within 0 nr_wp (i ∷ xs)
    → n < nr_wp
    → has n (i ∷ xs) ≡ false
    → length xs + 3 < 34
room n i xs w k m = omega (
  arith,
  length-Within nr_wp 0 (insert n (i ∷ xs)) (insert-Within nr_wp 0 n (i ∷ xs) (omega arith) k m w),
  length-insert n (i ∷ xs),
)

-- What `insert_loop` does to a list of the pool from its first cell on.
pub insert-Ready :
    (n i : ℕ) (xs : List ℕ) (c : Chain)
    → Links c.pool c.first (i ∷ xs)
    → Within 0 nr_wp (i ∷ xs)
    → n < nr_wp
    → has n (i ∷ xs) ≡ false
    → ((a : ℕ) → a < nr_wp → (c.pool a).no ≡ a)
    → Ready n (i ∷ xs) none c
insert-Ready n i xs c l w k m h = record {
  listed = l;
  node_no = h n k;
  named = Named-of_Within c.pool 0 (i ∷ xs) h w;
  distinct = Within-Distinct nr_wp 0 (i ∷ xs) w;
  node_out = m;
  pre_out = λ p e. ground arith;
  pre_ne = λ e. cc;
}

-- `new_wp` returns cell `n`, leaves the state `t`, and writes nothing but links.
pub record Takes (s : Watchpoints) (n : ℕ) (t : Watchpoints) : Type 0 where
  pub returns : new_wp s ≡ done (some n, t)
  pub data_kept : (a : ℕ) → SameData (s.wp_pool a) (t.wp_pool a)

pub SameData-of_next : (v w : Wp) (p : Option ℕ) → w ≡ record v { next = p } → SameData v w
SameData-of_next v w p e = ground arith

-- The list that the taken cell leaves.
free-tail :
    (s : Watchpoints) (used : List ℕ) (n : ℕ) (free : List ℕ) (a : ℕ)
    → Holds s used (n ∷ free)
    → has a free ≡ true
    → (a ≢ n) × (has a used ≡ false)
free-tail s used n free a v m =
    ground (arith, v.apart a, has-Within nr_wp (suc n) a free v.free_within.1)

insert-apart :
    (s : Watchpoints) (used : List ℕ) (n : ℕ) (free : List ℕ) (a : ℕ)
    → Holds s used (n ∷ free)
    → has a (insert n used) ≡ true
    → has a free ≡ false
insert-apart s used n free a v m =
    ground
      (arith, v.apart a, has-insert a n used, not-has_below nr_wp (suc n) a free v.free_within.1)

insert-used-Within :
    (s : Watchpoints) (used : List ℕ) (n : ℕ) (free : List ℕ)
    → Holds s used (n ∷ free)
    → Within 0 nr_wp (insert n used)
insert-used-Within s used n free v =
    insert-Within nr_wp 0 n used (omega arith)
      (omega (arith, length-Within nr_wp (suc n) free v.free_within.1)) (ground (arith, v.apart n))
      v.used_within

-- The state that a run of the loop leaves.
module _ (s : Watchpoints) (i : ℕ) (xs : List ℕ) (n : ℕ) (free : List ℕ)
    (v : Holds s (i ∷ xs) (n ∷ free)) (d : Chain)
    (ins : Inserted n (i ∷ xs) none (record { first = s.head; pool = s.wp_pool }) d) where
  taken : Watchpoints
  taken = record { wp_pool = d.pool; head = d.first; free_ = (s.wp_pool n).next }

  taken-Holds : Holds taken (insert n (i ∷ xs)) free
  unfolding taken
  taken-Holds = record {
    used_listed = ins.linked;
    free_listed =
        Links-frame s.wp_pool d.pool (s.wp_pool n).next free
          (λ a m. let (ne, out) = free-tail s (i ∷ xs) n free a v m in ins.frame a ne out (λ e. cc))
          v.free_listed.1;
    used_within = insert-used-Within s (i ∷ xs) n free v;
    free_within = Within-lower nr_wp (suc n) 0 free (omega arith) v.free_within.1;
    apart = λ a m. insert-apart s (i ∷ xs) n free a v m;
    numbered = λ a h. ap (λ w. w.no) (ins.only_next a) ∙ v.numbered a h;
  }

new_wp-step :
    (s : Watchpoints) (n i : ℕ) (d : Chain)
    → s.free_ ≡ some n
    → s.head ≡ some i
    → insert_loop 34 n none (some i) (record { first = s.head; pool = s.wp_pool }) ≡ done d
    → new_wp s
      ≡ done (some n, record { wp_pool = d.pool; head = d.first; free_ = (s.wp_pool n).next })
unfolding new_wp
new_wp-step s n i d e h r = ground arith

-- With a free cell, new_wp returns the first cell of the free list; the used list gets it at its
-- place by number, the free list loses it, the invariant of the pool holds again, and no field but
-- next is written in any cell.
pub new_wp-Holds :
    (s : Watchpoints) (used : List ℕ) (n : ℕ) (free : List ℕ)
    → Holds s used (n ∷ free)
    → (t : Watchpoints) × Holds t (insert n used) free × Takes s n t
unfolding new_wp taken
new_wp-Holds s [] n free v = (
  record { wp_pool = set_next s.wp_pool n none; head = some n; free_ = (s.wp_pool n).next },
  record {
    used_listed = ground arith;
    free_listed =
        Links-frame s.wp_pool (set_next s.wp_pool n none) (s.wp_pool n).next free
          (λ a m. ground (arith, free-tail s [] n free a v m)) v.free_listed.1;
    used_within = insert-used-Within s [] n free v;
    free_within = Within-lower nr_wp (suc n) 0 free (omega arith) v.free_within.1;
    apart = λ a m. insert-apart s [] n free a v m;
    numbered = λ a h. ground (arith, v.numbered a h);
  },
  record { returns = rw (v.free_listed.0, v.used_listed); data_kept = λ a. ground arith },
)
new_wp-Holds s (i ∷ xs) n free v =
    let c : Chain = record { first = s.head; pool = s.wp_pool } in
    let k : n < nr_wp = omega (arith, length-Within nr_wp (suc n) free v.free_within.1) in
    let m : has n (i ∷ xs) ≡ false = ground (arith, v.apart n) in
    let ready = insert-Ready n i xs c v.used_listed v.used_within k m v.numbered in
    let (d, e, ins) = insert_loop-Inserted 34 n i xs none c ready (room n i xs v.used_within k m) in
    (
      taken s i xs n free v d ins,
      taken-Holds s i xs n free v d ins,
      record {
        returns = new_wp-step s n i d v.free_listed.0 v.used_listed.0 e;
        data_kept =
            λ a. SameData-of_next (s.wp_pool a) (d.pool a) (d.pool a).next (ins.only_next a);
      },
    )

-- With no free cell `new_wp` returns `NULL` and changes nothing.
pub new_wp-full : (s : Watchpoints) (used : List ℕ) → Holds s used [] → new_wp s ≡ done (none, s)
unfolding new_wp
new_wp-full s used v = rw v.free_listed
