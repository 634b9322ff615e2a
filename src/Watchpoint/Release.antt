-- ===== src/Watchpoint/Release.antt =====
-- `free_wp`: a cell goes back to the free list, on each of its branches.
use fpga_npc.Base.{
  ℕ, suc, ◌≤◌, ◌<◌, ◌≡◌, refl, ap, ◌∙◌, ◌≢◌, true, false, Option, none, some, List, [], ◌∷◌, done,
  aborted, arith,
}
use fpga_npc.Watchpoint.{
  Pool, Watchpoints, nr_wp, Chain, update, clear_cell, insert_loop, find_loop, release_cell,
  free_wp,
}
use fpga_npc.Watchpoint.Chains.{Links, has, insert, Links-frame, Inserted, insert_loop-Inserted}
use fpga_npc.Watchpoint.Find.{remove, Readable, Removed, find_loop-Removed, find_loop-none}
use fpga_npc.Watchpoint.Sorted.{
  Within, length-Within, has-Within, Within-Distinct, insert-Within, remove-Within, not-has-remove,
  has-remove_ne, has-insert,
}
use fpga_npc.Watchpoint.Invariant.{Holds, SameData, Named-of_Within, room, insert-Ready}

-- The cell `n` after the call, and the others.
abbrev pub Cleared : ℕ → Watchpoints → Watchpoints → Type 0
Cleared n s t =
    ((t.wp_pool n).what ≡ [])
    × ((t.wp_pool n).value ≡ 0)
    × ((t.wp_pool n).trigger_flag ≡ (s.wp_pool n).trigger_flag)
    × ((a : ℕ) → a ≢ n → SameData (s.wp_pool a) (t.wp_pool a))

used-Readable :
    (s : Watchpoints) (used free : List ℕ)
    → Holds s used free
    → Readable used none (record { first = s.head; pool = s.wp_pool })
used-Readable s used free v = record {
  listed = v.used_listed;
  named = Named-of_Within s.wp_pool 0 used v.numbered v.used_within;
  distinct = Within-Distinct nr_wp 0 used v.used_within;
  pre_out = λ p e. ground arith;
}

-- The pool after the cell is taken out of the used list and cleared.
module _ (n : ℕ) (s : Watchpoints) (used free : List ℕ) (v : Holds s used free)
    (m : has n used ≡ true) (c : Chain)
    (rem : Removed n used none (record { first = s.head; pool = s.wp_pool }) c) where
  pub cleared : Pool
  unfolding clear_cell
  cleared = update c.pool n (clear_cell (c.pool n))

  n-lt : n < nr_wp
  n-lt = (has-Within nr_wp 0 n used v.used_within m).1

  cleared-numbered : (a : ℕ) → a < nr_wp → (cleared a).no ≡ a
  unfolding cleared
  cleared-numbered a h = ground (arith, rem.only_next a, v.numbered a)

  cleared-used : Links cleared c.first (remove n used)
  unfolding cleared
  cleared-used =
      Links-frame c.pool cleared c.first (remove n used)
        (λ a k. ground (arith, not-has-remove nr_wp 0 n used v.used_within)) rem.linked

  cleared-free : Links cleared s.free_ free
  unfolding cleared
  cleared-free =
      Links-frame s.wp_pool cleared s.free_ free
        (λ a k. ground (arith, v.apart a, v.apart n, rem.frame a)) v.free_listed

  -- The apart lists after the cell has changed sides.
  moved-apart : (a : ℕ) → has a (remove n used) ≡ true → has a (insert n free) ≡ false
  moved-apart a h = ground (
    arith,
    v.apart a,
    has-insert a n free,
    has-remove_ne a n used,
    not-has-remove nr_wp 0 n used v.used_within,
  )

  remove-used-Within : Within 0 nr_wp (remove n used)
  remove-used-Within = remove-Within nr_wp 0 n used v.used_within

  -- With no free cell the loop over the free list has nothing to do.
  leaked : Watchpoints
  leaked = record { wp_pool = cleared; head = c.first; free_ = s.free_ }

  leaked-Holds : s.free_ ≡ none → Holds leaked (remove n used) []
  unfolding leaked
  leaked-Holds e = record {
    used_listed = cleared-used;
    free_listed = e;
    used_within = remove-used-Within;
    free_within = omega arith;
    apart = λ a h. refl;
    numbered = cleared-numbered;
  }

  leaked-Cleared : Cleared n s leaked
  unfolding leaked cleared clear_cell
  leaked-Cleared = (
    ground arith,
    ground arith,
    ground (arith, rem.only_next n),
    λ a h. ground (arith, rem.only_next a),
  )

  module _ (f : ℕ) (rest : List ℕ) (e : free ≡ f ∷ rest) (d : Chain)
      (ins : Inserted n (f ∷ rest) none (record { first = s.free_; pool = cleared }) d) where
    released : Watchpoints
    released = record { wp_pool = d.pool; head = c.first; free_ = d.first }

    released-Holds : Holds released (remove n used) (insert n free)
    unfolding released
    released-Holds = record {
      used_listed =
          Links-frame cleared d.pool c.first (remove n used)
            (λ a h. ground (
              arith,
              ins.frame a,
              v.apart a,
              has-remove_ne a n used,
              not-has-remove nr_wp 0 n used v.used_within,
            ))
            cleared-used;
      free_listed = rw e ins.linked;
      used_within = remove-used-Within;
      free_within =
          insert-Within nr_wp 0 n free (omega arith) n-lt (ground (arith, v.apart n)) v.free_within;
      apart = moved-apart;
      numbered = λ a h. ap (λ w. w.no) (ins.only_next a) ∙ cleared-numbered a h;
    }

    released-Cleared : Cleared n s released
    unfolding released cleared clear_cell
    released-Cleared = (
      ground (arith, ins.only_next n),
      ground (arith, ins.only_next n),
      ground (arith, ins.only_next n, rem.only_next n),
      λ a h. ground (arith, ins.only_next a, rem.only_next a),
    )

-- The chain of calls in `free_wp`.
free_wp-step :
    (n f : ℕ) (s : Watchpoints) (c d : Chain)
    → n < 32
    → s.free_ ≡ some f
    → find_loop 34 n none s.head (record { first = s.head; pool = s.wp_pool }) ≡ done (some n, c)
    → insert_loop 34 n none
        (some f)
        (record { first = s.free_; pool = update c.pool n (clear_cell (c.pool n)) })
      ≡ done d
    → free_wp n s ≡ done (record { wp_pool = d.pool; head = c.first; free_ = d.first })
unfolding free_wp release_cell
free_wp-step n f s c d k h e i = ground arith

-- While some cell is free, free_wp of a number in use takes the cell out of the used list and puts
-- it at its place in the free list, keeps the invariant, clears the cell's expression and value
-- but not its trigger flag, and writes nothing but links elsewhere.
pub free_wp-Holds :
    (n : ℕ) (s : Watchpoints) (used : List ℕ) (f : ℕ) (rest : List ℕ)
    → Holds s used (f ∷ rest)
    → has n used ≡ true
    → (t : Watchpoints) × (free_wp n s ≡ done t)
      × Holds t (remove n used) (insert n (f ∷ rest))
      × Cleared n s t
unfolding released cleared
free_wp-Holds n s used f rest v m =
    let free = f ∷ rest in
    let (c, e, rem) =
      find_loop-Removed 34 n used none (record { first = s.head; pool = s.wp_pool })
        (used-Readable s used free v) m (omega (arith, length-Within nr_wp 0 used v.used_within)) in
    let k = n-lt n s used free v m c rem in
    let out : has n free ≡ false = v.apart n m in
    let pool = cleared n s used free v m c rem in
    let start : Chain = record { first = s.free_; pool = pool } in
    let ready =
      insert-Ready n f rest start (cleared-free n s used free v m c rem) v.free_within k out
        (cleared-numbered n s used free v m c rem) in
    let (d, g, ins) =
      insert_loop-Inserted 34 n f rest none start ready (room n f rest v.free_within k out) in
    (
      released n s used free v m c rem f rest refl d ins,
      free_wp-step n f s c d k v.free_listed.0 e g,
      released-Holds n s used free v m c rem f rest refl d ins,
      released-Cleared n s used free v m c rem f rest refl d ins,
    )

insert_loop-empty :
    (fuel n : ℕ) (pre : Option ℕ) (c : Chain) → insert_loop (suc fuel) n pre none c ≡ done c
unfolding insert_loop
insert_loop-empty fuel n pre c = refl

free_wp-stuck :
    (n : ℕ) (s : Watchpoints) (c : Chain)
    → n < 32
    → s.free_ ≡ none
    → find_loop 34 n none s.head (record { first = s.head; pool = s.wp_pool }) ≡ done (some n, c)
    → free_wp n s
      ≡ done (record {
        wp_pool = update c.pool n (clear_cell (c.pool n));
        head = c.first;
        free_ = s.free_;
      })
unfolding free_wp release_cell
free_wp-stuck n s c k h e = ground (
  arith,
  insert_loop-empty 33 n none
      (record { first = s.free_; pool = update c.pool n (clear_cell (c.pool n)) }),
)

-- With no free cell, free_wp of a number in use takes the cell out of the used list and clears it,
-- and the free list stays empty: the cell is in neither list.
pub free_wp-leak :
    (n : ℕ) (s : Watchpoints) (used : List ℕ)
    → Holds s used []
    → has n used ≡ true
    → (t : Watchpoints) × (free_wp n s ≡ done t) × Holds t (remove n used) [] × Cleared n s t
unfolding leaked cleared
free_wp-leak n s used v m =
    let (c, e, rem) =
      find_loop-Removed 34 n used none (record { first = s.head; pool = s.wp_pool })
        (used-Readable s used [] v) m (omega (arith, length-Within nr_wp 0 used v.used_within)) in
    (
      leaked n s used [] v m c rem,
      free_wp-stuck n s c (n-lt n s used [] v m c rem) v.free_listed e,
      leaked-Holds n s used [] v m c rem v.free_listed,
      leaked-Cleared n s used [] v m c rem,
    )

-- In a state that fulfils the invariant, free_wp of a number of at most 32 that is not in use
-- fails the assert.
pub free_wp-unused :
    (n : ℕ) (s : Watchpoints) (used free : List ℕ)
    → Holds s used free
    → has n used ≡ false
    → n ≤ 32
    → free_wp n s ≡ aborted
unfolding free_wp release_cell
free_wp-unused n s used free v m h =
    let e =
      find_loop-none 34 n used none s.head (record { first = s.head; pool = s.wp_pool })
        v.used_listed (Named-of_Within s.wp_pool 0 used v.numbered v.used_within) m
        (omega (arith, length-Within nr_wp 0 used v.used_within)) in
    ground (arith, e)

-- A number above 32 is refused and changes nothing.
pub free_wp_above : (n : ℕ) (s : Watchpoints) → 32 < n → free_wp n s ≡ done s
unfolding free_wp
free_wp_above n s h = ground arith
