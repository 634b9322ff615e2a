-- ===== src/Watchpoint/Init.antt =====
-- `init_wp_pool`: all cells on the free list.
use fpga_npc.Base.{
  ℕ, zero, suc, ◌+◌, ◌<◌, ◌≡◌, refl, ap, ◌&&◌, some, List, [], ◌∷◌, ltb, leb, if◌then◌else◌, arith,
}
use fpga_npc.Watchpoint.{
  Pool, Watchpoints, nr_wp, update, next_cell, init_cell, init_loop, init_wp_pool,
}
use fpga_npc.Watchpoint.Chains.{Links}
use fpga_npc.Watchpoint.Sorted.{Within}
use fpga_npc.Watchpoint.Invariant.{Holds}

-- The numbers from `lo` on, `n` of them.
abbrev pub upto : ℕ → ℕ → List ℕ
upto lo zero = []
upto lo (suc n) = lo ∷ upto (suc lo) n

-- The loop writes the cells of its range and no other.
pub init_loop_lem :
    (rounds i : ℕ) (pool : Pool) (a : ℕ)
    → init_loop rounds i pool a
      ≡ (if leb i a && ltb a (i + rounds) then init_cell a (pool a) else pool a)
unfolding init_loop
init_loop_lem zero i pool a = ground arith
init_loop_lem (suc rounds) i pool a =
    ground (arith, init_loop_lem rounds (i + 1) (update pool i (init_cell i (pool i))) a)

module _ (s : Watchpoints) where
  pub init-cell : (a : ℕ) → a < nr_wp → (init_wp_pool s).wp_pool a ≡ init_cell a (s.wp_pool a)
  unfolding init_wp_pool
  init-cell a h = ground (arith, init_loop_lem nr_wp 0 s.wp_pool a)

  init-next : (a : ℕ) → a < nr_wp → ((init_wp_pool s).wp_pool a).next ≡ next_cell a
  unfolding init_cell
  init-next a h = ap (λ w. w.next) (init-cell a h)

  init-Links :
      (n lo : ℕ) → lo + suc n ≡ nr_wp → Links (init_wp_pool s).wp_pool (some lo) (upto lo (suc n))
  init-Links zero lo h = (refl, ground (arith, init-next lo))
  init-Links (suc n) lo h = (
    refl,
    let e : ((init_wp_pool s).wp_pool lo).next ≡ some (suc lo) = ground (arith, init-next lo) in
        rw e (init-Links n (suc lo) (omega arith)),
  )

upto-Within : (n lo : ℕ) → Within lo (lo + n) (upto lo n)
upto-Within zero lo = omega arith
upto-Within (suc n) lo =
    let e : suc lo + n ≡ lo + suc n = omega arith in (omega arith, rw e at (upto-Within n (suc lo)))

-- After init_wp_pool, whatever the state was, the invariant holds with no cell in use and all 32
-- cells free, in order.
pub init_wp_pool-Holds : (s : Watchpoints) → Holds (init_wp_pool s) [] (upto 0 nr_wp)
unfolding init_wp_pool
init_wp_pool-Holds s = record {
  used_listed = refl;
  free_listed = init-Links s 31 0 refl;
  used_within = omega arith;
  free_within = upto-Within 32 0;
  apart = λ a h. absurd (cc);
  numbered = λ a h. unfold init_cell in ap (λ w. w.no) (init-cell s a h);
}
