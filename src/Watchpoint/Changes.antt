-- ===== src/Watchpoint/Changes.antt =====
-- The two loops over the watchpoints in use: `info_wp` and `check_diff`.
use fpga_npc.Base.{
  ℕ, zero, suc, ◌<◌, ◌≡◌, Option, none, some, List, [], ◌∷◌, map, ◌==◌, if◌then◌else◌, Outcome,
  done, ◌>>=◌, Ends, bind-Ends, All, refl, ◌⊎◌, arith, length, Bool-cases, inl, inr,
}
use fpga_npc.Watchpoint.{
  Pool, Watchpoints, nr_wp, update, info_loop, info_wp, check_loop, check_diff,
}
use fpga_npc.Watchpoint.Chains.{Links, Named}
use fpga_npc.Watchpoint.Sorted.{length-Within}
use fpga_npc.Watchpoint.Invariant.{Holds, Named-of_Within}

info_loop-lines :
    (fuel : ℕ) (p : Option ℕ) (pool : Pool) (xs : List ℕ)
    → Links pool p xs
    → Named pool xs
    → length xs < fuel
    → info_loop fuel p pool ≡ done (map (λ a. (a, (pool a).what)) xs)
unfolding info_loop
info_loop-lines zero p pool xs l v f = absurd (omega arith)
info_loop-lines (suc fuel) p pool [] l v f = rw l
info_loop-lines (suc fuel) p pool (i ∷ xs) l v f =
    rw (l.0, info_loop-lines fuel (pool i).next pool xs l.1 v.1 (omega arith), v.0)

-- In a state that fulfils the invariant, info_wp prints the number and the expression of each cell
-- of the used list once, in the order of the list.
pub info_wp-lines :
    (s : Watchpoints) (used free : List ℕ)
    → Holds s used free
    → info_wp s ≡ done (map (λ a. (a, (s.wp_pool a).what)) used)
unfolding info_wp
info_wp-lines s used free h =
    info_loop-lines 34 s.head s.wp_pool used h.used_listed
      (Named-of_Within s.wp_pool 0 used h.numbered h.used_within)
      (omega (arith, length-Within nr_wp 0 used h.used_within))

-- The first watchpoint of a list whose expression has another value now.
unfoldable pub first_changed : (List ℕ → ℕ) → Pool → List ℕ → Option ℕ
first_changed value_of pool [] = none
first_changed value_of pool (i ∷ xs) =
    if value_of (pool i).what == (pool i).value then first_changed value_of pool xs else some i

-- What `check_diff` makes of it: the old value is reported and the new one recorded.
abbrev pub reported : (List ℕ → ℕ) → Pool → Option ℕ → Option (ℕ × ℕ) × Pool
reported value_of pool none = (none, pool)
reported value_of pool (some i) =
    (some (i, (pool i).value), update pool i (record (pool i) { value = value_of (pool i).what }))

-- The expressions of the list have values.
abbrev pub Valued : (List ℕ → Outcome ℕ) → (List ℕ → ℕ) → Pool → List ℕ → Type 0
Valued expr value_of pool xs = All (λ i. expr (pool i).what ≡ done (value_of (pool i).what)) xs

check_loop_lem :
    (expr : List ℕ → Outcome ℕ) (value_of : List ℕ → ℕ) (fuel : ℕ) (p : Option ℕ) (pool : Pool)
    (xs : List ℕ)
    → Links pool p xs
    → Valued expr value_of pool xs
    → length xs < fuel
    → check_loop expr fuel p pool ≡ done (reported value_of pool (first_changed value_of pool xs))
unfolding check_loop first_changed
check_loop_lem expr value_of zero p pool xs l v f = absurd (omega arith)
check_loop_lem expr value_of (suc fuel) p pool [] l v f = rw l
check_loop_lem expr value_of (suc fuel) p pool (i ∷ xs) l v f =
    rw (l.0, v.0, ◌>>=◌)
      (elim (Bool-cases (value_of (pool i).what == (pool i).value)) [
        | inl same ↦
            rw same (check_loop_lem expr value_of fuel (pool i).next pool xs l.1 v.1 (omega arith))
        | inr changed ↦ rw changed
      ])

-- What check_diff makes of the first changed one, when the expressions have values.
pub check_diff-first_changed :
    (expr : List ℕ → Outcome ℕ) (value_of : List ℕ → ℕ) (s : Watchpoints) (used free : List ℕ)
    → Holds s used free
    → Valued expr value_of s.wp_pool used
    → let r = reported value_of s.wp_pool (first_changed value_of s.wp_pool used) in
      check_diff expr s ≡ done (r.0, record s { wp_pool = r.1 })
unfolding check_diff
check_diff-first_changed expr value_of s used free h v = rw (
    check_loop_lem expr value_of 34 s.head s.wp_pool used h.used_listed v
      (omega (arith, length-Within nr_wp 0 used h.used_within)))

-- Nothing, or one cell with a new value.
abbrev pub Change : Pool → Option (ℕ × ℕ) × Pool → Type 0
Change pool r =
    (r ≡ (none, pool))
    ⊎ ((i : ℕ) × (now : ℕ) × (r
          ≡ (some (i, (pool i).value), update pool i (record (pool i) { value = now }))))

check_loop-Change :
    (expr : List ℕ → Outcome ℕ) (fuel : ℕ) (p : Option ℕ) (pool : Pool) (xs : List ℕ)
    → Links pool p xs
    → ((i : ℕ) → Ends (λ _. Unit) (expr (pool i).what))
    → length xs < fuel
    → Ends (Change pool) (check_loop expr fuel p pool)
unfolding check_loop
check_loop-Change expr zero p pool xs l e f = absurd (omega arith)
check_loop-Change expr (suc fuel) p pool [] l e f = rw (l, check_loop) (inl refl)
check_loop-Change expr (suc fuel) p pool (i ∷ xs) l e f =
    rw (l.0, check_loop)
      (bind-Ends (λ _. Unit) (Change pool) (expr (pool i).what) _ (e i)
        (λ now u. elim (Bool-cases (now == (pool i).value)) [
          | inl same ↦
              rw same (check_loop-Change expr fuel (pool i).next pool xs l.1 e (omega arith))
          | inr changed ↦ rw changed (inr (i, now, refl))
        ]))

-- Where the evaluations never run out of fuel, neither does `check_diff`.
pub check_diff-Change :
    (expr : List ℕ → Outcome ℕ) (s : Watchpoints) (used free : List ℕ)
    → Holds s used free
    → ((i : ℕ) → Ends (λ _. Unit) (expr (s.wp_pool i).what))
    → Ends
        (λ r. Change s.wp_pool (r.0, r.1.wp_pool) × (r.1 ≡ record s { wp_pool = r.1.wp_pool }))
        (check_diff expr s)
unfolding check_diff
check_diff-Change expr s used free h e =
    bind-Ends (Change s.wp_pool) _ (check_loop expr 34 s.head s.wp_pool) _
      (check_loop-Change expr 34 s.head s.wp_pool used h.used_listed e
        (omega (arith, length-Within nr_wp 0 used h.used_within)))
      (λ r c. (c, refl))
