-- ===== src/Watchpoint.antt =====
-- csrc/sdb/watchpoint.cpp and include/watchpoint.h: the pool of watchpoints and its two lists.
pub mod Chains
pub mod Find
pub mod Sorted
pub mod Invariant
pub mod Release
pub mod Init
pub mod Refinement
pub mod Changes
pub mod Examples
use fpga_npc.Base.{
  ℕ, zero, suc, ◌+◌, Bool, true, false, Option, none, some, List, [], ◌∷◌, ltb, ◌==◌, if◌then◌else◌,
  Outcome, done, aborted, out_of_fuel, ◌>>=◌,
}

abbrev pub nr_wp : ℕ
nr_wp = 32

-- `WP`. A pointer is the index of a cell of `wp_pool`, and `none` is `NULL`.
pub record Wp : Type 0 where
  pub no : ℕ
  pub next : Option ℕ
  pub what : List ℕ
  pub value : ℕ
  pub trigger_flag : Bool

abbrev pub Pool : Type 0
Pool = ℕ → Wp

-- The static variables of the file.
pub record Watchpoints : Type 0 where
  pub wp_pool : Pool
  pub head : Option ℕ
  pub free_ : Option ℕ

-- A write to one cell.
abbrev pub update : Pool → ℕ → Wp → Pool
update pool a w b = if b == a then w else pool b

-- `a->next = p`
abbrev pub set_next : Pool → ℕ → Option ℕ → Pool
set_next pool a p = update pool a (record (pool a) { next = p })

-- `&wp_pool[i + 1]`, or `NULL` behind the last cell.
abbrev pub next_cell : ℕ → Option ℕ
next_cell i = if i == 31 then none else some (i + 1)

-- The body of the loop of `init_wp_pool`; what it does not write stays as it was.
pub init_cell : ℕ → Wp → Wp
init_cell i w = record w { no = i; next = next_cell i; trigger_flag = false }

pub init_loop : ℕ → ℕ → Pool → Pool
init_loop zero i pool = pool
init_loop (suc rounds) i pool = init_loop rounds (i + 1) (update pool i (init_cell i (pool i)))

unfoldable pub init_wp_pool : Watchpoints → Watchpoints
unfolding init_loop init_cell
init_wp_pool s = record { wp_pool = init_loop nr_wp 0 s.wp_pool; head = none; free_ = some 0 }

-- A list that is being changed: the variable that holds its first cell, and the cells.
pub record Chain : Type 0 where
  pub first : Option ℕ
  pub pool : Pool

-- `if (pre == NULL) first = p; else pre->next = p;`
pub relink : Option ℕ → Option ℕ → Chain → Chain
relink none p c = record c { first = p }
relink (some a) p c = record c { pool = set_next c.pool a p }

-- `iter->next = node; node->next = NULL;`
pub append_behind : ℕ → ℕ → Pool → Pool
append_behind node i pool = set_next (set_next pool i (some node)) node none

-- The loop that puts `node` into a list sorted by number. The loop goes on after it has appended
-- the node, as in the source.
pub insert_loop : ℕ → ℕ → (pre iter : Option ℕ) → Chain → Outcome Chain
unfolding relink append_behind
insert_loop zero node pre iter c = out_of_fuel
insert_loop (suc fuel) node pre none c = done c
insert_loop (suc fuel) node pre (some i) c =
    let before = relink pre (some node) c in
    let linked = record before { pool = set_next before.pool node (some i) } in
    let appended = append_behind node i c.pool in
    let at_end = insert_loop fuel node (some i) (appended i).next (record c { pool = appended }) in
    let on = insert_loop fuel node (some i) (c.pool i).next c in
    if ltb (c.pool node).no (c.pool i).no
    then done linked
    else elim (c.pool i).next [ none ↦ at_end | some _ ↦ on ]

-- The loops below run over at most 32 cells, and the one above looks at the last cell twice.
abbrev pub rounds : ℕ
rounds = 34

-- What `new_wp` returns, and the state that it leaves.
pub new_wp : Watchpoints → Outcome (Option ℕ × Watchpoints)
new_wp s = elim s.free_ [
  | none ↦ done (none, s)
  | some node ↦ elim s.head [
    | none ↦ done (
      some node,
      record {
        wp_pool = set_next s.wp_pool node none;
        head = some node;
        free_ = (s.wp_pool node).next;
      },
    )
    | some h ↦ do
      c ← insert_loop rounds node none (some h) (record { first = s.head; pool = s.wp_pool })
      done (some node, record { wp_pool = c.pool; head = c.first; free_ = (s.wp_pool node).next })
  ]
]

-- The loop of `free_wp` that looks for number `n` and takes the cell out of the list.
pub find_loop : ℕ → ℕ → (pre iter : Option ℕ) → Chain → Outcome (Option ℕ × Chain)
unfolding relink
find_loop zero n pre iter c = out_of_fuel
find_loop (suc fuel) n pre none c = done (none, c)
find_loop (suc fuel) n pre (some i) c =
    let on = find_loop fuel n (some i) (c.pool i).next c in
    if (c.pool i).no == n then done (some i, relink pre (c.pool i).next c) else on

-- `memset(node->What, 0, …); node->value = 0;`
pub clear_cell : Wp → Wp
clear_cell w = record w { what = []; value = 0 }

pub release_cell : Watchpoints → Chain → Option ℕ → Outcome Watchpoints
release_cell s c none = aborted
release_cell s c (some node) = do
  freed ←
      insert_loop rounds node none s.free_
        (record { first = s.free_; pool = update c.pool node (clear_cell (c.pool node)) })
  done (record { wp_pool = freed.pool; head = c.first; free_ = freed.first })

-- `n` is a `word_t`, so the test `n < 0` of the source never holds.
pub free_wp : ℕ → Watchpoints → Outcome Watchpoints
free_wp n s = if ltb 32 n then done s else (do
  (node, c) ← find_loop rounds n none s.head (record { first = s.head; pool = s.wp_pool })
  release_cell s c node)

-- `info_wp`: the lines that it prints, number and expression.
pub info_loop : ℕ → Option ℕ → Pool → Outcome (List (ℕ × List ℕ))
info_loop zero iter pool = out_of_fuel
info_loop (suc fuel) none pool = done []
info_loop (suc fuel) (some i) pool = do
  rest ← info_loop fuel (pool i).next pool
  done (((pool i).no, (pool i).what) ∷ rest)

pub info_wp : Watchpoints → Outcome (List (ℕ × List ℕ))
info_wp s = info_loop rounds s.head s.wp_pool

-- `check_diff`: the first watchpoint whose expression has another value now, with the old value.
-- `value_of` is `expr` in the present state of the processor.
unfoldable pub check_loop :
    (List ℕ → Outcome ℕ) → ℕ → Option ℕ → Pool → Outcome (Option (ℕ × ℕ) × Pool)
check_loop value_of zero iter pool = out_of_fuel
check_loop value_of (suc fuel) none pool = done (none, pool)
check_loop value_of (suc fuel) (some i) pool =
    let on = check_loop value_of fuel (pool i).next pool in
    (do
      now ← value_of (pool i).what
      if now == (pool i).value
          then on
          else done (some (i, (pool i).value), update pool i (record (pool i) { value = now })))

unfoldable pub check_diff :
    (List ℕ → Outcome ℕ) → Watchpoints → Outcome (Option (ℕ × ℕ) × Watchpoints)
check_diff value_of s = do
  (found, pool) ← check_loop value_of rounds s.head s.wp_pool
  done (found, record s { wp_pool = pool })
