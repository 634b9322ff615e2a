-- ===== src/Watchpoint/Chains.antt =====
-- Lists of watchpoints in the pool: the cells that the `next` pointers lead through.
use fpga_npc.Base.{
  ℕ, zero, suc, ◌+◌, ◌<◌, ◌≡◌, refl, ◌≢◌, Bool, true, false, ◌||◌, Option, none, some, List, [],
  ◌∷◌, ltb, ◌==◌, if◌then◌else◌, done, ap, All, arith, length, ◌∙◌, ◌+◌, zero, Bool-cases, inl, inr,
}
use fpga_npc.Watchpoint.{Pool, Chain, set_next, relink, append_behind, insert_loop}

-- From `p` the pointers lead through the cells of the list to `NULL`.
abbrev pub Links : Pool → Option ℕ → List ℕ → Type 0
Links pool p [] = p ≡ none
Links pool p (i ∷ xs) = (p ≡ some i) × Links pool (pool i).next xs

abbrev pub has : ℕ → List ℕ → Bool
has a [] = false
has a (x ∷ xs) = (a == x) || has a xs

abbrev pub Distinct : List ℕ → Type 0
Distinct [] = Unit {0}
Distinct (x ∷ xs) = (has x xs ≡ false) × Distinct xs

-- A cell's number is its index.
abbrev pub Named : Pool → List ℕ → Type 0
Named pool = All λ a. (pool a).no ≡ a

-- Insertion in front of the first larger number.
abbrev pub insert : ℕ → List ℕ → List ℕ
insert n [] = n ∷ []
insert n (x ∷ xs) = if ltb n x then n ∷ x ∷ xs else x ∷ insert n xs

-- Where the list behind `pre` begins.
abbrev pub start : Option ℕ → Chain → Option ℕ
start none c = c.first
start (some p) c = (c.pool p).next

-- A pool that differs from another at most in `next` fields of the cells of a list.
pub Links-frame :
    (g h : Pool) (p : Option ℕ) (xs : List ℕ)
    → ((a : ℕ) → has a xs ≡ true → h a ≡ g a)
    → Links g p xs
    → Links h p xs
Links-frame g h p [] same l = l
Links-frame g h p (x ∷ xs) same l =
    ground (arith, same x, Links-frame g h (g x).next xs (λ a m. same a (ground arith)) l.1)

pub record Inserted (node : ℕ) (xs : List ℕ) (pre : Option ℕ) (c d : Chain) : Type 0 where
  pub linked : Links d.pool (start pre d) (insert node xs)
  pub kept_first : pre ≢ none → d.first ≡ c.first
  pub only_next : (a : ℕ) → d.pool a ≡ record (c.pool a) { next = (d.pool a).next }
  pub frame : (a : ℕ) → a ≢ node → has a xs ≡ false → pre ≢ some a → d.pool a ≡ c.pool a

-- The loop behind the appended node: it writes the same pointers again and ends.
insert_loop-last :
    (fuel node i : ℕ) (c : Chain)
    → (c.pool node).next ≡ none
    → insert_loop (suc (suc fuel)) node (some i) (some node) c
      ≡ done (record c { pool = append_behind node node c.pool })
unfolding insert_loop append_behind relink
insert_loop-last fuel node i c e = ground arith

-- What the loop relies on: the list behind `pre`, and `node` and `pre` outside of it.
pub record Ready (node : ℕ) (xs : List ℕ) (pre : Option ℕ) (c : Chain) : Type 0 where
  pub listed : Links c.pool (start pre c) xs
  pub node_no : (c.pool node).no ≡ node
  pub named : Named c.pool xs
  pub distinct : Distinct xs
  pub node_out : has node xs ≡ false
  pub pre_out : (p : ℕ) → pre ≡ some p → has p xs ≡ false
  pub pre_ne : pre ≢ some node

module _ (node i : ℕ) (xs : List ℕ) (c : Chain) where
  before : Option ℕ → Chain
  unfolding relink
  before pre = let b = relink pre (some node) c in record b { pool = set_next b.pool node (some i) }

  -- A write to `pre` and `node` does not reach the cells behind `i`.
  before-keeps :
      (pre : Option ℕ)
      → Ready node (i ∷ xs) pre c
      → (a : ℕ) → has a (i ∷ xs) ≡ true
      → (before pre).pool a ≡ c.pool a
  unfolding before
  before-keeps none r a m = ground (arith, r.node_out)
  before-keeps (some p) r a m = ground (arith, r.node_out, r.pre_out p)

  before-Links :
      (pre : Option ℕ)
      → Ready node (i ∷ xs) pre c
      → Links (before pre).pool (start pre (before pre)) (node ∷ i ∷ xs)
  unfolding before
  before-Links none r = (
    refl,
    (
      ground arith,
      Links-frame c.pool _ _ xs (λ a m. before-keeps none r a (ground arith))
          (ground (arith, before-keeps none r i)),
    ),
  )
  before-Links (some p) r = (
    ground (arith, r.pre_ne),
    (
      ground arith,
      Links-frame c.pool _ _ xs (λ a m. before-keeps (some p) r a (ground arith))
          (ground (arith, before-keeps (some p) r i)),
    ),
  )

  before-Inserted :
      (pre : Option ℕ)
      → Ready node (i ∷ xs) pre c
      → ltb node i ≡ true
      → Inserted node (i ∷ xs) pre c (before pre)
  unfolding before
  before-Inserted none r h = record {
    linked = rw h (before-Links none r);
    kept_first = ground arith;
    only_next = λ a. ground arith;
    frame = λ a n o p. ground arith;
  }
  before-Inserted (some p) r h = record {
    linked = rw h (before-Links (some p) r);
    kept_first = λ _. refl;
    only_next = λ a. ground arith;
    frame = λ a n o q. ground arith;
  }

-- The last cell: `node` is appended, and the loop looks at it once more.
module _ (node i : ℕ) (c : Chain) where
  last : Chain
  unfolding append_behind
  last = record c { pool = append_behind node node (append_behind node i c.pool) }

  last-Inserted :
      (pre : Option ℕ)
      → Ready node (i ∷ []) pre c
      → ltb node i ≡ false
      → Inserted node (i ∷ []) pre c last
  unfolding last
  last-Inserted none r h = record {
    linked = rw h (ground arith);
    kept_first = ground arith;
    only_next = λ a. ground arith;
    frame = λ a n o p. ground arith;
  }
  last-Inserted (some p) r h = record {
    linked = rw h (ground (arith, r.pre_out p, r.pre_ne));
    kept_first = λ _. refl;
    only_next = λ a. ground arith;
    frame = λ a n o p. ground arith;
  }

-- A cell that the loop goes past stays in front of what the rest of the loop made.
module _ (node i : ℕ) (xs : List ℕ) (c d : Chain) where
  passed-Inserted :
      (pre : Option ℕ)
      → Ready node (i ∷ xs) pre c
      → ltb node i ≡ false
      → Inserted node xs (some i) c d
      → Inserted node (i ∷ xs) pre c d
  passed-Inserted none r h v = record {
    linked = rw h (ground (arith, v.kept_first), v.linked);
    kept_first = ground arith;
    only_next = v.only_next;
    frame = λ a n o p. v.frame a n (ground arith) (ground arith);
  }
  passed-Inserted (some p) r h v = record {
    linked = rw h (ground (arith, v.frame p, r.pre_out p, r.pre_ne), v.linked);
    kept_first = λ _. v.kept_first (ground arith);
    only_next = v.only_next;
    frame = λ a n o q. v.frame a n (ground arith) (ground arith);
  }

-- One round of the loop, on each of its branches.
insert_loop-stop :
    (fuel node i : ℕ) (xs : List ℕ) (pre : Option ℕ) (c : Chain)
    → Ready node (i ∷ xs) pre c
    → ltb node i ≡ true
    → insert_loop (suc fuel) node pre (some i) c ≡ done (before node i xs c pre)
unfolding insert_loop before
insert_loop-stop fuel node i xs pre c r h = rw (r.node_no, r.named.0, h)

insert_loop-append :
    (fuel node i : ℕ) (pre : Option ℕ) (c : Chain)
    → ltb (c.pool node).no (c.pool i).no ≡ false
    → (c.pool i).next ≡ none
    → i ≢ node
    → insert_loop (suc fuel) node pre (some i) c
      ≡ insert_loop fuel node (some i) (some node) (record c { pool = append_behind node i c.pool })
unfolding insert_loop
insert_loop-append fuel node i pre c h e n =
    let e' : (append_behind node i c.pool i).next ≡ some node = ground arith in rw (h, e, e')

insert_loop-past :
    (fuel node i j : ℕ) (pre : Option ℕ) (c : Chain)
    → ltb (c.pool node).no (c.pool i).no ≡ false
    → (c.pool i).next ≡ some j
    → insert_loop (suc fuel) node pre (some i) c ≡ insert_loop fuel node (some i) (some j) c
unfolding insert_loop
insert_loop-past fuel node i j pre c h e =
    rw (h, e) (ap (λ t. insert_loop fuel node (some i) t c) e)

insert_loop-end :
    (fuel node i : ℕ) (pre : Option ℕ) (c : Chain)
    → Ready node (i ∷ []) pre c
    → ltb node i ≡ false
    → 2 < fuel
    → insert_loop (suc fuel) node pre (some i) c ≡ done (last node i c)
unfolding last append_behind
insert_loop-end zero node i pre c r h f = absurd (omega arith)
insert_loop-end (suc zero) node i pre c r h f = absurd (omega arith)
insert_loop-end (suc (suc fuel)) node i pre c r h f =
    insert_loop-append (suc (suc fuel)) node i pre c (rw (r.node_no, r.named.0) h) r.listed.1
      (ground (arith, r.node_out))
    ∙ insert_loop-last fuel node i (record c { pool = append_behind node i c.pool }) (ground arith)

insert_loop-on :
    (fuel node i j : ℕ) (xs : List ℕ) (pre : Option ℕ) (c : Chain)
    → Ready node (i ∷ j ∷ xs) pre c
    → ltb node i ≡ false
    → insert_loop (suc fuel) node pre (some i) c ≡ insert_loop fuel node (some i) (some j) c
insert_loop-on fuel node i j xs pre c r h =
    insert_loop-past fuel node i j pre c (rw (r.node_no, r.named.0) h) r.listed.1.0

Ready-tail :
    (node i j : ℕ) (xs : List ℕ) (pre : Option ℕ) (c : Chain)
    → Ready node (i ∷ j ∷ xs) pre c
    → Ready node (j ∷ xs) (some i) c
Ready-tail node i j xs pre c r = record {
  listed = r.listed.1;
  node_no = r.node_no;
  named = r.named.1;
  distinct = r.distinct.1;
  node_out = ground (arith, r.node_out);
  pre_out = λ p e. ground (arith, r.distinct);
  pre_ne = λ e. ground (arith, r.node_out);
}

-- The loop puts `node` in its place, changes only `next` fields, and ends in the rounds it needs.
pub insert_loop-Inserted :
    (fuel node i : ℕ) (xs : List ℕ) (pre : Option ℕ) (c : Chain)
    → Ready node (i ∷ xs) pre c
    → length xs + 3 < fuel
    → (d : Chain) × (insert_loop fuel node pre (some i) c ≡ done d) × Inserted node (i ∷ xs) pre c d
insert_loop-Inserted zero node i xs pre c r f = absurd (omega arith)
insert_loop-Inserted (suc fuel) node i [] pre c r f = elim (Bool-cases (ltb node i)) [
  | inl h ↦ (
    before node i [] c pre,
    insert_loop-stop fuel node i [] pre c r h,
    before-Inserted node i [] c pre r h,
  )
  | inr h ↦ (
    last node i c,
    insert_loop-end fuel node i pre c r h (omega arith),
    last-Inserted node i c pre r h,
  )
]
insert_loop-Inserted (suc fuel) node i (j ∷ xs) pre c r f = elim (Bool-cases (ltb node i)) [
  | inl h ↦ (
    before node i (j ∷ xs) c pre,
    insert_loop-stop fuel node i (j ∷ xs) pre c r h,
    before-Inserted node i (j ∷ xs) c pre r h,
  )
  | inr h ↦
      let (d, e, v) =
        insert_loop-Inserted fuel node j xs (some i) c (Ready-tail node i j xs pre c r)
          (omega arith) in
      (
        d,
        rw (insert_loop-on fuel node i j xs pre c r h) e,
        passed-Inserted node i (j ∷ xs) c d pre r h v,
      )
]
