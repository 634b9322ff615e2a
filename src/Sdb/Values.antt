-- ===== src/Sdb/Values.antt =====
-- Watchpoints on the texts of expression trees.
use fpga_npc.Base.{
  ℕ, ◌≤◌, ◌≡◌, refl, ap, sym, subst, ◌∙◌, Option-cases, true, false, Option, none, some, List, [],
  ◌∷◌, ◌==◌, if◌then◌else◌, Outcome, done, All, length, arith, Bool-cases, inl, inr,
}
use fpga_npc.Npc.{Core}
use fpga_npc.Expr.Syntax.{Tree, render, Means}
use fpga_npc.Expr.Printing.{print}
use fpga_npc.Expr.Typed.{Leaves, expr-render}
use fpga_npc.Watchpoint.{Wp, Pool, update, check_diff}
use fpga_npc.Watchpoint.Chains.{has}
use fpga_npc.Watchpoint.Invariant.{Holds}
use fpga_npc.Watchpoint.Changes.{Valued, first_changed, check_diff-first_changed}
use fpga_npc.CpuExec.{World, Host, expr_value, trigger, watch}

-- A cell that holds the text of a tree, which has the value `now` in the present state of the registers.
pub record Watches (c : Core) (cell : Wp) (now : ℕ) : Type 0 where
  pub tree : Tree
  pub text : cell.what ≡ print (render tree)
  pub means : Means c.regs tree now
  pub leaves : Leaves tree
  pub short : length (render tree) ≤ 1024

-- The first cell of a list whose recorded value is not the one that its tree has now.
unfoldable pub first_other : (ℕ → ℕ) → Pool → List ℕ → Option ℕ
first_other now pool [] = none
first_other now pool (i ∷ xs) =
    let on = first_other now pool xs in if now i == (pool i).value then on else some i

abbrev value_or_zero : Outcome ℕ → ℕ
value_or_zero (done v) = v
value_or_zero _ = 0

abbrev text_value : Core → List ℕ → ℕ
text_value c text = value_or_zero (expr_value c text)

expr_value-now :
    (c : Core) (cell : Wp) (now : ℕ) → Watches c cell now → expr_value c cell.what ≡ done now
unfolding expr_value
expr_value-now c cell now w =
    rw (w.text, expr-render c.regs w.tree now false w.means w.leaves w.short) refl

module _ (c : Core) (now : ℕ → ℕ) (pool : Pool) where
  text_value-now : (i : ℕ) → Watches c (pool i) (now i) → text_value c (pool i).what ≡ now i
  text_value-now i w = ap value_or_zero (expr_value-now c (pool i) (now i) w)

  trees-Valued :
      (used : List ℕ)
      → All (λ i. Watches c (pool i) (now i)) used
      → Valued (expr_value c) (text_value c) pool used
  trees-Valued [] w = tt
  trees-Valued (i ∷ used) w = (
    expr_value-now c (pool i) (now i) w.0 ∙ ap done (sym (text_value-now i w.0)),
    trees-Valued used w.1,
  )

  first_changed-first_other :
      (used : List ℕ)
      → All (λ i. Watches c (pool i) (now i)) used
      → first_changed (text_value c) pool used ≡ first_other now pool used
  unfolding first_changed first_other
  first_changed-first_other [] w = refl
  first_changed-first_other (i ∷ used) w =
      rw (text_value-now i w.0, first_changed-first_other used w.1) refl

first_other-has :
    (now : ℕ → ℕ) (pool : Pool) (xs : List ℕ) (i : ℕ)
    → first_other now pool xs ≡ some i
    → has i xs ≡ true
unfolding first_other
first_other-has now pool [] i e = absurd (ground (arith, e))
first_other-has now pool (x ∷ xs) i e = ground (arith, e, first_other-has now pool xs i)

All-has : (P : ℕ → Type 0) (xs : List ℕ) (i : ℕ) → has i xs ≡ true → All P xs → P i
All-has P [] i h a = absurd (ground (arith, h))
All-has P (x ∷ xs) i h a = elim (Bool-cases (x == i)) [
  | inl y ↦ let e : x ≡ i = ground arith in subst P e a.0
  | inr n ↦ All-has P xs i (ground (arith, h, n)) a.1
]

-- When the lists of watchpoints are in order and each watchpoint in use holds the text of an
-- expression tree that has a value, the check behind an instruction triggers the first watchpoint
-- whose recorded value is not the tree's value in the present registers, with the new value
-- recorded, and does nothing when there is none.
pub watch-trees :
    {D : Type 0} {R : Type 0} (w : World D R) (h : Host D R) (used free : List ℕ) (now : ℕ → ℕ)
    → Holds h.watchpoints used free
    → let c = w.dut.core h.top in
      let s = h.watchpoints in
      All (λ i. Watches c (s.wp_pool i) (now i)) used
      → watch w h
        ≡ done (elim (first_other now s.wp_pool used) [
          | none ↦ h
          | some i ↦ trigger i (record h {
            watchpoints = record s {
              wp_pool = update s.wp_pool i (record (s.wp_pool i) { value = now i });
            };
          })
        ])
unfolding watch
watch-trees w h used free now held trees =
    let c = w.dut.core h.top in
    let s = h.watchpoints in
    let value_of = text_value c in
    let found = first_changed-first_other c now s.wp_pool used trees in
    let e =
      check_diff-first_changed (expr_value c) value_of s used free held
        (trees-Valued c now s.wp_pool used trees) in
    elim (Option-cases (first_other now s.wp_pool used)) [
      | inl n ↦
          let same : check_diff (expr_value c) s ≡ done (none, s) = rw (found ∙ n) at e in
          rw (same, n) refl
      | inr (i, f) ↦
          let member : has i used ≡ true = first_other-has now s.wp_pool used i f in
          let value : value_of (s.wp_pool i).what ≡ now i =
            text_value-now c now s.wp_pool i
              (All-has (λ i. Watches c (s.wp_pool i) (now i)) used i member trees) in
          let cell = record (s.wp_pool i) { value = value_of (s.wp_pool i).what } in
          let t = record s { wp_pool = update s.wp_pool i cell } in
          let one : check_diff (expr_value c) s ≡ done (some (i, (s.wp_pool i).value), t) =
            rw (found ∙ f) at e in
          rw (one, f)
            (ap
              (λ v. done (
                trigger i (record h {
                  watchpoints = record s {
                    wp_pool = update s.wp_pool i (record (s.wp_pool i) { value = v });
                  };
                })))
              value)
    ]
