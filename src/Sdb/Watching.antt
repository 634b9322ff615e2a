-- ===== src/Sdb/Watching.antt =====
-- Setting a watchpoint and deleting it.
use fpga_npc.Base.{
  ℕ, suc, ◌<◌, ◌≡◌, refl, subst, true, false, some, List, [], ◌∷◌, leb, length, done, Bool-cases,
  inl, inr, arith,
}
use fpga_npc.Watchpoint.{nr_wp, Watchpoints, update}
use fpga_npc.Watchpoint.Chains.{has, insert}
use fpga_npc.Watchpoint.Find.{remove}
use fpga_npc.Watchpoint.Sorted.{has-insert, length-Within}
use fpga_npc.Watchpoint.Invariant.{Holds, new_wp-Holds}
use fpga_npc.Watchpoint.Release.{free_wp-Holds}
use fpga_npc.Elf.{Tracer}
use fpga_npc.CpuExec.{World, Host}
use fpga_npc.CpuExec.Kept.{update-Holds}
use fpga_npc.Sdb.{to_int, watch_line, reply}
use fpga_npc.Sdb.Commands.{what_size, evaluate, set_watch, cmd_w, cmd_d}

remove-insert : (n : ℕ) (xs : List ℕ) → has n xs ≡ false → remove n (insert n xs) ≡ xs
remove-insert n [] h = ground arith
remove-insert n (x ∷ xs) h = ground (arith, remove-insert n xs)

-- Where at least two cells are free and the expression, of less than 65535 characters, evaluates,
-- w takes the first free cell, stores expression and value in it and prints its number, and d with
-- a text that reads as this number then gives a pool with the same two lists as before.
pub cmd_d-cmd_w :
    {D : Type 0} {R : Type 0} (world : World D R) (trace_of : D → Tracer) (args number : List ℕ)
    (v n f : ℕ) (used free : List ℕ) (h : Host D R)
    → Holds h.watchpoints used (n ∷ f ∷ free)
    → evaluate world trace_of args h ≡ done (v, true)
    → length args < 65535
    → to_int number ≡ n
    → (s : Watchpoints) × (t : Watchpoints) × (cmd_w world trace_of (some args) h
        ≡ done (reply (record h { watchpoints = s }) (watch_line n args ∷ [])))
      × Holds s (insert n used) (f ∷ free)
      × ((s.wp_pool n).what ≡ args)
      × ((s.wp_pool n).value ≡ v)
      × (cmd_d world trace_of (some number) (record h { watchpoints = s })
          ≡ done (reply (record h { watchpoints = t }) []))
      × Holds t used (n ∷ f ∷ free)
unfolding cmd_w cmd_d set_watch
cmd_d-cmd_w world trace_of args number v n f used free h held e short k =
    let (s0, held0, takes) = new_wp-Holds h.watchpoints used n (f ∷ free) held in
    let cell = record (s0.wp_pool n) { what = args; value = v } in
    let s : Watchpoints = record s0 { wp_pool = update s0.wp_pool n cell } in
    let held1 = update-Holds s0 (insert n used) (f ∷ free) n cell held0 refl refl in
    let small : n < 32 = omega (arith, length-Within nr_wp (suc n) (f ∷ free) held.free_within.1) in
    let fits : leb what_size (length args) ≡ false = ground (arith, short) in
    let numbered : (s0.wp_pool n).no ≡ n = held0.numbered n small in
    let unused : has n used ≡ false = elim (Bool-cases (has n used)) [
      | inl y ↦ ground (arith, held.apart n y)
      | inr m ↦ m
    ] in
    let member : has n (insert n used) ≡ true = ground (arith, has-insert n n used) in
    let back : insert n (f ∷ free) ≡ n ∷ f ∷ free = ground (arith, held.free_within) in
    let (t, freed, held2, cleared) = free_wp-Holds n s (insert n used) f free held1 member in
    (
      s,
      t,
      rw (e, takes.returns, fits, numbered) refl,
      held1,
      ground arith,
      ground arith,
      rw (k, freed) refl,
      subst (λ u. Holds t u (n ∷ f ∷ free)) (remove-insert n used unused)
          (subst (λ l. Holds t (remove n (insert n used)) l) back held2),
    )
