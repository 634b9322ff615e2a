-- ===== src/LightSss/Clear.antt =====
-- `do_clear` for any number of snapshots.
use mathlib.Core.List.{append_assoc, append-nil}
use fpga_npc.Base.{
  ℕ, suc, ◌-◌, ◌≡◌, refl, sym, ap, ap₂, ◌∙◌, some, List, [], ◌∷◌, ◌++◌, done, arith, length,
  length-append,
}
use fpga_npc.LightSss.{LightSss, back, kill_oldest, clear_loop, do_clear}

-- The oldest first.
abbrev pub newest_first : List ℕ → List ℕ
newest_first [] = []
newest_first (q ∷ qs) = newest_first qs ++ q ∷ []

-- No process is left: those of the list were killed in its order.
abbrev pub cleared : List ℕ → LightSss → LightSss
cleared qs s = record s {
  pid_slot = [];
  killed = s.killed ++ qs;
  slot_cnt = s.slot_cnt - length qs;
}

back-append : (ps : List ℕ) (q : ℕ) → back (ps ++ q ∷ []) ≡ some (ps, q)
back-append [] q = refl
back-append (p ∷ ps) q = rw (back-append ps q) refl

length-newest_first : (qs : List ℕ) → length (newest_first qs) ≡ length qs
length-newest_first [] = refl
length-newest_first (q ∷ qs) =
    omega (arith, length-append (newest_first qs) (q ∷ []), length-newest_first qs)

kill_oldest-last :
    (s : LightSss) (ps : List ℕ) (q : ℕ)
    → s.pid_slot ≡ ps ++ q ∷ []
    → kill_oldest s
      ≡ done (record s { pid_slot = ps; killed = s.killed ++ q ∷ []; slot_cnt = s.slot_cnt - 1 })
unfolding kill_oldest
kill_oldest-last s ps q e =
    let last : back s.pid_slot ≡ some (ps, q) = ap back e ∙ back-append ps q in ground (arith, last)

clear_loop-all :
    (rounds qs : List ℕ) (s : LightSss)
    → length rounds ≡ length qs
    → s.pid_slot ≡ newest_first qs
    → clear_loop rounds s ≡ done (cleared qs s)
unfolding clear_loop
clear_loop-all [] [] s n e =
    let same : s.slot_cnt ≡ s.slot_cnt - 0 = omega arith in
    ap (λ p. done (record s { pid_slot = p })) e
    ∙ ap₂ (λ k m. done (record s { pid_slot = []; killed = k; slot_cnt = m }))
        (sym (append-nil s.killed)) same
clear_loop-all [] (q ∷ qs) s n e = absurd (omega (arith, n))
clear_loop-all (r ∷ rounds) [] s n e = absurd (omega (arith, n))
clear_loop-all (r ∷ rounds) (q ∷ qs) s n e =
    let t = record s {
      pid_slot = newest_first qs;
      killed = s.killed ++ q ∷ [];
      slot_cnt = s.slot_cnt - 1;
    } in
    let fewer : s.slot_cnt - 1 - length qs ≡ s.slot_cnt - suc (length qs) = omega arith in
    rw (kill_oldest-last s (newest_first qs) q e) (
      clear_loop-all rounds qs t (omega (arith, n)) refl
      ∙ ap₂ (λ k m. done (record s { pid_slot = []; killed = k; slot_cnt = m }))
          (append_assoc s.killed (q ∷ []) qs) fewer)

pub do_clear-all :
    (qs : List ℕ) (s : LightSss) → s.pid_slot ≡ newest_first qs → do_clear s ≡ done (cleared qs s)
unfolding do_clear
do_clear-all qs s e = clear_loop-all s.pid_slot qs s (ap length e ∙ length-newest_first qs) e
