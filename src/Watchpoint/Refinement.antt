-- ===== src/Watchpoint/Refinement.antt =====
-- Histories of calls against an abstract pool: two lists of numbers.
use fpga_npc.Base.{
  ℕ, ◌≡◌, refl, true, none, List, [], ◌∷◌, ltb, if◌then◌else◌, Outcome, done, aborted, undefined,
  out_of_fuel, ◌>>=◌, arith, Bool-cases, inl, inr,
}
use fpga_npc.Watchpoint.{Watchpoints, new_wp, free_wp}
use fpga_npc.Watchpoint.Chains.{has, insert}
use fpga_npc.Watchpoint.Find.{remove}
use fpga_npc.Watchpoint.Invariant.{Holds, new_wp-Holds, new_wp-full}
use fpga_npc.Watchpoint.Release.{free_wp-Holds, free_wp-leak, free_wp-unused, free_wp_above}

-- The calls that change the lists.
pub data Call : Type 0 where
  adds : Call
  deletes : ℕ → Call

unfoldable pub call : Call → Watchpoints → Outcome Watchpoints
call adds s = do (_, t) ← new_wp s; done t
call (deletes n) s = free_wp n s

unfoldable pub run : List Call → Watchpoints → Outcome Watchpoints
run [] s = done s
run (c ∷ cs) s = do t ← call c s; run cs t

-- The abstract pool: the numbers in use and the free numbers.
pub record View : Type 0 where
  pub used : List ℕ
  pub free : List ℕ

-- A number comes back to a free list that has some cell, and is lost on an empty one.
abbrev pub give_back : ℕ → List ℕ → List ℕ
give_back n [] = []
give_back n (f ∷ rest) = insert n (f ∷ rest)

abbrev take_first : List ℕ → List ℕ → View
take_first used [] = record { used = used; free = [] }
take_first used (n ∷ rest) = record { used = insert n used; free = rest }

pub view_call : Call → View → Outcome View
view_call adds v = done (take_first v.used v.free)
view_call (deletes n) v =
    if ltb 32 n
    then done v
    else if has n v.used
    then done (record { used = remove n v.used; free = give_back n v.free })
    else aborted

pub view_run : List Call → View → Outcome View
view_run [] v = done v
view_run (c ∷ cs) v = do w ← view_call c v; view_run cs w

-- Both end, in states that correspond, or both fail the `assert`.
abbrev pub Refines : Outcome Watchpoints → Outcome View → Type 0
Refines (done t) (done v) = Holds t v.used v.free
Refines aborted aborted = Unit {0}
Refines _ _ = ⊥

adds-Refines :
    (s : Watchpoints) (used free : List ℕ)
    → Holds s used free
    → Refines (call adds s) (done (take_first used free))
unfolding call
adds-Refines s used [] h = rw (new_wp-full s used h) h
adds-Refines s used (n ∷ rest) h = let (t, h', k) = new_wp-Holds s used n rest h in rw k.returns h'

deletes-Refines :
    (n : ℕ) (s : Watchpoints) (used free : List ℕ)
    → Holds s used free
    → has n used ≡ true
    → Refines (free_wp n s) (done (record { used = remove n used; free = give_back n free }))
deletes-Refines n s used [] h m = let (t, e, h', k) = free_wp-leak n s used h m in rw e h'
deletes-Refines n s used (f ∷ rest) h m =
    let (t, e, h', k) = free_wp-Holds n s used f rest h m in rw e h'

pub call-Refines :
    (c : Call) (s : Watchpoints) (v : View)
    → Holds s v.used v.free
    → Refines (call c s) (view_call c v)
unfolding view_call
call-Refines adds s v h = adds-Refines s v.used v.free h
call-Refines (deletes n) s v h =
    unfold call in
    elim (Bool-cases (ltb 32 n)) [
      | inl big ↦ rw (big, free_wp_above n s (ground arith)) h
      | inr small ↦ rw small (elim (Bool-cases (has n v.used)) [
        | inl m ↦ rw m (deletes-Refines n s v.used v.free h m)
        | inr m ↦ rw (m, free_wp-unused n s v.used v.free h m (ground arith)) tt
      ])
    ]

bind-Refines :
    (cs : List Call) (r : Outcome Watchpoints) (q : Outcome View)
    → Refines r q
    → ((t : Watchpoints) (w : View) → Holds t w.used w.free → Refines (run cs t) (view_run cs w))
    → Refines (r >>= run cs) (q >>= view_run cs)
bind-Refines cs (done t) (done w) h next = next t w h
bind-Refines cs aborted aborted h next = tt
bind-Refines cs (done t) aborted h next = absurd h
bind-Refines cs (done t) undefined h next = absurd h
bind-Refines cs (done t) out_of_fuel h next = absurd h
bind-Refines cs aborted (done w) h next = absurd h
bind-Refines cs aborted undefined h next = absurd h
bind-Refines cs aborted out_of_fuel h next = absurd h
bind-Refines cs undefined q h next = absurd h
bind-Refines cs out_of_fuel q h next = absurd h

-- From a state whose two lists hold the numbers of an abstract pool, any sequence of new_wp and
-- free_wp calls ends in a state whose lists hold what the abstract pool says, or both fail the
-- assert; no loop runs out of rounds.
pub run-Refines :
    (cs : List Call) (s : Watchpoints) (v : View)
    → Holds s v.used v.free
    → Refines (run cs s) (view_run cs v)
unfolding run view_run
run-Refines [] s v h = h
run-Refines (c ∷ cs) s v h =
    bind-Refines cs (call c s) (view_call c v) (call-Refines c s v h) (run-Refines cs)

exhausted-free : (cs : List Call) (v w : View) → v.free ≡ [] → view_run cs v ≡ done w → w.free ≡ []
unfolding view_run view_call
exhausted-free [] v w e r = ground arith
exhausted-free (adds ∷ cs) v w e r = exhausted-free cs (take_first v.used v.free) w (rw e) r
exhausted-free (deletes n ∷ cs) v w e r = elim (Bool-cases (ltb 32 n)) [
  | inl big ↦ exhausted-free cs v w e (rw big at r)
  | inr small ↦ elim (Bool-cases (has n v.used)) [
    | inl m ↦
        exhausted-free cs (record { used = remove n v.used; free = give_back n v.free }) w (rw e)
          (rw (small, m) at r)
    | inr m ↦ ground arith
  ]
]

refined :
    (t : Watchpoints) (q : Outcome View)
    → Refines (done t) q
    → (w : View) × (q ≡ done w) × Holds t w.used w.free
refined t (done w) h = (w, refl, h)
refined t aborted h = absurd h
refined t undefined h = absurd h
refined t out_of_fuel h = absurd h

-- Once no cell is free, new_wp returns NULL and changes nothing after any sequence of calls that
-- ends, deletions included.
new_wp_exhausted :
    (cs : List Call) (s t : Watchpoints) (used : List ℕ)
    → Holds s used []
    → run cs s ≡ done t
    → new_wp t ≡ done (none, t)
new_wp_exhausted cs s t used h r =
    let v : View = record { used = used; free = [] } in
    let (w, e, h') = refined t (view_run cs v) (rw r at (run-Refines cs s v h)) in
    new_wp-full t w.used (rw (exhausted-free cs v w refl e) at h')
