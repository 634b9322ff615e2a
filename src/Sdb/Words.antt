-- ===== src/Sdb/Words.antt =====
-- How a line is taken apart, and which command it runs.
use fpga_npc.Base.{
  ℕ, zero, suc, ◌≡◌, refl, ap, false, Option, none, some, List, [], ◌∷◌, ◌++◌, ◌==◌, done, All,
  get_elem?, replicate, arith, codes, subst,
}
use fpga_npc.Npc.{npc_quit, is_exit_status_bad}
use fpga_npc.Elf.{Tracer}
use fpga_npc.CpuExec.{World, Host, set_state}
use fpga_npc.Sdb.{until_space, strtok, Row, cmd_table}
use fpga_npc.Sdb.Commands.{find_row, run_handler, cmd_q}
use fpga_npc.Sdb.Loop.{args_of, run_line, line_loop, sdb_mainloop}

-- A word: at least one character, and no space.
abbrev pub IsWord : List ℕ → Type 0
IsWord [] = ⊥
IsWord (c ∷ s) = All (λ c. (c == b' ') ≡ false) (c ∷ s)

until_space-word :
    (word rest : List ℕ)
    → All (λ c. (c == b' ') ≡ false) word
    → until_space (word ++ b' ' ∷ rest) ≡ (word, rest)
unfolding until_space
until_space-word [] rest h = refl
until_space-word (c ∷ word) rest h = rw (h.0, until_space-word word rest h.1) refl

strtok-word :
    (n : ℕ) (word rest : List ℕ)
    → IsWord word
    → strtok (replicate n b' ' ++ word ++ b' ' ∷ rest) ≡ (some word, rest)
unfolding strtok until_space
strtok-word zero [] rest h = absurd h
strtok-word zero (c ∷ word) rest h = rw (h.0, until_space-word word rest h.1) refl
strtok-word (suc n) word rest h = strtok-word n word rest h

-- Every row of the table is found by its name, which is a word.
abbrev Found : Row → Type 0
Found r = IsWord r.name × (find_row r.name cmd_table ≡ some r)

cmd_table-Found : All Found cmd_table
unfolding find_row cmd_table
cmd_table-Found = (
  (ground arith, refl),
  (
    (ground arith, refl),
    (
      (ground arith, refl),
      (
        (ground arith, refl),
        (
          (ground arith, refl),
          (
            (ground arith, refl),
            (
              (ground arith, refl),
              (
                (ground arith, refl),
                ((ground arith, refl), ((ground arith, refl), ((ground arith, refl), tt))),
              ),
            ),
          ),
        ),
      ),
    ),
  ),
)

some_value {ℓ} : {A : Type ℓ} → A → Option A → A
some_value d none = d
some_value d (some a) = a

some_injective {ℓ} : {A : Type ℓ} {a b : A} → some a ≡ some b → a ≡ b
unfolding some_value
some_injective {a = a} e = ap (some_value a) e

All-get_elem? {ℓ κ} :
    {A : Type ℓ} (P : A → Type κ) (xs : List A) (i : ℕ) (a : A)
    → All P xs
    → get_elem? xs i ≡ some a
    → P a
All-get_elem? P [] i a h e = ground arith
All-get_elem? P (x ∷ xs) zero a h e = subst P (some_injective e) h.0
All-get_elem? P (x ∷ xs) (suc i) a h e = All-get_elem? P xs i a h.1 e

-- A line of any number of spaces, the name of a row of cmd_table, a space and a text runs the
-- handler of that row, with the text as its arguments, or NULL where it is empty.
pub run_line-run_handler :
    {D : Type 0} {R : Type 0} (world : World D R) (trace_of : D → Tracer) (n i : ℕ) (r : Row)
    (rest : List ℕ) (h : Host D R)
    → get_elem? cmd_table i ≡ some r
    → run_line world trace_of (replicate n b' ' ++ r.name ++ b' ' ∷ rest) h
      ≡ run_handler world trace_of r.handler (args_of rest) h
unfolding run_line
run_line-run_handler world trace_of n i r rest h e =
    let (is_word, found) = All-get_elem? Found cmd_table i r cmd_table-Found e in
    let split = strtok-word n r.name rest is_word in
    rw (ap (λ p. p.0) split, run_line, found, ap (λ p. p.1) split) refl

-- A line whose first word is q ends the loop whatever the lines behind it and whatever the state:
-- NPC_QUIT takes the place of the state, also of NPC_ABORT, and the exit status is good.
pub sdb_mainloop-quit :
    {D : Type 0} {R : Type 0} (world : World D R) (trace_of : D → Tracer) (str : List ℕ)
    (lines : List (List ℕ)) (h : Host D R)
    → (strtok str).0 ≡ some (codes "q")
    → (t : Host D R) × (sdb_mainloop world trace_of false (str ∷ lines) h ≡ done (t, []))
      × (t ≡ record h { npc = set_state npc_quit h.npc })
      × (is_exit_status_bad t.npc ≡ false)
unfolding sdb_mainloop line_loop run_line run_handler cmd_q find_row cmd_table is_exit_status_bad
sdb_mainloop-quit world trace_of str lines h e =
    (record h { npc = set_state npc_quit h.npc }, rw (e, run_line) refl, refl, refl)
