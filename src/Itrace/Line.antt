-- ===== src/Itrace/Line.antt =====
-- How long a disassembly can be.
use fpga_npc.Base.{
  ℕ, zero, suc, ◌+◌, ◌-◌, ◌/◌, ◌%◌, ◌^◌, if◌then◌else◌, codes, Bool-cases, inl, inr, ◌<◌, ◌≡◌, refl,
  ap, ap₂, ◌∙◌, true, false, some, List, [], ◌∷◌, ◌++◌, ◌==◌, ltb, done, aborted, undefined, arith,
  length, length-append, replicate, drop,
}
use fpga_npc.Itrace.{
  Event, find_first_not_of_tab, copy_from, disassemble, hex_text, byte_texts, line_start,
  copy_behind, log_line,
}

length-hex_text : (w n : ℕ) → length (hex_text w n) ≡ w
unfolding hex_text
length-hex_text zero n = refl
length-hex_text (suc w) n = ap suc (length-hex_text w n)

length-byte_texts : (inst i : ℕ) → length (byte_texts inst i) ≡ i + i + i
unfolding byte_texts
length-byte_texts inst zero = refl
length-byte_texts inst (suc i) =
    length-append (b' ' ∷ hex_text 2 ((inst / 256 ^ i) % 256)) (byte_texts inst i)
    ∙ omega (arith, length-hex_text 2 ((inst / 256 ^ i) % 256), length-byte_texts inst i)

-- 24 of the 128 characters are taken.
pub length-line_start : (pc inst : ℕ) → length (line_start pc inst) ≡ 24
unfolding line_start hex_text
length-line_start pc inst =
    length-append (codes "0x" ++ hex_text 8 pc) (b':' ∷ byte_texts inst 4 ++ b' ' ∷ [])
    ∙ omega (
      arith,
      length-hex_text 8 pc,
      length-append (byte_texts inst 4) (b' ' ∷ []),
      length-byte_texts inst 4,
    )

-- LLVM's text is tabs and then a text that starts with something else.
find-tabs :
    (n c : ℕ) (s : List ℕ)
    → (c == 9) ≡ false
    → find_first_not_of_tab (replicate n 9 ++ c ∷ s) ≡ some n
unfolding find_first_not_of_tab
find-tabs zero c s e = rw e refl
find-tabs (suc n) c s e = rw (find-tabs n c s e) refl

drop-tabs : (n : ℕ) (s : List ℕ) → drop n (replicate n 9 ++ s) ≡ s
drop-tabs zero s = refl
drop-tabs (suc n) s = drop-tabs n s

length-tabs : (n : ℕ) (s : List ℕ) → length (replicate n 9 ++ s) - n ≡ length s
length-tabs zero s = omega arith
length-tabs (suc n) s = omega (arith, length-tabs n s)

disassemble-skips :
    (printed : List ℕ) (size skip : ℕ)
    → find_first_not_of_tab printed ≡ some skip
    → disassemble printed size
      ≡ (if ltb (length printed - skip) size then done (drop skip printed) else aborted)
unfolding disassemble
disassemble-skips printed size skip e = ap (copy_from printed size) e

disassemble-tabs :
    (n c : ℕ) (s : List ℕ)
    → (c == 9) ≡ false
    → disassemble (replicate n 9 ++ c ∷ s) 128
      ≡ (if ltb (length (c ∷ s)) 128 then done (c ∷ s) else aborted)
disassemble-tabs n c s e =
    disassemble-skips (replicate n 9 ++ c ∷ s) 128 n (find-tabs n c s e)
    ∙ (ap₂ (λ k text. if ltb k 128 then done text else aborted) (length-tabs n (c ∷ s))
        (drop-tabs n (c ∷ s)))

-- A disassembly, behind its leading tabs, of less than 104 characters gives the line of its
-- instruction, one of 104 to 127 characters passes the test of disassemble and is written over the
-- end of logbuf, and a longer one fails the assert.
pub log_line-sizes :
    (tabs c : ℕ) (s : List ℕ) (pc inst : ℕ)
    → (c == 9) ≡ false
    → log_line (replicate tabs 9 ++ c ∷ s) pc inst ≡ (
        if ltb (length (c ∷ s)) 104
        then done (line_start pc inst ++ c ∷ s)
        else if ltb (length (c ∷ s)) 128
        then undefined
        else aborted)
unfolding log_line copy_behind
log_line-sizes tabs c s pc inst e =
    let start = length-line_start pc inst in
    rw (disassemble-tabs tabs c s e) (elim (Bool-cases (ltb (length (c ∷ s)) 104)) [
      | inl y ↦
          let small : ltb (length (c ∷ s)) 128 ≡ true = ground (arith, y) in
          let fits : ltb (length (line_start pc inst) + length (c ∷ s)) 128 ≡ true =
            ground (arith, y, start) in
          rw (small, y, fits) refl
      | inr n ↦
          let over : ltb (length (line_start pc inst) + length (c ∷ s)) 128 ≡ false =
            ground (arith, n, start) in
          elim (Bool-cases (ltb (length (c ∷ s)) 128)) [
            | inl y ↦ rw (y, n, over) refl
            | inr m ↦ rw (m, n) refl
          ]
    ])

-- An instruction for which LLVM prints `tabs` tabs, `first`, which is none, and `rest`.
pub record Shown : Type 0 where
  pub tabs : ℕ
  pub first : ℕ
  pub rest : List ℕ
  pub pc : ℕ
  pub inst : ℕ

abbrev pub event_of : Shown → Event
event_of x = record { printed = replicate x.tabs 9 ++ x.first ∷ x.rest; pc = x.pc; inst = x.inst }

abbrev pub line_of : Shown → List ℕ
line_of x = line_start x.pc x.inst ++ x.first ∷ x.rest

-- The text fits into `logbuf`.
abbrev pub Short : Shown → Type 0
Short x = ((x.first == 9) ≡ false) × (length (x.first ∷ x.rest) < 104)
