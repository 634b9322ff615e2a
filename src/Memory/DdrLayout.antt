-- ===== src/Memory/DdrLayout.antt =====
-- Where `init_ddr` puts the bytes of an image.
use fpga_npc.Base.{
  ℕ, zero, suc, ◌+◌, ◌-◌, ◌*◌, ◌/◌, ◌%◌, ◌≤◌, ◌<◌, ◌≡◌, refl, sym, ap, ◌∙◌, ◌≢◌, true, List, [],
  ◌∷◌, ltb, leb, ◌==◌, if◌then◌else◌, done, arith, length, get_or, take, drop, Bool-cases, ltb→lt,
  le_of_not_ltb, inl, inr,
}
use fpga_npc.Memory.Sdram.{Place, Sdram}
use fpga_npc.Memory.Ddr.{offset, put_chunk, ddr_loop, init_ddr}

get_or-take : (n i : ℕ) (xs : List ℕ) → i < n → get_or (take n xs) i 0 ≡ get_or xs i 0
get_or-take zero i xs h = absurd (omega arith)
get_or-take (suc n) i [] h = refl
get_or-take (suc n) zero (x ∷ xs) h = refl
get_or-take (suc n) (suc i) (x ∷ xs) h = get_or-take n i xs (omega arith)

get_or-drop_add : (n i : ℕ) (xs : List ℕ) → get_or (drop n xs) i 0 ≡ get_or xs (n + i) 0
get_or-drop_add zero i xs = ap (λ k. get_or xs k 0) (omega arith)
get_or-drop_add (suc n) i [] = refl
get_or-drop_add (suc n) i (x ∷ xs) =
    let z : suc (n + i) ≡ suc n + i = omega arith in
    get_or-drop_add n i xs ∙ ap (λ k. get_or (x ∷ xs) k 0) z

length-take_le : (n : ℕ) (xs : List ℕ) → n ≤ length xs → length (take n xs) ≡ n
length-take_le zero xs h = refl
length-take_le (suc n) [] h = absurd (omega arith)
length-take_le (suc n) (x ∷ xs) h = omega (arith, length-take_le n xs)

length-drop : (n : ℕ) (xs : List ℕ) → length (drop n xs) ≡ length xs - n
length-drop zero xs = omega arith
length-drop (suc n) [] = omega arith
length-drop (suc n) (x ∷ xs) = omega (arith, length-drop n xs)

-- The place of byte `j` of an image: 1024 bytes to a row, the banks in turn.
abbrev pub place : ℕ → Place
place j = record { bank = j / 1024 % 4; row = j / 4096; col = j % 1024 / 4; lane = j % 4 }

-- The number of a row in the order in which the rows are filled.
abbrev chunk : Place → ℕ
chunk q = 4 * q.row + q.bank

put_chunk-place :
    (cells : Place → ℕ) (k j : ℕ) (bytes : List ℕ)
    → j < 1024
    → j < length bytes
    → put_chunk cells (k % 4) (k / 4) bytes (place (1024 * k + j)) ≡ get_or bytes j 0
put_chunk-place cells k j bytes h l =
    let b : (1024 * k + j) / 1024 % 4 ≡ k % 4 = omega arith in
    let r : (1024 * k + j) / 4096 ≡ k / 4 = omega arith in
    let o : offset (place (1024 * k + j)) ≡ j = omega arith in
    ground (arith, b, r, o, ap (λ o. get_or bytes o 0) o)

put_chunk-frame :
    (cells : Place → ℕ) (k : ℕ) (bytes : List ℕ) (q : Place)
    → q.bank < 4
    → chunk q < k
    → put_chunk cells (k % 4) (k / 4) bytes q ≡ cells q
put_chunk-frame cells k bytes q b h = ground arith

chunk-place : (k j : ℕ) → j < 1024 → chunk (place (1024 * k + j)) ≡ k
chunk-place k j h =
    let b : (1024 * k + j) / 1024 ≡ k = omega arith in
    let r : (1024 * k + j) / 4096 ≡ k / 4 = omega arith in omega (arith, b, r)

before_next : (k j : ℕ) → j < 1024 → chunk (place (1024 * k + j)) < k + 1
before_next k j h = omega (arith, chunk-place k j h)

bank-place : (j : ℕ) → (place j).bank < 4
bank-place j = omega arith

next_row :
    (k : ℕ) → k + 1 < 32768 → (if k % 4 == 3 then (k / 4 + 1) % 8192 else k / 4) ≡ (k + 1) / 4
next_row k h = elim (Bool-cases (k % 4 == 3)) [
  | inl y ↦ let e : k % 4 ≡ 3 = ground arith in rw y (omega (arith, e))
  | inr n ↦ let e : k % 4 ≢ 3 = ground arith in rw n (omega (arith, e))
]

ddr_loop-step :
    (fuel size bank row size' bank' row' : ℕ) (file : List ℕ) (cells t : Place → ℕ)
    → ltb 1024 size ≡ true
    → leb 1024 (length file) ≡ true
    → size - 1024 ≡ size'
    → (bank + 1) % 4 ≡ bank'
    → (if bank == 3 then (row + 1) % 8192 else row) ≡ row'
    → ddr_loop fuel size' bank' row' (drop 1024 file) (put_chunk cells bank row (take 1024 file))
      ≡ done t
    → ddr_loop (suc fuel) size bank row file cells ≡ done t
unfolding ddr_loop
ddr_loop-step fuel size bank row size' bank' row' file cells t y full e b r g =
    rw (y, full, e, b, r) g

-- What the loop leaves: the bytes of the file from row number `k` on, and the rows before it.
record Filled (k : ℕ) (file : List ℕ) (before cells : Place → ℕ) : Type 0 where
  bytes : (j : ℕ) → j < length file → cells (place (1024 * k + j)) ≡ get_or file j 0
  frame : (q : Place) → q.bank < 4 → chunk q < k → cells q ≡ before q

last-Filled :
    (k : ℕ) (file : List ℕ) (cells : Place → ℕ)
    → length file ≤ 1024
    → Filled k file cells (put_chunk cells (k % 4) (k / 4) (take (length file) file))
last-Filled k file cells h = record {
  bytes = λ j l.
      put_chunk-place cells k j (take (length file) file) (omega arith)
        (omega (arith, length-take_le (length file) file))
      ∙ get_or-take (length file) j file l;
  frame = put_chunk-frame cells k (take (length file) file);
}

next-Filled :
    (k : ℕ) (file : List ℕ) (before cells : Place → ℕ)
    → 1024 < length file
    → Filled (k + 1) (drop 1024 file) (put_chunk before (k % 4) (k / 4) (take 1024 file)) cells
    → Filled k file before cells
next-Filled k file before cells h f = record {
  bytes = λ j l. elim (Bool-cases (ltb j 1024)) [
    | inl y ↦
        let i : j < 1024 = ltb→lt j 1024 y in
        f.frame (place (1024 * k + j)) (bank-place (1024 * k + j)) (before_next k j i)
        ∙ put_chunk-place before k j (take 1024 file) i (omega (arith, length-take_le 1024 file))
        ∙ get_or-take 1024 j file i
    | inr n ↦
        let i : 1024 ≤ j = le_of_not_ltb j 1024 n in
        let e : 1024 * k + j ≡ 1024 * (k + 1) + (j - 1024) = omega arith in
        ap (λ m. cells (place m)) e
        ∙ f.bytes (j - 1024) (omega (arith, length-drop 1024 file))
        ∙ get_or-drop_add 1024 (j - 1024) file
        ∙ ap (λ m. get_or file m 0) (omega arith)
  ];
  frame = λ q b c. f.frame q b (omega arith) ∙ put_chunk-frame before k (take 1024 file) q b c;
}

ddr_loop-Filled :
    (fuel k : ℕ) (file : List ℕ) (cells : Place → ℕ)
    → length file < 1024 * fuel
    → 1024 * k + length file ≤ 33554432
    → (t : Place → ℕ) × (ddr_loop fuel (length file) (k % 4) (k / 4) file cells ≡ done t)
      × Filled k file cells t
unfolding ddr_loop
ddr_loop-Filled zero k file cells f h = absurd (omega arith)
ddr_loop-Filled (suc fuel) k file cells f h = elim (Bool-cases (ltb 1024 (length file))) [
  | inr n ↦ (
    put_chunk cells (k % 4) (k / 4) (take (length file) file),
    rw n refl,
    last-Filled k file cells (ground arith),
  )
  | inl y ↦
      let more : 1024 < length file = ground arith in
      let full : leb 1024 (length file) ≡ true = ground arith in
      let cells' = put_chunk cells (k % 4) (k / 4) (take 1024 file) in
      let n : length (drop 1024 file) ≡ length file - 1024 = length-drop 1024 file in
      let (t, e, filled) =
        ddr_loop-Filled fuel (k + 1) (drop 1024 file) cells' (omega arith) (omega arith) in
      (
        t,
        ddr_loop-step fuel (length file) (k % 4) (k / 4) (length (drop 1024 file)) ((k + 1) % 4)
            ((k + 1) / 4) file cells t y full (sym n) (omega arith) (next_row k (omega arith)) e,
        next-Filled k file cells t more filled,
      )
]

-- `init_ddr` of an image of at most 32 MiB, of its whole size: byte `j` comes to its place, 1024 bytes
-- to a row, the banks in turn.
pub init_ddr-place :
    (file : List ℕ) (s : Sdram)
    → length file ≤ 33554432
    → (t : Sdram) × (init_ddr file (length file) s ≡ done t)
      × ((j : ℕ) → j < length file → t.cells (place j) ≡ get_or file j 0)
unfolding init_ddr
init_ddr-place file s h =
    let (cells, e, filled) =
      ddr_loop-Filled (length file / 1024 + 1) 0 file s.cells (omega arith) (omega arith) in
    (
      record s { cells = cells },
      rw e refl,
      λ j l. ap (λ m. cells (place m)) (omega arith) ∙ filled.bytes j l,
    )
