-- ===== src/Memory/Lanes.antt =====
-- What a write to the SDRAM changes, lane by lane.
use fpga_npc.Base.{
  ℕ, zero, suc, ◌/◌, ◌%◌, ◌^◌, ◌<◌, ◌≡◌, refl, ap, ◌∙◌, subst, Bool, true, false, ◌&&◌, ◌||◌, none,
  some, ltb, leb, ◌==◌, if◌then◌else◌, done, aborted, arith, Bool-cases, inl, inr,
}
use fpga_npc.Memory.Sdram.{
  Place, Sdram, nr_banks, nr_rows, nr_cols, same_word, actived_place, sdram_checks, at_lane,
  sdram_read, none_mask, written_lanes, put_lanes, sdram_write,
}

-- The masks of bytes, half-words and the word: 1111, 1110, 1101, 1011, 0111, 1100, 0011 and 0000.
abbrev pub is_mask : ℕ → Bool
is_mask dqm =
    (dqm == 15)
    || (dqm == 14)
    || (dqm == 13)
    || (dqm == 11)
    || (dqm == 7)
    || (dqm == 12)
    || (dqm == 3)
    || (dqm == 0)

-- A lane is written where its bit of the mask is 0.
abbrev pub bit_clear : ℕ → ℕ → Bool
bit_clear dqm i = (dqm / 2 ^ i) % 2 == 0

-- What a mask says of each of the four lanes.
abbrev pub Selects : ℕ → Type 0
Selects dqm =
    (lanes : ℕ → Bool) × (written_lanes dqm ≡ some lanes)
    × ((i : ℕ) → i < 4 → lanes i ≡ bit_clear dqm i)

four {ℓ} : (P : ℕ → Type ℓ) → P 0 → P 1 → P 2 → P 3 → (i : ℕ) → i < 4 → P i
four P a b c d zero h = a
four P a b c d (suc zero) h = b
four P a b c d (suc (suc zero)) h = c
four P a b c d (suc (suc (suc zero))) h = d
four P a b c d (suc (suc (suc (suc i)))) h = absurd (omega arith)

or_else : (dqm k : ℕ) → Selects k → ((dqm == k) ≡ false → Selects dqm) → Selects dqm
or_else dqm k at other = elim (Bool-cases (dqm == k)) [
  | inl y ↦ let e : k ≡ dqm = ground arith in subst Selects e at
  | inr n ↦ other n
]

Selects-numeral :
    (k : ℕ) (lanes : ℕ → Bool)
    → written_lanes k ≡ some lanes
    → lanes 0 ≡ bit_clear k 0
    → lanes 1 ≡ bit_clear k 1
    → lanes 2 ≡ bit_clear k 2
    → lanes 3 ≡ bit_clear k 3
    → Selects k
Selects-numeral k lanes e a b c d = (lanes, e, four (λ i. lanes i ≡ bit_clear k i) a b c d)

mask-Selects : (dqm : ℕ) → is_mask dqm ≡ true → Selects dqm
unfolding written_lanes
mask-Selects dqm h =
    or_else dqm 15 (Selects-numeral 15 (λ i. false) refl refl refl refl refl) λ n15.
      or_else dqm 14 (Selects-numeral 14 (λ i. i == 0) refl refl refl refl refl) λ n14.
        or_else dqm 13 (Selects-numeral 13 (λ i. i == 1) refl refl refl refl refl) λ n13.
          or_else dqm 11 (Selects-numeral 11 (λ i. i == 2) refl refl refl refl refl) λ n11.
            or_else dqm 7 (Selects-numeral 7 (λ i. i == 3) refl refl refl refl refl) λ n7.
              or_else dqm 12 (Selects-numeral 12 (λ i. ltb i 2) refl refl refl refl refl) λ n12.
                or_else dqm 3 (Selects-numeral 3 (λ i. leb 2 i && ltb i 4) refl refl refl refl refl)
                  λ n3.
                    or_else dqm 0 (Selects-numeral 0 (λ i. ltb i 4) refl refl refl refl refl)
                      λ n0. absurd (ground arith)

written_lanes-other : (dqm : ℕ) → is_mask dqm ≡ false → written_lanes dqm ≡ none
unfolding written_lanes
written_lanes-other dqm h = ground arith

none_clear : (dqm i : ℕ) → i < 4 → (dqm == none_mask) ≡ true → bit_clear dqm i ≡ false
none_clear dqm i l y =
    let e : dqm ≡ 15 = ground arith in
    ap (λ d. bit_clear d i) e ∙ four (λ i. bit_clear 15 i ≡ false) refl refl refl refl i l

abbrev pub Access : ℕ → ℕ → ℕ → Sdram → Type 0
Access ba a row s =
    (ba < nr_banks) × (a < nr_cols) × (row < nr_rows) × (s.actived_rows ba ≡ some row)

accessed :
    (ba a row lane : ℕ) (s : Sdram)
    → Access ba a row s
    → (sdram_checks ba a ≡ true)
      × (actived_place ba a lane s ≡ done (record { bank = ba; row = row; col = a; lane = lane }))
unfolding actived_place
accessed ba a row lane s (b, c, r, e) =
    let y : ltb row nr_rows ≡ true = ground arith in
    let z : ltb a nr_cols ≡ true = ground arith in (ground arith, rw (e, actived_place, y, z) refl)

-- For one of the four banks, with an active row below 8192, a column below 512, and one of the
-- eight supported masks, sdram_write succeeds, keeps the active rows, writes the bytes of the word
-- at the active row and this column whose bit of the mask is 0, and changes no other byte.
pub sdram_write-lanes :
    (ba a row wdata dqm : ℕ) (s : Sdram)
    → Access ba a row s
    → is_mask dqm ≡ true
    → (t : Sdram) × (sdram_write ba a wdata dqm s ≡ done t)
      × (t.actived_rows ≡ s.actived_rows)
      × ((q : Place)
          → q.lane < 4
          → t.cells q ≡ (
              if same_word (record { bank = ba; row = row; col = a; lane = 0 }) q
                && bit_clear dqm q.lane
              then (wdata / 256 ^ q.lane) % 256
              else s.cells q))
unfolding sdram_write
sdram_write-lanes ba a row wdata dqm s access h =
    let p : Place = record { bank = ba; row = row; col = a; lane = 0 } in
    let (checked, place) = accessed ba a row 0 s access in
    let (lanes, e, sel) = mask-Selects dqm h in
    elim (Bool-cases (dqm == none_mask)) [
      | inl y ↦ (s, rw (checked, y) refl, refl, λ q l. ground (arith, none_clear dqm q.lane l))
      | inr n ↦ (
        record s { cells = put_lanes s.cells p lanes wdata },
        rw (checked, n, e, place) refl,
        refl,
        λ q l.
            ap (λ b. if same_word p q && b then (wdata / 256 ^ q.lane) % 256 else s.cells q)
              (sel q.lane l),
      )
    ]

-- Any other mask aborts.
pub sdram_write_mask :
    (ba a wdata dqm : ℕ) (s : Sdram) → is_mask dqm ≡ false → sdram_write ba a wdata dqm s ≡ aborted
unfolding sdram_write
sdram_write_mask ba a wdata dqm s h =
    let n : (dqm == none_mask) ≡ false = ground arith in
    elim (Bool-cases (sdram_checks ba a)) [
      | inl y ↦ rw (y, n, written_lanes-other dqm h) refl
      | inr m ↦ rw m refl
    ]

-- A 32-bit word written with the mask 0 to a bank with an active row, at a column below 512, is what
-- sdram_read gives there.
pub sdram_read-sdram_write :
    (ba a row wdata : ℕ) (s : Sdram)
    → Access ba a row s
    → wdata < 2 ^ 32
    → (t : Sdram) × (sdram_write ba a wdata 0 s ≡ done t) × (sdram_read ba a t ≡ done wdata)
unfolding sdram_read
sdram_read-sdram_write ba a row wdata s access d =
    let p : Place = record { bank = ba; row = row; col = a; lane = 0 } in
    let (t, e, rows, w) = sdram_write-lanes ba a row wdata 0 s access refl in
    let (checked, place) =
      accessed ba a row 0 t (access.0, access.1, access.2, ap (λ f. f ba) rows ∙ access.3) in
    let same : same_word p p ≡ true = ground arith in
    let a0 : t.cells (at_lane p 0) ≡ wdata % 256 =
      w (at_lane p 0) (omega arith) ∙ rw same (omega arith) in
    let a1 : t.cells (at_lane p 1) ≡ wdata / 256 % 256 =
      w (at_lane p 1) (omega arith) ∙ rw same (omega arith) in
    let a2 : t.cells (at_lane p 2) ≡ wdata / 65536 % 256 =
      w (at_lane p 2) (omega arith) ∙ rw same (omega arith) in
    let a3 : t.cells (at_lane p 3) ≡ wdata / 16777216 % 256 =
      w (at_lane p 3) (omega arith) ∙ rw same (omega arith) in
    (t, e, rw (checked, place) (ap done (omega (arith, a0, a1, a2, a3))))
