-- ===== src/Memory/Sdram.antt =====
-- The SDRAM of csrc/memory/mmio.cpp: four banks of rows of columns, each of two 16-bit cells, which are
-- read and written as one word of four bytes.
use fpga_npc.Base.{
  ℕ, ◌/◌, ◌%◌, ◌^◌, Bool, false, ◌&&◌, ◌||◌, Option, none, some, ltb, leb, ◌==◌, if◌then◌else◌,
  Outcome, done, aborted, undefined, ◌>>=◌,
}
use fpga_npc.Memory.{word}

abbrev pub nr_banks : ℕ
nr_banks = 4

abbrev pub nr_rows : ℕ
nr_rows = 8192

abbrev pub nr_cols : ℕ
nr_cols = 512

-- The place of a byte: bank, row, column, and the byte of the two cells.
pub record Place : Type 0 where
  pub bank : ℕ
  pub row : ℕ
  pub col : ℕ
  pub lane : ℕ

abbrev pub same_word : Place → Place → Bool
same_word p q = (p.bank == q.bank) && (p.row == q.row) && (p.col == q.col)

-- `sdram` and `activedRows`: the row that is active in each bank.
pub record Sdram : Type 0 where
  pub cells : Place → ℕ
  pub actived_rows : ℕ → Option ℕ

-- The `Assert` of the three handlers: it stops only where both numbers are too large.
abbrev pub sdram_assert : ℕ → ℕ → Bool
sdram_assert ba a = ltb ba nr_banks || ltb a nr_rows

-- `ActivateRowInBank`: an index behind the banks, or behind the end of the rows, is undefined.
unfoldable pub sdram_active : ℕ → ℕ → Sdram → Outcome Sdram
sdram_active ba a s =
    if sdram_assert ba a
    then (if ltb ba nr_banks && leb a nr_rows
        then done (record s { actived_rows = λ b. if b == ba then some a else s.actived_rows b })
        else undefined)
    else aborted

-- `GetActivedRowInBank`: no active row, the row behind the last one, and a column behind the row are
-- undefined.
unfoldable pub actived_place : ℕ → ℕ → ℕ → Sdram → Outcome Place
actived_place ba a lane s = elim (s.actived_rows ba) [
  | none ↦ undefined
  | some row ↦
      if ltb row nr_rows && ltb a nr_cols
      then done (record { bank = ba; row = row; col = a; lane = lane })
      else undefined
]

-- The two `assert`s behind the `Assert`; the second one compares the column with the rows.
abbrev pub sdram_checks : ℕ → ℕ → Bool
sdram_checks ba a = sdram_assert ba a && ltb ba nr_banks && ltb a nr_rows

abbrev pub at_lane : Place → ℕ → Place
at_lane p i = record p { lane = i }

abbrev pub word_at : (Place → ℕ) → Place → ℕ
word_at cells p =
    word (cells (at_lane p 0)) (cells (at_lane p 1)) (cells (at_lane p 2)) (cells (at_lane p 3))

unfoldable pub sdram_read : ℕ → ℕ → Sdram → Outcome ℕ
sdram_read ba a s =
    if sdram_checks ba a then (do p ← actived_place ba a 0 s; done (word_at s.cells p)) else aborted

-- `Byte0Mask` and its kin.
abbrev pub none_mask : ℕ
none_mask = 0xf

abbrev pub byte0_mask : ℕ
byte0_mask = 0xe

abbrev pub byte1_mask : ℕ
byte1_mask = 0xd

abbrev pub byte2_mask : ℕ
byte2_mask = 0xb

abbrev pub byte3_mask : ℕ
byte3_mask = 0x7

abbrev pub halfword_l_mask : ℕ
halfword_l_mask = 0xc

abbrev pub halfword_h_mask : ℕ
halfword_h_mask = 0x3

abbrev pub word_mask : ℕ
word_mask = 0x0

-- The lanes that the `switch` on the mask writes.
unfoldable pub written_lanes : ℕ → Option (ℕ → Bool)
written_lanes dqm =
    if dqm == none_mask
    then some (λ i. false)
    else if dqm == byte0_mask
    then some (λ i. i == 0)
    else if dqm == byte1_mask
    then some (λ i. i == 1)
    else if dqm == byte2_mask
    then some (λ i. i == 2)
    else if dqm == byte3_mask
    then some (λ i. i == 3)
    else if dqm == halfword_l_mask
    then some (λ i. ltb i 2)
    else if dqm == halfword_h_mask
    then some (λ i. leb 2 i && ltb i 4)
    else if dqm == word_mask
    then some (λ i. ltb i 4)
    else none

-- The word's bytes, shifted down and cut to 8 or 16 bits, in these lanes of a place.
abbrev pub put_lanes : (Place → ℕ) → Place → (ℕ → Bool) → ℕ → Place → ℕ
put_lanes cells p lanes wdata q =
    if same_word p q && lanes q.lane then (wdata / 256 ^ q.lane) % 256 else cells q

-- `NoneMask` does not look at the active row, and neither does `default`.
unfoldable pub sdram_write : ℕ → ℕ → ℕ → ℕ → Sdram → Outcome Sdram
sdram_write ba a wdata dqm s =
    if sdram_checks ba a
    then (if dqm == none_mask then done s else elim (written_lanes dqm) [
      | none ↦ aborted
      | some lanes ↦ do
        p ← actived_place ba a 0 s
        done (record s { cells = put_lanes s.cells p lanes wdata })
    ])
    else aborted
