-- ===== src/Memory/Ddr.antt =====
-- `load_img` of csrc/memory/paddr.cpp, with `init_flash` and `init_ddr` of csrc/memory/mmio.cpp. A
-- file is the list of its bytes.
use fpga_npc.Base.{
  ℕ, zero, suc, ◌+◌, ◌-◌, ◌*◌, ◌/◌, ◌%◌, ◌&&◌, Option, none, some, List, ltb, leb, ◌==◌,
  if◌then◌else◌, Outcome, done, aborted, undefined, out_of_fuel, ◌>>=◌, length, get_or, take, drop,
}
use fpga_npc.Memory.{Bytes, pmem_size, flash_size}
use fpga_npc.Memory.Sdram.{Place, Sdram, nr_banks, nr_rows}

-- `fread(mem, size, 1, fp)` at the start of the file, into an array of `room` bytes. One item of no
-- bytes is not read, so the result is 0 there.
unfoldable pub read_image : List ℕ → ℕ → Bytes → Outcome Bytes
read_image file room mem =
    if length file == 0
    then aborted
    else if ltb room (length file)
    then undefined
    else done (λ b. if ltb b (length file) then get_or file b 0 else mem b)

-- `SDRAM_NR_COLS * 2`
abbrev pub size_per_row : ℕ
size_per_row = 1024

-- Bytes from the start of a row on.
abbrev pub offset : Place → ℕ
offset q = 4 * q.col + q.lane

abbrev pub put_chunk : (Place → ℕ) → ℕ → ℕ → List ℕ → Place → ℕ
put_chunk cells bank row bytes q =
    if (q.bank == bank) && (q.row == row) && ltb (offset q) (length bytes)
    then get_or bytes (offset q) 0
    else cells q

-- The loop of `init_ddr`, with the rest of the file. Where the file is too short, `size` stays.
unfoldable pub ddr_loop : ℕ → ℕ → ℕ → ℕ → List ℕ → (Place → ℕ) → Outcome (Place → ℕ)
ddr_loop zero size bank row file cells = out_of_fuel
ddr_loop (suc fuel) size bank row file cells =
    let left = if leb size_per_row (length file) then size - size_per_row else size in
    let row' = if bank == nr_banks - 1 then (row + 1) % nr_rows else row in
    let on =
      ddr_loop fuel left ((bank + 1) % nr_banks) row' (drop size_per_row file)
        (put_chunk cells bank row (take size_per_row file)) in
    if ltb size_per_row size then on else done (put_chunk cells bank row (take size file))

-- A round for each row that is filled, and one more.
unfoldable pub init_ddr : List ℕ → ℕ → Sdram → Outcome Sdram
init_ddr file size s = do
  cells ← ddr_loop (size / size_per_row + 1) size 0 0 file s.cells
  done (record s { cells = cells })

-- The memories of the system.
pub record Memories : Type 0 where
  pub pmem : Bytes
  pub flash : Bytes
  pub sdram : Sdram

-- `load_img`: the size, and the memories. `none` is no file.
unfoldable pub load_img : Option (List ℕ) → Memories → Outcome (ℕ × Memories)
load_img none m = done (0, m)
load_img (some file) m = do
  pmem ← read_image file pmem_size m.pmem
  flash ← read_image file flash_size m.flash
  sdram ← init_ddr file (length file) m.sdram
  done (length file, record { pmem = pmem; flash = flash; sdram = sdram })
