-- ===== src/Memory/Examples.antt =====
-- Accesses to small memories.
use fpga_npc.Base.{
  ℕ, ◌-◌, ◌/◌, ◌%◌, ◌^◌, ◌≤◌, ◌<◌, ◌≡◌, refl, ◌&&◌, none, some, List, [], ◌∷◌, ltb, leb, ◌==◌,
  if◌then◌else◌, done, undefined, arith, get_or,
}
use fpga_npc.Memory.{Bytes}
use fpga_npc.Memory.Physical.{pmem_read, pmem_write}
use fpga_npc.Memory.PhysicalWrite.{byte_of, pmem_write-bytes, pmem_read-pmem_write}
use fpga_npc.Memory.Overrun.{pmem_write-overrun}
use fpga_npc.Memory.Sdram.{Place, Sdram, same_word, sdram_write}
use fpga_npc.Memory.Lanes.{bit_clear, sdram_write-lanes}
use fpga_npc.Memory.Ddr.{Memories, load_img}
use fpga_npc.Memory.DdrLayout.{place}
use fpga_npc.Memory.Image.{load_img-image}

abbrev zeros : Bytes
zeros b = 0

-- The mask of lane 1 alone: two bytes are written.
pmem_write-bytes_example :
    (m : Bytes) × (pmem_write 0x80000010 0x11223344 2 zeros ≡ done (none, m))
    × ((b : ℕ) → m b ≡ (if leb 16 b && ltb b 18 then byte_of 0x11223344 (b - 16) else 0))
pmem_write-bytes_example =
    pmem_write-bytes 0x80000010 0x11223344 2 zeros (omega arith) (omega arith) (omega arith)
      (omega arith) (omega arith)

pmem_read-pmem_write_example :
    (m : Bytes) × (pmem_write 0x80000010 0x11223344 15 zeros ≡ done (none, m))
    × (pmem_read 0 m 0x80000010 ≡ done 0x11223344)
pmem_read-pmem_write_example =
    pmem_read-pmem_write 0 0x80000010 0x11223344 zeros (omega arith) (omega arith) (omega arith)

pmem_write-overrun_example : pmem_write 0x80000010 0 0x80 zeros ≡ undefined
pmem_write-overrun_example =
    pmem_write-overrun 0x80000010 0 0x80 zeros (omega arith) (omega arith) (omega arith)
      (omega arith)

-- Row 7 of bank 2 is active.
abbrev sdram : Sdram
sdram = record { cells = λ _. 0; actived_rows = λ b. if b == 2 then some 7 else none }

sdram_write-lanes_example :
    (t : Sdram) × (sdram_write 2 30 0x11223344 0xc sdram ≡ done t)
    × (t.actived_rows ≡ sdram.actived_rows)
    × ((q : Place)
        → q.lane < 4
        → t.cells q ≡ (
            if same_word (record { bank = 2; row = 7; col = 30; lane = 0 }) q
              && bit_clear 0xc q.lane
            then (0x11223344 / 256 ^ q.lane) % 256
            else 0))
sdram_write-lanes_example =
    sdram_write-lanes 2 30 7 0x11223344 0xc sdram (omega arith, omega arith, omega arith, refl) refl

abbrev memories : Memories
memories = record { pmem = zeros; flash = zeros; sdram = sdram }

abbrev image : List ℕ
image = 0x13 ∷ 0 ∷ 0 ∷ 0 ∷ 0x73 ∷ []

load_img-image_example :
    (t : Memories) × (load_img (some image) memories ≡ done (5, t))
    × ((b : ℕ) → b < 5 → t.pmem b ≡ get_or image b 0)
    × ((b : ℕ) → 5 ≤ b → t.pmem b ≡ 0)
    × ((b : ℕ) → b < 5 → t.flash b ≡ get_or image b 0)
    × ((b : ℕ) → 5 ≤ b → t.flash b ≡ 0)
    × ((b : ℕ) → b < 5 → t.sdram.cells (place b) ≡ get_or image b 0)
load_img-image_example = load_img-image image memories (omega arith) (omega arith)
