-- ===== src/Memory/Image.antt =====
-- The memories after the image was loaded.
use fpga_npc.Base.{
  ℕ, ◌≤◌, ◌<◌, ◌≡◌, refl, false, some, List, ltb, ◌==◌, if◌then◌else◌, done, arith, length, get_or,
}
use fpga_npc.Memory.{Bytes, pmem_size, flash_size}
use fpga_npc.Memory.Ddr.{read_image, Memories, load_img}
use fpga_npc.Memory.DdrLayout.{place, init_ddr-place}

read_image_lem :
    (file : List ℕ) (room : ℕ) (mem : Bytes)
    → 0 < length file
    → length file ≤ room
    → (m : Bytes) × (read_image file room mem ≡ done m)
      × ((b : ℕ) → b < length file → m b ≡ get_or file b 0)
      × ((b : ℕ) → length file ≤ b → m b ≡ mem b)
unfolding read_image
read_image_lem file room mem p q =
    let n : (length file == 0) ≡ false = ground arith in
    let f : ltb room (length file) ≡ false = ground arith in
    (
      (λ b. if ltb b (length file) then get_or file b 0 else mem b),
      rw (n, f) refl,
      λ b l. ground arith,
      λ b l. ground arith,
    )

-- load_img of a file of 1 byte to 32 MiB gives its size and puts its bytes at the start of pmem
-- and of the flash, the rest of which stays, and in the SDRAM at the places that the blocks of
-- 1024 bytes take: rotating over the four banks, then the next row.
pub load_img-image :
    (file : List ℕ) (m : Memories)
    → 0 < length file
    → length file ≤ 33554432
    → (t : Memories) × (load_img (some file) m ≡ done (length file, t))
      × ((b : ℕ) → b < length file → t.pmem b ≡ get_or file b 0)
      × ((b : ℕ) → length file ≤ b → t.pmem b ≡ m.pmem b)
      × ((b : ℕ) → b < length file → t.flash b ≡ get_or file b 0)
      × ((b : ℕ) → length file ≤ b → t.flash b ≡ m.flash b)
      × ((b : ℕ) → b < length file → t.sdram.cells (place b) ≡ get_or file b 0)
unfolding load_img
load_img-image file m p q =
    let (pmem, e1, a1, b1) = read_image_lem file pmem_size m.pmem p (omega arith) in
    let (flash, e2, a2, b2) = read_image_lem file flash_size m.flash p (omega arith) in
    let (sdram, e3, a3) = init_ddr-place file m.sdram q in
    (record { pmem = pmem; flash = flash; sdram = sdram }, rw (e1, e2, e3) refl, a1, b1, a2, b2, a3)
