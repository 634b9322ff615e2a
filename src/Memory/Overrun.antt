-- ===== src/Memory/Overrun.antt =====
-- A write mask with its top bit.
use fpga_npc.Base.{
  ℕ, zero, suc, ◌+◌, ◌-◌, ◌%◌, ◌≤◌, ◌<◌, ◌≡◌, refl, true, false, ltb, ◌==◌, undefined, sub32, arith,
  Bool-cases, inl, inr,
}
use fpga_npc.Memory.{Bytes, pmem_size, serial_port, store}
use fpga_npc.Memory.Physical.{halve_mask, next_byte, write_loop, pmem_write}

halve_mask-negative :
    (wmask : ℕ) → 128 ≤ wmask → wmask < 256 → (128 ≤ halve_mask wmask) × (halve_mask wmask < 256)
unfolding halve_mask
halve_mask-negative wmask p q = (ground arith, ground arith)

write_loop-overrun :
    (fuel paddr wmask temp : ℕ) (pmem : Bytes)
    → 128 ≤ wmask
    → wmask < 256
    → paddr ≤ pmem_size
    → pmem_size < fuel + paddr
    → write_loop fuel paddr wmask temp pmem ≡ undefined
unfolding write_loop
write_loop-overrun zero paddr wmask temp pmem lo hi a f = absurd (omega arith)
write_loop-overrun (suc fuel) paddr wmask temp pmem lo hi a f =
    let (lo', hi') = halve_mask-negative wmask lo hi in
    let n : (wmask == 0) ≡ false = ground arith in
    rw n (elim (Bool-cases (ltb paddr pmem_size)) [
      | inl y ↦ rw y (
          write_loop-overrun fuel (paddr + 1) (halve_mask wmask) (next_byte temp)
            (store pmem paddr (temp % 256)) lo' hi' (ground arith) (omega arith))
      | inr m ↦ rw m refl
    ])

-- At every address of the memory, pmem_write with a mask whose top bit is set, as a signed char a
-- negative number, runs over the end of the memory.
pub pmem_write-overrun :
    (waddr wdata wmask : ℕ) (pmem : Bytes)
    → 128 ≤ wmask
    → wmask < 256
    → 0x80000000 ≤ waddr
    → waddr < 0x88000000
    → pmem_write waddr wdata wmask pmem ≡ undefined
unfolding pmem_write
pmem_write-overrun waddr wdata wmask pmem lo hi a b =
    let p = waddr - 0x80000000 in
    let e : sub32 waddr 0x80000000 ≡ p = omega arith in
    let outside : (waddr == serial_port) ≡ false = ground arith in
    let inside : ltb p pmem_size ≡ true = ground arith in
    rw
      (
        outside,
        e,
        inside,
        write_loop-overrun (pmem_size + 1 - p) p wmask wdata pmem lo hi (omega arith) (omega arith),
      )
      refl
