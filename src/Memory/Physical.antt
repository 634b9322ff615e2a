-- ===== src/Memory/Physical.antt =====
-- The handlers of csrc/memory/paddr.cpp and `flash_read`.
use fpga_npc.Base.{
  ℕ, zero, suc, ◌+◌, ◌-◌, ◌*◌, ◌/◌, ◌%◌, ◌^◌, Bool, ◌&&◌, ◌||◌, Option, none, some, ltb, leb, ◌==◌,
  if◌then◌else◌, Outcome, done, aborted, undefined, out_of_fuel, ◌>>=◌, sub32,
}
use fpga_npc.Memory.{
  Bytes, pmem_size, mrom_base, serial_port, rtc_addr, flash_size, read_word, align, store,
}
use fpga_npc.Memory.Timer.{rtc_word}

unfoldable pub v_to_p : ℕ → ℕ
v_to_p addr = sub32 addr 0x80000000

-- The comparison is one of unsigned numbers.
unfoldable pub in_pmem : ℕ → Bool
in_pmem addr = ltb (sub32 addr 0x80000000) pmem_size

-- A signed comparison: an address from 2 ^ 31 on is negative.
unfoldable pub mrom_read : Bytes → ℕ → Outcome ℕ
mrom_read pmem addr =
    if leb mrom_base addr && ltb addr (mrom_base + 0x1000)
    then read_word pmem pmem_size (align (addr - mrom_base))
    else aborted

-- `pmem_read`, where `get_time` gives `time`.
unfoldable pub pmem_read : ℕ → Bytes → ℕ → Outcome ℕ
unfolding in_pmem v_to_p rtc_word
pmem_read time pmem raddr =
    if (raddr == rtc_addr) || (raddr == rtc_addr + 4)
    then done (rtc_word time raddr)
    else if raddr == serial_port
    then done 0
    else if in_pmem raddr
    then read_word pmem pmem_size (v_to_p raddr)
    else aborted

unfoldable pub inst_read : Bytes → ℕ → Outcome ℕ
unfolding in_pmem v_to_p
inst_read pmem addr =
    if in_pmem addr then read_word pmem pmem_size (v_to_p (align addr)) else aborted

unfoldable pub flash_read : Bytes → ℕ → Outcome ℕ
flash_read flash addr =
    if ltb addr flash_size then read_word flash flash_size (align addr) else aborted

-- `wmask >>= 1` on a signed `char`, and `temp >>= 8` on an `int`: the sign stays.
unfoldable pub halve_mask : ℕ → ℕ
halve_mask wmask = if ltb wmask 128 then wmask / 2 else wmask / 2 + 128

unfoldable pub next_byte : ℕ → ℕ
next_byte temp = if ltb temp (2 ^ 31) then temp / 256 else temp / 256 + 255 * 2 ^ 24

-- The loop of `pmem_write`. A write behind the array is undefined, so a round for each byte up to
-- there and one more are enough.
unfoldable pub write_loop : ℕ → ℕ → ℕ → ℕ → Bytes → Outcome Bytes
unfolding halve_mask next_byte
write_loop zero paddr wmask temp pmem = out_of_fuel
write_loop (suc fuel) paddr wmask temp pmem =
    let rest =
      write_loop fuel (paddr + 1) (halve_mask wmask) (next_byte temp)
        (store pmem paddr (temp % 256)) in
    if wmask == 0 then done pmem else if ltb paddr pmem_size then rest else undefined

-- What `putchar` prints, if anything, and the memory; `*bresp` is true where the memory is written.
unfoldable pub pmem_write : ℕ → ℕ → ℕ → Bytes → Outcome (Option ℕ × Bytes)
unfolding in_pmem v_to_p
pmem_write waddr wdata wmask pmem =
    if waddr == serial_port
    then done (some (wdata % 256), pmem)
    else if in_pmem waddr
    then (do
      written ← write_loop (pmem_size + 1 - v_to_p waddr) (v_to_p waddr) wmask wdata pmem
      done (none, written))
    else aborted
