-- ===== src/Memory.antt =====
-- csrc/memory/paddr.cpp, and the flash, the clock and the SDRAM of csrc/memory/mmio.cpp, with
-- include/memory/paddr.h, include/device/device.h and csrc/utils/timer.c. An `int` is its bit pattern
-- below 2 ^ 32, and a failing `Assert` of include/debug.h aborts.
pub mod Timer
pub mod Physical
pub mod PhysicalWrite
pub mod Overrun
pub mod Sdram
pub mod Lanes
pub mod Ddr
pub mod DdrLayout
pub mod Image
mod Examples
use fpga_npc.Base.{
  ℕ, zero, suc, ◌+◌, ◌-◌, ◌*◌, ◌/◌, ◌%◌, ◌^◌, Bool, true, false, ◌&&◌, ◌||◌, ltb, leb, ◌==◌,
  if◌then◌else◌, Outcome, done, aborted, undefined, u32, sub32,
}

-- The constants.
abbrev pub pmem_size : ℕ
pmem_size = 0x8000000

abbrev pub mrom_base : ℕ
mrom_base = 0x20000000

abbrev pub serial_port : ℕ
serial_port = 0x20030000

abbrev pub rtc_addr : ℕ
rtc_addr = 0x20040000

abbrev pub flash_size : ℕ
flash_size = 0x10000000

-- An array of bytes; the reads below test its size.
abbrev pub Bytes : Type 0
Bytes = ℕ → ℕ

-- The little-endian word of four bytes.
abbrev pub word : ℕ → ℕ → ℕ → ℕ → ℕ
word b0 b1 b2 b3 = b0 + 256 * b1 + 65536 * b2 + 16777216 * b3

-- `*(int *)(&mem[i])`, in an array of `size` bytes.
unfoldable pub read_word : Bytes → ℕ → ℕ → Outcome ℕ
read_word mem size i =
    if leb (i + 4) size
    then done (word (mem i) (mem (i + 1)) (mem (i + 2)) (mem (i + 3)))
    else undefined

-- `addr & 0xfffffffc`
abbrev pub align : ℕ → ℕ
align addr = addr - addr % 4

-- A write of one byte.
abbrev pub store : Bytes → ℕ → ℕ → Bytes
store mem i v b = if b == i then v else mem b
