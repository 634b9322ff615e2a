-- ===== src/Memory/PhysicalWrite.antt =====
-- What `pmem_write` leaves in the memory.
use fpga_npc.Base.{
  ℕ, zero, suc, ◌+◌, ◌-◌, ◌/◌, ◌%◌, ◌^◌, ◌≤◌, ◌<◌, ◌≡◌, refl, sym, ap, ◌∙◌, true, false, ◌&&◌, none,
  ltb, leb, ◌==◌, if◌then◌else◌, done, sub32, arith, Bool-cases, inl, inr,
}
use fpga_npc.Memory.{Bytes, pmem_size, serial_port, rtc_addr, read_word, store, word}
use fpga_npc.Memory.Physical.{pmem_read, halve_mask, next_byte, write_loop, pmem_write}

-- The rounds that a mask takes: the position of its highest bit.
abbrev pub rounds : ℕ → ℕ
rounds wmask =
    if wmask == 0
    then 0
    else if ltb wmask 2
    then 1
    else if ltb wmask 4
    then 2
    else if ltb wmask 8
    then 3
    else 4

-- The byte that round `i` writes.
abbrev pub byte_at : ℕ → ℕ → ℕ
byte_at temp zero = temp % 256
byte_at temp (suc i) = byte_at (next_byte temp) i

-- The memory with bytes `paddr` to `paddr + n - 1` from a word.
abbrev pub written : Bytes → ℕ → ℕ → ℕ → Bytes
written pmem paddr n temp b =
    if leb paddr b && ltb b (paddr + n) then byte_at temp (b - paddr) else pmem b

rounds-halve :
    (wmask : ℕ)
    → 0 < wmask
    → wmask < 16
    → (rounds wmask ≡ suc (rounds (halve_mask wmask))) × (halve_mask wmask < 16)
unfolding halve_mask
rounds-halve wmask p q = (ground arith, ground arith)

byte_at-first : (temp paddr b : ℕ) → b ≡ paddr → byte_at temp (b - paddr) ≡ temp % 256
byte_at-first temp paddr b e = let z : b - paddr ≡ 0 = omega arith in ap (byte_at temp) z

byte_at-later :
    (temp paddr b : ℕ)
    → paddr < b
    → byte_at temp (b - paddr) ≡ byte_at (next_byte temp) (b - (paddr + 1))
byte_at-later temp paddr b l =
    let z : b - paddr ≡ suc (b - (paddr + 1)) = omega arith in ap (byte_at temp) z

written-store :
    (pmem : Bytes) (paddr n temp b : ℕ)
    → written (store pmem paddr (temp % 256)) (paddr + 1) n (next_byte temp) b
      ≡ written pmem paddr (suc n) temp b
written-store pmem paddr n temp b =
    ground (arith, byte_at-first temp paddr b, byte_at-later temp paddr b)

write_loop-written :
    (fuel paddr wmask temp : ℕ) (pmem : Bytes)
    → wmask < 16
    → rounds wmask < fuel
    → paddr + rounds wmask ≤ pmem_size
    → (m : Bytes) × (write_loop fuel paddr wmask temp pmem ≡ done m)
      × ((b : ℕ) → m b ≡ written pmem paddr (rounds wmask) temp b)
unfolding write_loop
write_loop-written zero paddr wmask temp pmem h f r = absurd (omega arith)
write_loop-written (suc fuel) paddr wmask temp pmem h f r = elim (Bool-cases (wmask == 0)) [
  | inl y ↦ (pmem, rw y refl, λ b. ground arith)
  | inr n ↦
      let (e, k) = rounds-halve wmask (ground arith) h in
      let (m, g, w) =
        write_loop-written fuel (paddr + 1) (halve_mask wmask) (next_byte temp)
          (store pmem paddr (temp % 256)) k (omega (arith, e)) (omega (arith, e)) in
      let l : ltb paddr pmem_size ≡ true = ground (arith, e) in
      (
        m,
        rw (n, l) g,
        λ b.
            w b
            ∙ written-store pmem paddr (rounds (halve_mask wmask)) temp b
            ∙ ap (λ k. written pmem paddr k temp b) (sym e),
      )
]

-- Byte `i` of a word.
abbrev pub byte_of : ℕ → ℕ → ℕ
byte_of d i = (d / 256 ^ i) % 256

byte_at-byte_of : (d i : ℕ) → d < 2 ^ 32 → i < 4 → byte_at d i ≡ byte_of d i
unfolding next_byte
byte_at-byte_of d zero h l = omega arith
byte_at-byte_of d (suc zero) h l = ground arith
byte_at-byte_of d (suc (suc zero)) h l = ground arith
byte_at-byte_of d (suc (suc (suc zero))) h l = ground arith
byte_at-byte_of d (suc (suc (suc (suc i)))) h l = absurd (omega arith)

written-bytes :
    (pmem : Bytes) (paddr n d b : ℕ)
    → d < 2 ^ 32
    → n ≤ 4
    → written pmem paddr n d b
      ≡ (if leb paddr b && ltb b (paddr + n) then byte_of d (b - paddr) else pmem b)
written-bytes pmem paddr n d b h l = ground (arith, byte_at-byte_of d (b - paddr) h)

pmem_write-step :
    (waddr wdata wmask p : ℕ) (pmem m : Bytes)
    → (waddr == serial_port) ≡ false
    → sub32 waddr 0x80000000 ≡ p
    → ltb p pmem_size ≡ true
    → write_loop (pmem_size + 1 - p) p wmask wdata pmem ≡ done m
    → pmem_write waddr wdata wmask pmem ≡ done (none, m)
unfolding pmem_write
pmem_write-step waddr wdata wmask p pmem m o e i g = rw (o, e, i, g) refl

-- For a mask below 16 and a range of memory from the address on that holds as many bytes as the
-- position of the highest bit of the mask says, pmem_write writes the low bytes of the word to
-- exactly that range and changes no other byte.
pub pmem_write-bytes :
    (waddr wdata wmask : ℕ) (pmem : Bytes)
    → wdata < 2 ^ 32
    → wmask < 16
    → 0x80000000 ≤ waddr
    → waddr < 0x88000000
    → waddr + rounds wmask ≤ 0x88000000
    → (m : Bytes) × (pmem_write waddr wdata wmask pmem ≡ done (none, m))
      × ((b : ℕ)
          → let p = waddr - 0x80000000 in
            m b ≡ (if leb p b && ltb b (p + rounds wmask) then byte_of wdata (b - p) else pmem b))
pmem_write-bytes waddr wdata wmask pmem hd hm lo hi fit =
    let p = waddr - 0x80000000 in
    let e : sub32 waddr 0x80000000 ≡ p = omega arith in
    let few : rounds wmask ≤ 4 = ground arith in
    let (m, g, w) =
      write_loop-written (pmem_size + 1 - p) p wmask wdata pmem hm (omega (arith, few))
        (omega arith) in
    let inside : ltb p pmem_size ≡ true = ground arith in
    let outside : (waddr == serial_port) ≡ false = ground arith in
    (
      m,
      pmem_write-step waddr wdata wmask p pmem m outside e inside g,
      λ b. w b ∙ written-bytes pmem p (rounds wmask) wdata b hd few,
    )

word_of_bytes :
    (d : ℕ) → d < 2 ^ 32 → word (byte_of d 0) (byte_of d 1) (byte_of d 2) (byte_of d 3) ≡ d
word_of_bytes d h = omega arith

lane :
    (d p i x : ℕ)
    → i < 4
    → (if leb p (p + i) && ltb (p + i) (p + 4) then byte_of d (p + i - p) else x) ≡ byte_of d i
lane d p i x l = let z : p + i - p ≡ i = omega arith in ground (arith, ap (byte_of d) z)

pmem_read-step :
    (time raddr p d : ℕ) (m : Bytes)
    → (raddr == rtc_addr) ≡ false
    → (raddr == rtc_addr + 4) ≡ false
    → (raddr == serial_port) ≡ false
    → sub32 raddr 0x80000000 ≡ p
    → p + 4 ≤ pmem_size
    → word (m p) (m (p + 1)) (m (p + 2)) (m (p + 3)) ≡ d
    → pmem_read time m raddr ≡ done d
unfolding pmem_read read_word
pmem_read-step time raddr p d m a b c e l w =
    let inside : ltb p pmem_size ≡ true = ground arith in
    let fits : leb (p + 4) pmem_size ≡ true = ground arith in
    rw (a, b, c, e, inside, fits) (ap done w)

-- A 32-bit word that pmem_write has written with the mask 15 at an address from which four bytes
-- lie in the memory is what pmem_read gives at that address.
pub pmem_read-pmem_write :
    (time waddr wdata : ℕ) (pmem : Bytes)
    → wdata < 2 ^ 32
    → 0x80000000 ≤ waddr
    → waddr + 4 ≤ 0x88000000
    → (m : Bytes) × (pmem_write waddr wdata 15 pmem ≡ done (none, m))
      × (pmem_read time m waddr ≡ done wdata)
pmem_read-pmem_write time waddr wdata pmem hd lo hi =
    let p = waddr - 0x80000000 in
    let (m, g, w) =
      pmem_write-bytes waddr wdata 15 pmem hd (omega arith) lo (omega arith) (omega arith) in
    let e0 : m p ≡ byte_of wdata 0 =
      ap m (omega arith) ∙ w (p + 0) ∙ lane wdata p 0 (pmem (p + 0)) (omega arith) in
    let e1 = w (p + 1) ∙ lane wdata p 1 (pmem (p + 1)) (omega arith) in
    let e2 = w (p + 2) ∙ lane wdata p 2 (pmem (p + 2)) (omega arith) in
    let e3 = w (p + 3) ∙ lane wdata p 3 (pmem (p + 3)) (omega arith) in
    (
      m,
      g,
      pmem_read-step time waddr p wdata m (ground arith) (ground arith) (ground arith) (omega arith)
          (omega arith) (omega (arith, e0, e1, e2, e3, word_of_bytes wdata hd)),
    )
