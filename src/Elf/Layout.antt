-- ===== src/Elf/Layout.antt =====
-- How an ELF file is written: the header, the headers of the sections, and the sections, each of them
-- anywhere in the file. The bytes that `init_elf` does not look at are arbitrary.
use fpga_npc.Base.{
  ℕ, zero, suc, ◌+◌, ◌*◌, ◌/◌, ◌%◌, ◌^◌, ◌<◌, ◌≡◌, refl, List, [], ◌∷◌, ◌++◌, arith, length, All,
}
use fpga_npc.Elf.{Symbol}
use fpga_npc.Elf.File.{u32_at, header, Section, sections, symbols}

-- Little-endian numbers of two and of four bytes.
abbrev half : ℕ → List ℕ
half n = n % 256 ∷ n / 256 % 256 ∷ []

abbrev word : ℕ → List ℕ
word n = half (n % 65536) ++ half (n / 65536)

-- The bytes from number `i` on, `n` of them.
abbrev fill : (ℕ → ℕ) → ℕ → ℕ → List ℕ
fill other i zero = []
fill other i (suc n) = other i ∷ fill other (i + 1) n

-- The header: `e_shoff`, `e_shnum` and `e_shstrndx`, and arbitrary bytes between them.
abbrev pub file_header : (ℕ → ℕ) → ℕ → ℕ → ℕ → List ℕ
file_header other e_shoff e_shnum e_shstrndx =
    0x7f
    ∷ b'E'
    ∷ b'L'
    ∷ b'F'
    ∷ (fill other 4 28 ++ word e_shoff ++ fill other 36 12 ++ half e_shnum ++ half e_shstrndx)

abbrev section_header : (ℕ → ℕ) → Section → List ℕ
section_header other s =
    fill other 0 4
    ++ word s.sh_type
    ++ fill other 8 8
    ++ word s.sh_offset
    ++ word s.sh_size
    ++ fill other 24 16

-- The headers of the sections from number `i` on; the other bytes depend on the number.
abbrev pub section_headers : (ℕ → ℕ → ℕ) → ℕ → List Section → List ℕ
section_headers others i [] = []
section_headers others i (s ∷ ss) = section_header (others i) s ++ section_headers others (i + 1) ss

-- The bytes stand in the file from an offset on, with anything around them.
pub record At (file : List ℕ) (offset : ℕ) (bytes : List ℕ) : Type 0 where
  pub before : List ℕ
  pub behind : List ℕ
  pub split : file ≡ before ++ (bytes ++ behind)
  pub place : length before ≡ offset

-- The file has the bytes of a section, which are not none.
pub record Holds (file : List ℕ) (s : Section) (bytes : List ℕ) : Type 0 where
  pub stands : At file s.sh_offset bytes
  pub size : s.sh_size ≡ length bytes
  pub some_bytes : 0 < length bytes

-- A table of symbols; `other` has the last three bytes of each.
abbrev symbol : (ℕ → ℕ) → Symbol → List ℕ
symbol other s = word s.st_name ++ word s.st_value ++ word s.st_size ++ s.st_info ∷ fill other 13 3

abbrev pub symbol_table : (ℕ → ℕ) → List Symbol → List ℕ
symbol_table other [] = []
symbol_table other (s ∷ ss) = symbol other s ++ symbol_table other ss

abbrev pub IsWord : ℕ → Type 0
IsWord n = n < 2 ^ 32

abbrev pub SymbolFits : Symbol → Type 0
SymbolFits s = IsWord s.st_name × IsWord s.st_value × IsWord s.st_size

abbrev pub SectionFits : Section → Type 0
SectionFits s = IsWord s.sh_type × IsWord s.sh_offset × IsWord s.sh_size

u32-word : (n : ℕ) (rest : List ℕ) → IsWord n → u32_at (word n ++ rest) 0 ≡ n
u32-word n rest h = omega arith

pub sections-section_headers :
    (others : ℕ → ℕ → ℕ) (i : ℕ) (ss : List Section)
    → All SectionFits ss
    → sections (length ss) (section_headers others i ss) ≡ ss
unfolding sections
sections-section_headers others i [] h = refl
sections-section_headers others i (s ∷ ss) ((t, o, z), h) =
    let type = u32-word s.sh_type [] t in
    let at = u32-word s.sh_offset [] o in
    let size = u32-word s.sh_size [] z in
    let rest = sections-section_headers others (i + 1) ss h in
    λ j. record { sh_type = type j; sh_offset = at j; sh_size = size j } ∷ rest j

pub length-section_headers :
    (others : ℕ → ℕ → ℕ) (i : ℕ) (ss : List Section)
    → length (section_headers others i ss) ≡ 40 * length ss
length-section_headers others i [] = refl
length-section_headers others i (s ∷ ss) = omega (arith, length-section_headers others (i + 1) ss)

-- The header, with its fields.
pub header-file_header :
    (other : ℕ → ℕ) (e_shoff e_shnum e_shstrndx : ℕ)
    → IsWord e_shoff
    → e_shnum < 2 ^ 16
    → e_shstrndx < 2 ^ 16
    → let h = header (file_header other e_shoff e_shnum e_shstrndx) in
      (h.e_shoff ≡ e_shoff) × (h.e_shnum ≡ e_shnum) × (h.e_shstrndx ≡ e_shstrndx)
unfolding header
header-file_header other e_shoff e_shnum e_shstrndx o n k =
    (u32-word e_shoff [] o, omega (arith, n), omega (arith, k))

pub symbols-symbol_table :
    (other : ℕ → ℕ) (ss : List Symbol)
    → All SymbolFits ss
    → symbols (length ss) (symbol_table other ss) ≡ ss
unfolding symbols
symbols-symbol_table other [] h = refl
symbols-symbol_table other (s ∷ ss) ((n, v, z), h) =
    let name = u32-word s.st_name [] n in
    let value = u32-word s.st_value [] v in
    let size = u32-word s.st_size [] z in
    let rest = symbols-symbol_table other ss h in
    λ i.
      record { st_name = name i; st_value = value i; st_size = size i; st_info = s.st_info }
      ∷ rest i

pub length-symbol_table :
    (other : ℕ → ℕ) (ss : List Symbol) → length (symbol_table other ss) ≡ 16 * length ss
length-symbol_table other [] = refl
length-symbol_table other (s ∷ ss) = omega (arith, length-symbol_table other ss)
