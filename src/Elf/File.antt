-- ===== src/Elf/File.antt =====
-- `init_elf` of csrc/utils/elf.cc over the bytes of a file, with the layout of a little-endian 32-bit
-- ELF file.
use fpga_npc.Base.{
  ℕ, zero, suc, ◌+◌, ◌*◌, ◌/◌, Bool, true, false, ◌&&◌, not, Option, none, some, List, [], ◌∷◌, leb,
  ◌==◌, if◌then◌else◌, Outcome, done, aborted, undefined, ◌>>=◌, length, get_or, take, drop,
}
use fpga_npc.Elf.{Symbol, Tracer, extract_functab}

-- `fread(p, n, 1, fp)` at an offset. One item of no bytes is not read, so `none` stands for it too.
unfoldable pub read_at : List ℕ → ℕ → ℕ → Option (List ℕ)
read_at file offset n =
    if not (n == 0) && leb (offset + n) (length file)
    then some (take n (drop offset file))
    else none

-- A read that is asserted.
unfoldable pub must_read : List ℕ → ℕ → ℕ → Outcome (List ℕ)
must_read file offset n = elim (read_at file offset n) [ none ↦ aborted | some bytes ↦ done bytes ]

-- Little-endian fields.
abbrev pub u16_at : List ℕ → ℕ → ℕ
u16_at bytes i = get_or bytes i 0 + 256 * get_or bytes (i + 1) 0

abbrev pub u32_at : List ℕ → ℕ → ℕ
u32_at bytes i = u16_at bytes i + 65536 * u16_at bytes (i + 2)

-- The fields of `Elf32_Ehdr` that are used; the structure has 52 bytes.
pub record Header : Type 0 where
  pub e_ident : List ℕ
  pub e_shoff : ℕ
  pub e_shnum : ℕ
  pub e_shstrndx : ℕ

unfoldable pub header : List ℕ → Header
header bytes = record {
  e_ident = take 16 bytes;
  e_shoff = u32_at bytes 32;
  e_shnum = u16_at bytes 48;
  e_shstrndx = u16_at bytes 50;
}

-- The test of the magic number: the file is refused where all four bytes differ.
unfoldable pub is_refused : List ℕ → Bool
is_refused e_ident =
    not (get_or e_ident 0 0 == 0x7f)
    && not (get_or e_ident 1 0 == b'E')
    && not (get_or e_ident 2 0 == b'L')
    && not (get_or e_ident 3 0 == b'F')

-- The fields of `Elf32_Shdr` that are used; the structure has 40 bytes.
pub record Section : Type 0 where
  pub sh_type : ℕ
  pub sh_offset : ℕ
  pub sh_size : ℕ

unfoldable pub sections : ℕ → List ℕ → List Section
sections zero bytes = []
sections (suc n) bytes =
    record { sh_type = u32_at bytes 4; sh_offset = u32_at bytes 16; sh_size = u32_at bytes 20 }
    ∷ sections n (drop 40 bytes)

-- The symbols of `n` times 16 bytes.
unfoldable pub symbols : ℕ → List ℕ → List Symbol
symbols zero bytes = []
symbols (suc n) bytes =
    record {
      st_name = u32_at bytes 0;
      st_value = u32_at bytes 4;
      st_size = u32_at bytes 8;
      st_info = get_or bytes 12 0;
    }
    ∷ symbols n (drop 16 bytes)

abbrev pub sht_symtab : ℕ
sht_symtab = 2

abbrev pub sht_strtab : ℕ
sht_strtab = 3

-- The two tables, where they were found: the last ones of their kinds.
pub record Tables : Type 0 where
  pub symtab : Option (List Symbol)
  pub strtab : Option (List ℕ)

unfoldable pub read_section : List ℕ → ℕ → ℕ → Section → Tables → Outcome Tables
read_section file e_shstrndx i s t =
    if s.sh_type == sht_symtab
    then (do
      bytes ← must_read file s.sh_offset s.sh_size
      done (record t { symtab = some (symbols (s.sh_size / 16) bytes) }))
    else if (s.sh_type == sht_strtab) && not (i == e_shstrndx)
    then (do bytes ← must_read file s.sh_offset s.sh_size; done (record t { strtab = some bytes }))
    else done t

unfoldable pub read_sections : List ℕ → ℕ → ℕ → List Section → Tables → Outcome Tables
read_sections file e_shstrndx i [] t = done t
read_sections file e_shstrndx i (s ∷ ss) t = do
  u ← read_section file e_shstrndx i s t
  read_sections file e_shstrndx (i + 1) ss u

-- The `Assert` behind the loop, and what follows it.
unfoldable pub load_tables : Tables → Tracer → Outcome Tracer
load_tables t tracer = elim t.symtab [
  | none ↦ aborted
  | some symtab ↦ elim t.strtab [
    | none ↦ aborted
    | some strtab ↦ do
      functab ← extract_functab symtab strtab
      done (record tracer { elf_loaded = true; functab = functab })
  ]
]

-- The sections, behind the header. An index of the section of names that no section has reads
-- behind the array.
unfoldable pub load_sections : List ℕ → Header → Tracer → Outcome Tracer
load_sections file h tracer = do
  bytes ← must_read file h.e_shoff (40 * h.e_shnum)
  let ss = sections h.e_shnum bytes
  elim (drop h.e_shstrndx ss) [
    | [] ↦ undefined
    | names ∷ _ ↦ do
      shstrtab ← must_read file names.sh_offset names.sh_size
      t ← read_sections file h.e_shstrndx 0 ss (record { symtab = none; strtab = none })
      load_tables t tracer
  ]

-- No file name, a file that cannot be opened, or the bytes of the file. Where the header cannot be
-- read, the code goes on with one that is not initialised; a file that is refused is given to `free`.
unfoldable pub init_elf : Option (Option (List ℕ)) → Tracer → Outcome Tracer
init_elf none tracer = done tracer
init_elf (some none) tracer = aborted
init_elf (some (some file)) tracer = elim (read_at file 0 52) [
  | none ↦ undefined
  | some bytes ↦
      let h = header bytes in
      elim (is_refused h.e_ident) [ true ↦ undefined | false ↦ load_sections file h tracer ]
]
