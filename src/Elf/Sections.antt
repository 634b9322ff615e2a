-- ===== src/Elf/Sections.antt =====
-- The reads of `init_elf` in a file whose last sections are, as linkers write them, the symbols, their
-- names and the names of the sections.
use fpga_npc.Base.{
  ℕ, ◌+◌, ◌*◌, ◌/◌, ◌^◌, ◌<◌, ◌≡◌, inr, refl, sym, ap, ◌∙◌, some, List, [], ◌∷◌, ◌++◌, done, ◌>>=◌,
  arith, length, length-append, All, drop, drop-drop, drop-append,
}
use fpga_npc.Elf.File.{must_read, Section, symbols, Tables, read_sections}
use fpga_npc.Elf.Layout.{
  file_header, section_headers, At, Holds, IsWord, SectionFits, length-section_headers,
}
use fpga_npc.Elf.Loading.{
  Readable, must_read-At, must_read-Holds, read_symtab, read_strtab, read_other, read_sections-past,
}

-- The sections of a file, the last three by themselves, and where their headers stand. The bytes
-- that `init_elf` does not look at are those of `header_other` and `section_other`.
pub record Linked : Type 0 where
  pub others : List Section
  pub symtab : Section
  pub strtab : Section
  pub names : Section
  pub symtab_bytes : List ℕ
  pub strtab_bytes : List ℕ
  pub names_bytes : List ℕ
  pub e_shoff : ℕ
  pub header_other : ℕ → ℕ
  pub section_other : ℕ → ℕ → ℕ

module _ (l : Linked) where
  abbrev pub three : List Section
  three = l.symtab ∷ l.strtab ∷ l.names ∷ []

  abbrev pub all : List Section
  all = l.others ++ three

  abbrev pub names_index : ℕ
  names_index = length l.others + 2

  abbrev pub header_bytes : List ℕ
  header_bytes = file_header l.header_other l.e_shoff (length all) names_index

  abbrev pub found : Tables
  found = record {
    symtab = some (symbols (l.symtab.sh_size / 16) l.symtab_bytes);
    strtab = some l.strtab_bytes;
  }

  -- The bytes of such a file: the header at its start, the section headers and the sections where
  -- the headers say, and numbers that fit their fields.
  pub record IsElf (file : List ℕ) : Type 0 where
    pub starts : At file 0 header_bytes
    pub headers : At file l.e_shoff (section_headers l.section_other 0 all)
    pub readable : All (Readable file) l.others
    pub symtab_type : l.symtab.sh_type ≡ 2
    pub strtab_type : l.strtab.sh_type ≡ 3
    pub names_type : l.names.sh_type ≡ 3
    pub has_symtab : Holds file l.symtab l.symtab_bytes
    pub has_strtab : Holds file l.strtab l.strtab_bytes
    pub has_names : Holds file l.names l.names_bytes
    pub fits : All SectionFits all
    pub offset_fits : IsWord l.e_shoff
    pub few : length all < 2 ^ 16

  pub length-all : length all ≡ length l.others + 3
  length-all = omega (arith, length-append l.others three)

  pub drop-all : drop names_index all ≡ l.names ∷ []
  drop-all = sym (drop-drop (length l.others) 2 all) ∙ ap (drop 2) (drop-append l.others three)

  module _ (file : List ℕ) (e : IsElf file) where
    pub must_read-headers :
        must_read file l.e_shoff (40 * length all) ≡ done (section_headers l.section_other 0 all)
    must_read-headers =
        let size = length-section_headers l.section_other 0 all in
        ap (must_read file l.e_shoff) (sym size)
        ∙ must_read-At file l.e_shoff (section_headers l.section_other 0 all) e.headers
            (omega (arith, size, length-all))

    pub must_read-names : must_read file l.names.sh_offset l.names.sh_size ≡ done l.names_bytes
    must_read-names = must_read-Holds file names_index l.names l.names_bytes e.has_names

    read_sections-last :
        (i : ℕ) (t : Tables)
        → i ≡ length l.others
        → read_sections file names_index i three t ≡ done found
    unfolding read_sections
    read_sections-last i t same =
        let k = names_index in
        let u : Tables = record t { symtab = found.symtab } in
        let first = read_symtab file k l.symtab l.symtab_bytes i t e.symtab_type e.has_symtab in
        let second =
          read_strtab file k l.strtab l.strtab_bytes (i + 1) u e.strtab_type (omega (arith, same))
            e.has_strtab in
        let third =
          read_other file k l.names (i + 1 + 1) found (omega (arith, e.names_type))
            (inr (omega (arith, same))) in
        rw (first, ◌>>=◌, second, third) refl

    pub read_sections-all : (t : Tables) → read_sections file names_index 0 all t ≡ done found
    read_sections-all t =
        let (u, f) = read_sections-past file names_index l.others three 0 t e.readable in
        f ∙ read_sections-last (0 + length l.others) u (omega arith)
