-- ===== src/Elf/Loaded.antt =====
-- The table of functions that `init_elf` loads of a file whose last sections are, as linkers write
-- them, the symbols, their names and the names of the sections.
use fpga_npc.Base.{
  ℕ, ◌*◌, ◌/◌, ◌≡◌, refl, ap, ◌∙◌, true, false, none, some, List, [], ◌∷◌, map, done, ◌>>=◌, arith,
  length, All, drop,
}
use fpga_npc.Elf.{Symbol, Tracer, c_string, extract_functab}
use fpga_npc.Elf.File.{
  read_at, must_read, Header, header, is_refused, sections, symbols, Tables, read_sections,
  load_tables, load_sections, init_elf,
}
use fpga_npc.Elf.Table.{filter, is_listed, entry, extract_functab-filter}
use fpga_npc.Elf.Layout.{
  section_headers, symbol_table, SymbolFits, sections-section_headers, symbols-symbol_table,
  length-symbol_table, header-file_header,
}
use fpga_npc.Elf.Loading.{read_at-At}
use fpga_npc.Elf.Sections.{
  Linked, IsElf, all, names_index, header_bytes, found, length-all, drop-all, must_read-headers,
  must_read-names, read_sections-all,
}

-- Behind a header that was read and not refused.
init_elf-read :
    (file bytes : List ℕ) (tracer : Tracer)
    → read_at file 0 52 ≡ some bytes
    → is_refused (header bytes).e_ident ≡ false
    → init_elf (some (some file)) tracer ≡ load_sections file (header bytes) tracer
unfolding init_elf
init_elf-read file bytes tracer e r = rw (e, init_elf, r) refl

module _ (l : Linked) (file : List ℕ) (e : IsElf l file) (tracer : Tracer) where
  load_sections-done :
      (h : Header)
      → h.e_shoff ≡ l.e_shoff
      → h.e_shnum ≡ length (all l)
      → h.e_shstrndx ≡ names_index l
      → load_sections file h tracer ≡ load_tables (found l) tracer
  unfolding load_sections
  load_sections-done h a b c =
      let bytes = section_headers l.section_other 0 (all l) in
      let headers : must_read file h.e_shoff (40 * h.e_shnum) ≡ done bytes =
        ap (λ i. must_read file i (40 * h.e_shnum)) a
        ∙ ap (λ i. must_read file l.e_shoff (40 * i)) b
        ∙ must_read-headers l file e in
      let listed : sections h.e_shnum bytes ≡ all l =
        ap (λ i. sections i bytes) b ∙ sections-section_headers l.section_other 0 (all l) e.fits in
      let dropped : drop h.e_shstrndx (all l) ≡ l.names ∷ [] =
        ap (λ i. drop i (all l)) c ∙ drop-all l in
      let nothing : Tables = record { symtab = none; strtab = none } in
      let tables : read_sections file h.e_shstrndx 0 (sections h.e_shnum bytes) nothing
          ≡ done (found l) =
        ap (λ ss. read_sections file h.e_shstrndx 0 ss nothing) listed
        ∙ ap (λ i. read_sections file i 0 (all l) nothing) c
        ∙ read_sections-all l file e nothing in
      rw (headers, ◌>>=◌, listed, dropped, must_read-names l file e, tables) refl

  init_elf-tables : init_elf (some (some file)) tracer ≡ load_tables (found l) tracer
  unfolding is_refused header
  init_elf-tables =
      let bytes = header_bytes l in
      let read : read_at file 0 52 ≡ some bytes = read_at-At file 0 bytes e.starts (omega arith) in
      let (a, b, c) =
        header-file_header l.header_other l.e_shoff (length (all l)) (names_index l) e.offset_fits
          e.few (omega (arith, e.few, length-all l)) in
      init_elf-read file bytes tracer read refl ∙ load_sections-done (header bytes) a b c

  -- For the bytes of an ELF file with the header at the start, and the section headers and the
  -- sections anywhere, whose last three sections are a symbol table with at least one symbol, a
  -- string table and the names of the sections, which is the section that e_shstrndx names, neither
  -- of them empty, behind any other sections, those that are symbol or string tables not empty and
  -- in the file, with numbers that fit their fields and a name in the string table for every
  -- symbol, init_elf loads a table that has exactly the symbols of type STT_FUNC and those whose
  -- name begins with main, in order, with name, address and size, and changes nothing else but
  -- elf_loaded, which is set.
  pub init_elf-functions :
      (rest : ℕ → ℕ) (ss : List Symbol) (name_of : ℕ → List ℕ)
      → l.symtab_bytes ≡ symbol_table rest ss
      → All SymbolFits ss
      → All (λ s. c_string (drop s.st_name l.strtab_bytes) ≡ done (name_of s.st_name)) ss
      → init_elf (some (some file)) tracer
        ≡ done (record tracer {
          elf_loaded = true;
          functab = map (entry name_of) (filter (is_listed name_of) ss);
        })
  unfolding load_tables
  init_elf-functions rest ss name_of same fit named =
      let size : l.symtab.sh_size / 16 ≡ length ss =
        omega (arith, e.has_symtab.size, ap length same, length-symbol_table rest ss) in
      let read : symbols (l.symtab.sh_size / 16) l.symtab_bytes ≡ ss =
        ap (λ n. symbols n l.symtab_bytes) size
        ∙ ap (symbols (length ss)) same
        ∙ symbols-symbol_table rest ss fit in
      let functions : extract_functab (symbols (l.symtab.sh_size / 16) l.symtab_bytes)
            l.strtab_bytes
          ≡ done (map (entry name_of) (filter (is_listed name_of) ss)) =
        ap (λ x. extract_functab x l.strtab_bytes) read
        ∙ extract_functab-filter l.strtab_bytes name_of ss named in
      init_elf-tables ∙ rw functions refl
