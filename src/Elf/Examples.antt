-- ===== src/Elf/Examples.antt =====
-- A small table of functions and a small file.
use fpga_npc.Base.{
  ℕ, ◌/◌, ◌%◌, ◌≡◌, refl, true, false, none, some, List, [], ◌∷◌, ◌++◌, done, arith, codes,
  replicate, take, drop, All, inl, if◌then◌else◌, ◌==◌,
}
use fpga_npc.Elf.{SymFunctab, Symbol, Tracer, c_string, starts_with, is_function, extract_functab}
use fpga_npc.Elf.File.{
  read_at, must_read, header, is_refused, sections, symbols, read_section, read_sections,
  load_tables, load_sections, init_elf,
}
use fpga_npc.Elf.Layout.{section_headers, symbol_table, SymbolFits}
use fpga_npc.Elf.Sections.{Linked, IsElf, all, header_bytes}
use fpga_npc.Elf.Loaded.{init_elf-functions}
use fpga_npc.Elf.Trace.{call_line, ret_line, show_ftrace}
use fpga_npc.Elf.Nested.{Calls, finished, visit, Visit, history, show_ftrace-layout}

abbrev put : SymFunctab
put = record { name = codes "put"; value = 0x2000; size = 16 }

abbrev main_function : SymFunctab
main_function = record { name = codes "main"; value = 0x1000; size = 32 }

abbrev tracer : Tracer
tracer = record { elf_loaded = true; functab = put ∷ main_function ∷ []; nodes = none }

abbrev call_of_put : Visit
call_of_put = record {
  call_addr = 0x1008;
  func_name = codes "put";
  func_addr = 0x2000;
  ret_addr = 0x2008;
  ret_name = codes "put";
}

abbrev call_of_main : Visit
call_of_main = record {
  call_addr = 0x500;
  func_name = codes "main";
  func_addr = 0x1000;
  ret_addr = 0x101c;
  ret_name = codes "main";
}

abbrev nested : Calls
nested = visit call_of_put finished finished

show_ftrace-layout_example :
    show_ftrace (record tracer { nodes = some (history (visit call_of_main nested finished)) })
    ≡ done (
        some (
          call_line 0x500 0 (codes "main") 0x1000
          ∷ call_line 0x1008 2 (codes "put") 0x2000
          ∷ ret_line 0x2008 2 (codes "put")
          ∷ ret_line 0x101c 0 (codes "main")
          ∷ []))
show_ftrace-layout_example =
    show_ftrace-layout call_of_main nested finished
      (record tracer { nodes = some (history (visit call_of_main nested finished)) }) (omega arith)
      refl

-- The names from offset 1 on: a data symbol `n`, `put`, and `main` without a type.
abbrev strtab : List ℕ
strtab = 0 ∷ codes "n" ++ 0 ∷ codes "put" ++ 0 ∷ codes "main" ++ 0 ∷ []

abbrev symtab : List Symbol
symtab =
    record { st_name = 1; st_value = 0x3000; st_size = 4; st_info = 0x11 }
    ∷ record { st_name = 3; st_value = 0x2000; st_size = 16; st_info = 0x12 }
    ∷ record { st_name = 7; st_value = 0x1000; st_size = 32; st_info = 0x10 }
    ∷ []

-- A file with the header, four section headers from 52 on, the names of the sections, the symbols and
-- the strings.
abbrev half : ℕ → List ℕ
half n = n % 256 ∷ n / 256 ∷ []

abbrev word : ℕ → List ℕ
word n = half (n % 65536) ++ half (n / 65536)

abbrev section : ℕ → ℕ → ℕ → List ℕ
section sh_type offset size =
    word 0 ++ word sh_type ++ replicate 8 0 ++ word offset ++ word size ++ replicate 16 0

abbrev symbol : ℕ → ℕ → ℕ → ℕ → List ℕ
symbol st_name st_value st_size st_info =
    word st_name ++ word st_value ++ word st_size ++ st_info ∷ 0 ∷ half 0

abbrev file : List ℕ
file =
    0x7f ∷ codes "ELF"
    ++ replicate 28 0
    ++ word 52
    ++ replicate 12 0
    ++ half 4
    ++ half 1
    ++ section 0 0 0
    ++ section 3 212 1
    ++ section 2 213 48
    ++ section 3 261 12
    ++ 0 ∷ []
    ++ symbol 1 0x3000 4 0x11
    ++ symbol 3 0x2000 16 0x12
    ++ symbol 7 0x1000 32 0x10
    ++ strtab

abbrev at_start : Tracer
at_start = record { elf_loaded = false; functab = []; nodes = none }

init_elf-file : init_elf (some (some file)) at_start ≡ done tracer
unfolding init_elf load_sections load_tables read_sections read_section must_read read_at header
    is_refused sections symbols extract_functab is_function starts_with c_string
init_elf-file = refl

-- The same symbols in a file as a linker writes it: a section in front that holds nothing, a section
-- without bytes in the file, some bytes of padding, and the section headers at the end.
abbrev linked : Linked
linked = record {
  others =
      record { sh_type = 0; sh_offset = 0; sh_size = 0 }
      ∷ record { sh_type = 8; sh_offset = 54; sh_size = 4096 }
      ∷ [];
  symtab = record { sh_type = 2; sh_offset = 56; sh_size = 48 };
  strtab = record { sh_type = 3; sh_offset = 104; sh_size = 12 };
  names = record { sh_type = 3; sh_offset = 116; sh_size = 1 };
  symtab_bytes = symbol_table (λ _. 0) symtab;
  strtab_bytes = strtab;
  names_bytes = 0 ∷ [];
  e_shoff = 120;
  header_other = λ _. 0;
  section_other = λ _ _. 0;
}

abbrev padding : ℕ → List ℕ
padding n = replicate n 0

abbrev headers : List ℕ
headers = section_headers linked.section_other 0 (all linked)

abbrev linked_file : List ℕ
linked_file =
    header_bytes linked
    ++ padding 4
    ++ linked.symtab_bytes
    ++ strtab
    ++ linked.names_bytes
    ++ padding 3
    ++ headers

linked-IsElf : IsElf linked linked_file
linked-IsElf = record {
  starts = record { before = []; behind = drop 52 linked_file; split = refl; place = refl };
  headers = record { before = take 120 linked_file; behind = []; split = refl; place = refl };
  readable = (inl (omega arith, omega arith), (inl (omega arith, omega arith), tt));
  symtab_type = refl;
  strtab_type = refl;
  names_type = refl;
  has_symtab = record {
    stands = record {
      before = take 56 linked_file;
      behind = drop 104 linked_file;
      split = refl;
      place = refl;
    };
    size = refl;
    some_bytes = omega arith;
  };
  has_strtab = record {
    stands = record {
      before = take 104 linked_file;
      behind = drop 116 linked_file;
      split = refl;
      place = refl;
    };
    size = refl;
    some_bytes = omega arith;
  };
  has_names = record {
    stands = record {
      before = take 116 linked_file;
      behind = drop 117 linked_file;
      split = refl;
      place = refl;
    };
    size = refl;
    some_bytes = omega arith;
  };
  fits = omega arith;
  offset_fits = omega arith;
  few = omega arith;
}

abbrev name_of : ℕ → List ℕ
name_of n = if n == 1 then codes "n" else if n == 3 then codes "put" else codes "main"

symtab-named : All (λ s. c_string (drop s.st_name strtab) ≡ done (name_of s.st_name)) symtab
unfolding c_string
symtab-named = (refl, (refl, (refl, tt)))

symtab-fits : All SymbolFits symtab
symtab-fits = omega arith

init_elf-functions_example : init_elf (some (some linked_file)) at_start ≡ done tracer
init_elf-functions_example =
    init_elf-functions linked linked_file linked-IsElf at_start (λ _. 0) symtab name_of refl
      symtab-fits symtab-named
