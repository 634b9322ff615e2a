-- ===== src/Elf/Table.antt =====
-- What the table of functions holds, and what is found in it.
use fpga_npc.Base.{
  ℕ, ◌≡◌, ◌≢◌, refl, ap, ◌∙◌, sym, Bool, true, false, ◌&&◌, ◌||◌, some, List, [], ◌∷◌, ◌++◌, ◌==◌,
  done, ◌>>=◌, Bool-cases, inl, inr, arith, drop, All, codes, str_eq, map, bind-done,
  done_injective,
}
use fpga_npc.Elf.{
  call, ret, SymFunctab, Symbol, Tracer, c_string, starts_with, stt_func, st_type, is_function,
  extract_functab, is_match, query_loop, query_funcname,
}
use fpga_npc.Elf.Trace.{nodes_of, ftrace}

-- Whether a text has a prefix.
abbrev pub is_prefix : List ℕ → List ℕ → Bool
is_prefix [] s = true
is_prefix (p ∷ prefix) [] = false
is_prefix (p ∷ prefix) (c ∷ s) = c == p && is_prefix prefix s

abbrev pub filter {ℓ} : {A : Type ℓ} → (A → Bool) → List A → List A
filter p [] = []
filter p (x ∷ xs) = let rest = filter p xs in elim (p x) [ true ↦ x ∷ rest | false ↦ rest ]

-- The 0 behind a string belongs to no prefix.
abbrev Nonzero : List ℕ → Type 0
Nonzero p = All (λ c. c ≢ 0) p

starts_with-c_string :
    (p s t : List ℕ) → Nonzero p → c_string s ≡ done t → starts_with p s ≡ done (is_prefix p t)
unfolding starts_with c_string
starts_with-c_string [] s t h e = refl
starts_with-c_string (a ∷ p) [] t h e = ground arith
starts_with-c_string (a ∷ p) (c ∷ s) t h e = elim (Bool-cases (c == 0)) [
  | inl z ↦
      let empty : [] ≡ t = done_injective (rw (z, c_string) at e) in
      let differs : (c == a) ≡ false = ground (arith, h.0) in
      rw (sym empty, starts_with, differs) refl
  | inr n ↦
      let (u, r, l) = bind-done (c_string s) (λ t. done (c ∷ t)) t (rw (n, c_string) at e) in
      let same : c ∷ u ≡ t = done_injective l in
      rw (sym same) (elim (Bool-cases (c == a)) [
        | inl y ↦ rw (y, starts_with) (starts_with-c_string p s u h.1 r)
        | inr m ↦ rw (m, starts_with) refl
      ])
]

is_match-main : (addr : ℕ) (m : SymFunctab) → m.name ≡ codes "main" → is_match addr m ≡ true
unfolding is_match
is_match-main addr m e =
    let named : str_eq m.name (codes "main") ≡ true = ap (λ n. str_eq n (codes "main")) e in
    ground (arith, named)

query_loop-first :
    (addr : ℕ) (before behind : List SymFunctab) (f : SymFunctab)
    → All (λ p. is_match addr p ≡ false) before
    → is_match addr f ≡ true
    → query_loop addr (before ++ f ∷ behind) ≡ done f.name
unfolding query_loop
query_loop-first addr [] behind f h m = rw (m, query_loop) refl
query_loop-first addr (p ∷ before) behind f h m =
    rw (h.0, query_loop) (query_loop-first addr before behind f h.1 m)

query_funcname-first :
    (addr : ℕ) (before behind : List SymFunctab) (f : SymFunctab)
    → All (λ p. is_match addr p ≡ false) before
    → is_match addr f ≡ true
    → query_funcname addr (before ++ f ∷ behind) ≡ done f.name
unfolding query_funcname
query_funcname-first addr [] behind f h m = query_loop-first addr [] behind f h m
query_funcname-first addr (p ∷ before) behind f h m =
    query_loop-first addr (p ∷ before) behind f h m

-- Where no function before an entry named main is a match, query_funcname gives main for every
-- address, in main or not.
pub query_funcname-main :
    (addr : ℕ) (before behind : List SymFunctab) (m : SymFunctab)
    → All (λ p. is_match addr p ≡ false) before
    → m.name ≡ codes "main"
    → query_funcname addr (before ++ m ∷ behind) ≡ done (codes "main")
query_funcname-main addr before behind m h e =
    query_funcname-first addr before behind m h (is_match-main addr m e) ∙ ap done e

-- The symbols that are functions by their type or by their name.
abbrev pub is_listed : (ℕ → List ℕ) → Symbol → Bool
is_listed name_of s =
    (st_type s.st_info == stt_func) || is_prefix (codes "main") (name_of s.st_name)

abbrev pub entry : (ℕ → List ℕ) → Symbol → SymFunctab
entry name_of s = record { name = name_of s.st_name; value = s.st_value; size = s.st_size }

is_function-is_listed :
    (strtab : List ℕ) (name_of : ℕ → List ℕ) (s : Symbol)
    → c_string (drop s.st_name strtab) ≡ done (name_of s.st_name)
    → is_function strtab s ≡ done (is_listed name_of s)
unfolding is_function
is_function-is_listed strtab name_of s e = elim (Bool-cases (st_type s.st_info == stt_func)) [
  | inl y ↦ rw (y, is_function) refl
  | inr n ↦
      rw (n, is_function)
        (starts_with-c_string (codes "main") (drop s.st_name strtab) (name_of s.st_name)
          (ground arith) e)
]

-- Where every symbol has a name in the string table, the table of functions has exactly the
-- symbols of type STT_FUNC and those whose name begins with main, in order, with name, address and
-- size.
pub extract_functab-filter :
    (strtab : List ℕ) (name_of : ℕ → List ℕ) (symtab : List Symbol)
    → All (λ s. c_string (drop s.st_name strtab) ≡ done (name_of s.st_name)) symtab
    → extract_functab symtab strtab ≡ done (map (entry name_of) (filter (is_listed name_of) symtab))
unfolding extract_functab
extract_functab-filter strtab name_of [] h = refl
extract_functab-filter strtab name_of (s ∷ symtab) h =
    let rest = extract_functab-filter strtab name_of symtab h.1 in
    let f = is_function-is_listed strtab name_of s h.0 in
    elim (Bool-cases (is_listed name_of s)) [
      | inl y ↦ rw (f, extract_functab, y, filter, h.0, rest) refl
      | inr n ↦ rw (f, extract_functab, n, filter, rest) refl
    ]

-- With a loaded table in which the target of a call and the address of a return are matched by one
-- function and by none before it, ftrace of the call and then of the return adds two nodes, both
-- with the name of that function.
pub ftrace-call_return :
    (f : SymFunctab) (before behind : List SymFunctab) (call_pc target rd any pc back : ℕ)
    (t : Tracer)
    → t.elf_loaded ≡ true
    → t.functab ≡ before ++ f ∷ behind
    → All (λ p. is_match target p ≡ false) before
    → All (λ p. is_match pc p ≡ false) before
    → is_match target f ≡ true
    → is_match pc f ≡ true
    → rd ≢ 0
    → ftrace call_pc target rd any t >>= ftrace pc back 0 1
      ≡ done (record t {
        nodes = some (
            (nodes_of t.nodes
              ++ record { addr = call_pc; type = call; func_name = f.name; func_addr = target }
                ∷ [])
            ++ record { addr = pc; type = ret; func_name = f.name; func_addr = 0 } ∷ []);
      })
unfolding ftrace
ftrace-call_return f before behind call_pc target rd any pc back t l e h k a b n =
    let called : query_funcname target t.functab ≡ done f.name =
      rw e (query_funcname-first target before behind f h a) in
    let returned : query_funcname pc t.functab ≡ done f.name =
      rw e (query_funcname-first pc before behind f k b) in
    let nonzero : (rd == 0) ≡ false = ground (arith, n) in rw (l, nonzero, called, returned) refl
