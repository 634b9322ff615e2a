-- ===== src/Elf/Loading.antt =====
-- What `init_elf` reads of a file.
use fpga_npc.Base.{
  ℕ, ◌+◌, ◌/◌, ◌<◌, ◌≡◌, refl, sym, ap, ◌∙◌, true, false, not, ◌&&◌, some, List, [], ◌∷◌, ◌++◌,
  ◌==◌, leb, done, ◌>>=◌, arith, length, length-append, All, drop, take, take-append, drop-append,
  ◌≢◌, ◌⊎◌, inl, inr,
}
use native.Mathlib.Decide.{ℕ_discrete}
use fpga_npc.Elf.File.{read_at, must_read, Section, symbols, Tables, read_section, read_sections}
use fpga_npc.Elf.Layout.{At, Holds}

-- Bytes that stand in a file.
module _ (file : List ℕ) (offset : ℕ) (bytes : List ℕ) (at : At file offset bytes)
    (some_bytes : 0 < length bytes) where
  pub read_at-At : read_at file offset (length bytes) ≡ some bytes
  unfolding read_at
  read_at-At =
      let before = at.before in
      let rest = bytes ++ at.behind in
      let not_empty : (length bytes == 0) ≡ false = ground (arith, some_bytes) in
      let fits : leb (length before + length bytes) (length (before ++ rest)) ≡ true =
        ground (arith, length-append before rest, length-append bytes at.behind) in
      let found : take (length bytes) (drop (length before) (before ++ rest)) ≡ bytes =
        ap (take (length bytes)) (drop-append before rest) ∙ take-append bytes at.behind in
      ap (λ f. read_at f offset (length bytes)) at.split
      ∙ ap (λ n. read_at (before ++ rest) n (length bytes)) (sym at.place)
      ∙ ground (arith, not_empty, fits, found)

  pub must_read-At : must_read file offset (length bytes) ≡ done bytes
  unfolding must_read
  must_read-At = rw (read_at-At, must_read) refl

-- A section that is a table has bytes: the read of none fails.
abbrev pub Readable : List ℕ → Section → Type 0
Readable file s = ((s.sh_type ≢ 2) × (s.sh_type ≢ 3)) ⊎ ((bytes : List ℕ) × Holds file s bytes)

module _ (file : List ℕ) (k : ℕ) where
  pub must_read-Holds :
      (s : Section) (bytes : List ℕ)
      → Holds file s bytes
      → must_read file s.sh_offset s.sh_size ≡ done bytes
  must_read-Holds s bytes h =
      ap (must_read file s.sh_offset) h.size
      ∙ must_read-At file s.sh_offset bytes h.stands h.some_bytes

  pub read_symtab :
      (s : Section) (bytes : List ℕ) (i : ℕ) (t : Tables)
      → s.sh_type ≡ 2
      → Holds file s bytes
      → read_section file k i s t
        ≡ done (record t { symtab = some (symbols (s.sh_size / 16) bytes) })
  unfolding read_section
  read_symtab s bytes i t e h =
      let y : (s.sh_type == 2) ≡ true = ground (arith, e) in rw (y, must_read-Holds s bytes h) refl

  pub read_strtab :
      (s : Section) (bytes : List ℕ) (i : ℕ) (t : Tables)
      → s.sh_type ≡ 3
      → i ≢ k
      → Holds file s bytes
      → read_section file k i s t ≡ done (record t { strtab = some bytes })
  unfolding read_section
  read_strtab s bytes i t e ne h =
      let n : (s.sh_type == 2) ≡ false = ground (arith, e) in
      let y : (s.sh_type == 3) ≡ true = ground (arith, e) in
      let m : (i == k) ≡ false = ground (arith, ne) in rw (n, y, m, must_read-Holds s bytes h) refl

  pub read_other :
      (s : Section) (i : ℕ) (t : Tables)
      → s.sh_type ≢ 2
      → (s.sh_type ≢ 3) ⊎ (i ≡ k)
      → read_section file k i s t ≡ done t
  unfolding read_section
  read_other s i t a b =
      let n : (s.sh_type == 2) ≡ false = ground (arith, a) in
      let m : ((s.sh_type == 3) && not (i == k)) ≡ false = ground (arith, b) in rw (n, m) refl

  read_section-done :
      (s : Section) (i : ℕ) (t : Tables)
      → Readable file s
      → (u : Tables) × (read_section file k i s t ≡ done u)
  read_section-done s i t (inl (a, b)) = (t, read_other s i t a (inl b))
  read_section-done s i t (inr (bytes, h)) = elim (ℕ_discrete s.sh_type 2) [
    | yes e ↦
        (record t { symtab = some (symbols (s.sh_size / 16) bytes) }, read_symtab s bytes i t e h)
    | no a ↦ elim (ℕ_discrete s.sh_type 3) [
      | no b ↦ (t, read_other s i t a (inl b))
      | yes e ↦ elim (ℕ_discrete i k) [
        | yes same ↦ (t, read_other s i t a (inr same))
        | no ne ↦ (record t { strtab = some bytes }, read_strtab s bytes i t e ne h)
      ]
    ]
  ]

  -- The sections in front of the last ones: each of them is read.
  pub read_sections-past :
      (ss more : List Section) (i : ℕ) (t : Tables)
      → All (Readable file) ss
      → (u : Tables) × (read_sections file k i (ss ++ more) t
          ≡ read_sections file k (i + length ss) more u)
  unfolding read_sections
  read_sections-past [] more i t h = (t, ap (λ j. read_sections file k j more t) (omega arith))
  read_sections-past (s ∷ ss) more i t (r, h) =
      let (u, f) = read_section-done s i t r in
      let (v, g) = read_sections-past ss more (i + 1) u h in
      (v, rw (f, ◌>>=◌) (g ∙ ap (λ j. read_sections file k j more v) (omega arith)))
