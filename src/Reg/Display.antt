-- ===== src/Reg/Display.antt =====
-- The lines of `reg_display` and the values of the registers by name.
use fpga_npc.Base.{
  ℕ, ◌+◌, ◌≡◌, refl, ap, sym, ◌∙◌, true, List, [], ◌∷◌, done, ◌>>=◌, bind-done, done_injective,
  subst, All, length, suc, arith, get_elem?, some,
}
use fpga_npc.Reg.{Cpu, gpr, regs, reg_loop, isa_reg_str2val, display_loop, reg_display}

-- What is found by a name.
abbrev Reads : Cpu → List ℕ × ℕ → Type 0
Reads c line = isa_reg_str2val c line.0 ≡ done (line.1, true)

-- The names from number `i` on are those of the registers from `i` on.
abbrev Looked : Cpu → ℕ → List (List ℕ) → Type 0
Looked c i [] = Unit
Looked c i (name ∷ names) =
    (isa_reg_str2val c name ≡ gpr c i >>= λ v. done (v, true)) × Looked c (i + 1) names

abbrev pub names_of : List (List ℕ) → List (List ℕ)
names_of [] = []
names_of (zero_name ∷ names) = names

regs-Looked : (c : Cpu) → Looked c 1 (names_of regs)
unfolding isa_reg_str2val reg_loop
regs-Looked c = (
  refl,
  (
    refl,
    (
      refl,
      (
        refl,
        (
          refl,
          (
            refl,
            (
              refl,
              (
                refl,
                (
                  refl,
                  (
                    refl,
                    (
                      refl,
                      (
                        refl,
                        (
                          refl,
                          (
                            refl,
                            (
                              refl,
                              (
                                refl,
                                (
                                  refl,
                                  (
                                    refl,
                                    (
                                      refl,
                                      (
                                        refl,
                                        (
                                          refl,
                                          (
                                            refl,
                                            (
                                              refl,
                                              (
                                                refl,
                                                (
                                                  refl,
                                                  (
                                                    refl,
                                                    (refl, (refl, (refl, (refl, (refl, tt))))),
                                                  ),
                                                ),
                                              ),
                                            ),
                                          ),
                                        ),
                                      ),
                                    ),
                                  ),
                                ),
                              ),
                            ),
                          ),
                        ),
                      ),
                    ),
                  ),
                ),
              ),
            ),
          ),
        ),
      ),
    ),
  ),
)

display_loop-Reads :
    (c : Cpu) (i : ℕ) (names : List (List ℕ)) (lines : List (List ℕ × ℕ))
    → Looked c i names
    → display_loop c i names ≡ done lines
    → All (Reads c) lines
unfolding display_loop
display_loop-Reads c i [] lines h e = subst (All (Reads c)) (done_injective e) tt
display_loop-Reads c i (name ∷ names) lines h e =
    let (v, r, f) = bind-done (gpr c i) _ lines e in
    let (rest, s, g) = bind-done (display_loop c (i + 1) names) _ lines f in
    subst (All (Reads c)) (done_injective g)
      (h.0 ∙ rw r refl, display_loop-Reads c (i + 1) names rest h.1 s)

abbrev pub zip : List (List ℕ) → List ℕ → List (List ℕ × ℕ)
zip [] vs = []
zip (n ∷ ns) [] = []
zip (n ∷ ns) (v ∷ vs) = (n, v) ∷ zip ns vs

gpr-done : (c : Cpu) (i v : ℕ) → get_elem? c.gpr_file i ≡ some v → gpr c (suc i) ≡ done v
unfolding gpr
gpr-done c i v e = rw (e, gpr) refl

-- The registers from number `i + 1` on are `vs`.
display_loop-zip :
    (c : Cpu) (i : ℕ) (names : List (List ℕ)) (vs : List ℕ)
    → length names ≡ length vs
    → ((j : ℕ) → get_elem? c.gpr_file (i + j) ≡ get_elem? vs j)
    → display_loop c (suc i) names ≡ done (zip names vs)
unfolding display_loop
display_loop-zip c i [] vs l h = refl
display_loop-zip c i (n ∷ names) [] l h = absurd (omega (arith, l))
display_loop-zip c i (n ∷ names) (v ∷ vs) l h =
    let first = gpr-done c i v (ap (get_elem? c.gpr_file) (omega arith) ∙ h 0) in
    let rest =
      display_loop-zip c (i + 1) names vs (omega (arith, l))
        (λ j. ap (get_elem? c.gpr_file) (omega arith) ∙ h (suc j)) in
    rw (first, display_loop)
      (ap (λ r. r >>= λ rest. done ((n, v) ∷ rest))
        (ap (λ k. display_loop c k names) (omega arith) ∙ rest))

-- With 31 registers in the file, reg_display gives the names of x1 to x31 with the registers in
-- order, and isa_reg_str2val of each of these names gives the value of its line, with success.
pub reg_display-isa_reg_str2val :
    (c : Cpu)
    → length c.gpr_file ≡ 31
    → let lines = zip (names_of regs) c.gpr_file in
      (reg_display c ≡ done lines)
      × All (λ line. isa_reg_str2val c line.0 ≡ done (line.1, true)) lines
unfolding reg_display
reg_display-isa_reg_str2val c l =
    let shown =
      display_loop-zip c 0 (names_of regs) c.gpr_file (sym l)
        (λ j. ap (get_elem? c.gpr_file) (omega arith)) in
    (shown, display_loop-Reads c 1 (names_of regs) _ (regs-Looked c) shown)
