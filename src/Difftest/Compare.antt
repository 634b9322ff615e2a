-- ===== src/Difftest/Compare.antt =====
-- When a comparison with the reference model succeeds.
use fpga_npc.Base.{
  ℕ, zero, suc, ◌+◌, ◌≤◌, ◌<◌, ◌≡◌, refl, sym, ap, ◌∙◌, ◌⊎◌, inl, inr, Bool, true, ◌&&◌, ◌||◌, some,
  List, [], ◌∷◌, ◌==◌, done, arith, length, get_elem?, get_or, Bool-cases, subst,
}
use fpga_npc.Reg.{Cpu, gpr}
use fpga_npc.Npc.{Core}
use fpga_npc.Difftest.{Difftest, DiffContext, gpr_loop, check_csrs, difftest_checkregs}

get_elem?-some : (xs : List ℕ) (i : ℕ) → i < length xs → (v : ℕ) × (get_elem? xs i ≡ some v)
get_elem?-some [] i h = absurd (omega arith)
get_elem?-some (x ∷ xs) zero h = (x, refl)
get_elem?-some (x ∷ xs) (suc i) h = get_elem?-some xs i (omega arith)

pub gpr-value :
    (c : Cpu) (i : ℕ) → length c.gpr_file ≡ 31 → 0 < i → i < 32 → (v : ℕ) × (gpr c i ≡ done v)
unfolding gpr
gpr-value c zero l p q = absurd (omega arith)
gpr-value c (suc i) l p q =
    let (v, e) = get_elem?-some c.gpr_file i (omega arith) in (v, rw (e, gpr) refl)

-- The registers from `i` on, `n` of them, have the values of the reference model.
abbrev pub Agrees : ℕ → ℕ → Core → DiffContext → Type 0
Agrees n i c r = (j : ℕ) → i ≤ j → j < i + n → gpr c.regs j ≡ done (get_or r.ctx_gpr j 0)

done-inj : (a b : ℕ) → done a ≡ done b → a ≡ b
done-inj a b e = ground arith

gpr_loop-Agrees :
    (n i : ℕ) (c : Core) (r : DiffContext)
    → length c.regs.gpr_file ≡ 31
    → 0 < i
    → i + n ≤ 32
    → (b : Bool) × (gpr_loop n i c r ≡ done b)
      × (b ≡ true → Agrees n i c r)
      × (Agrees n i c r → b ≡ true)
unfolding gpr_loop
gpr_loop-Agrees zero i c r l p q = (true, refl, λ t j a b. absurd (omega arith), λ h. refl)
gpr_loop-Agrees (suc n) i c r l p q =
    let (v, e) = gpr-value c.regs i l p (omega arith) in
    let (b, g, sound, complete) = gpr_loop-Agrees n (i + 1) c r l (omega arith) (omega arith) in
    (
      (get_or r.ctx_gpr i 0 == v) && b,
      rw (e, g) refl,
      λ t j a k. elim (Bool-cases (i == j)) [
        | inl y ↦
            let first : i ≡ j = ground arith in
            let same : get_or r.ctx_gpr i 0 ≡ v = ground arith in
            subst (λ m. gpr c.regs m ≡ done (get_or r.ctx_gpr m 0)) first (e ∙ ap done (sym same))
        | inr m ↦ sound (ground arith) j (ground arith) (omega arith)
      ],
      λ h.
          let same = done-inj v (get_or r.ctx_gpr i 0) (sym e ∙ h i (omega arith) (omega arith)) in
          let rest = complete (λ j a k. h j (omega arith) (omega arith)) in
          ground (arith, same, rest),
    )

-- With a register file of 31 cells and an empty queue of CSR contexts, difftest_checkregs gives
-- true exactly when the registers x1 to x31 agree with the reference model and the pc is the one
-- that the model went to, or none is known (0); the CSRs are not looked at, and the next pc is
-- taken from the model.
pub difftest_checkregs-Agrees :
    {R : Type 0} (skip : ℕ → Bool) (c : Core) (r : DiffContext) (pc : ℕ) (d : Difftest R)
    → length c.regs.gpr_file ≡ 31
    → d.csr_ctx_q ≡ []
    → (b : Bool) × (difftest_checkregs skip c r pc d ≡ done (b, record d { diff_npc = r.pc }))
      × (b ≡ true → ((d.diff_npc ≡ 0) ⊎ (d.diff_npc ≡ pc)) × Agrees 31 1 c r)
      × (((d.diff_npc ≡ 0) ⊎ (d.diff_npc ≡ pc)) × Agrees 31 1 c r → b ≡ true)
unfolding difftest_checkregs check_csrs
difftest_checkregs-Agrees skip c r pc d l e =
    let (b, g, sound, complete) = gpr_loop-Agrees 31 1 c r l (omega arith) (omega arith) in
    let same_pc = (d.diff_npc == 0) || (d.diff_npc == pc) in
    (
      same_pc && b && true,
      rw (g, e) refl,
      λ t. (ground arith, sound (ground arith)),
      λ h. ground (arith, complete h.1, h.0),
    )
