-- ===== src/SpikeDiff/Startup.antt =====
-- What the reference model of tools/spike-diff holds after `init_difftest`.
use fpga_npc.Base.{
  ℕ, zero, suc, ◌+◌, ◌^◌, ◌≤◌, ◌<◌, ◌≡◌, refl, sym, ap, ◌∙◌, true, false, some, List, [], ◌∷◌, done,
  arith, get_or, length,
}
use fpga_npc.Reg.{gpr}
use fpga_npc.Npc.{Core}
use fpga_npc.Difftest.{DiffContext, Reference, Difftest, read_gprs}
use fpga_npc.Difftest.Compare.{Agrees, gpr-value}
use fpga_npc.Difftest.Init.{pc_init, read_context, load_library, init_difftest}
use fpga_npc.SpikeDiff.{Spike, difftest_memcpy, difftest_regcpy, exports, nothing}
use fpga_npc.SpikeDiff.Registers.{Lawful, difftest_regcpy-back}

-- The registers from number `i` on.
abbrev Reads : ℕ → Core → List ℕ → Type 0
Reads i c vs = (j : ℕ) → j < length vs → gpr c.regs (i + j) ≡ done (get_or vs j 0)

more-Reads :
    (i : ℕ) (c : Core) (v : ℕ) (vs : List ℕ)
    → gpr c.regs i ≡ done v
    → Reads (i + 1) c vs
    → Reads i c (v ∷ vs)
more-Reads i c v vs e r zero h = ap (gpr c.regs) (omega arith) ∙ e
more-Reads i c v vs e r (suc j) h = ap (gpr c.regs) (omega arith) ∙ r j (omega arith)

-- `read_gprs` gives the registers that `gpr` gives.
read_gprs-Reads :
    (n i : ℕ) (c : Core)
    → length c.regs.gpr_file ≡ 31
    → 0 < i
    → i + n ≤ 32
    → (vs : List ℕ) × (read_gprs n i c ≡ done vs) × (length vs ≡ n) × Reads i c vs
unfolding read_gprs
read_gprs-Reads zero i c l p q = ([], refl, refl, λ j h. absurd (omega arith))
read_gprs-Reads (suc n) i c l p q =
    let (v, e) = gpr-value c.regs i l p (omega arith) in
    let (vs, f, size, same) = read_gprs-Reads n (i + 1) c l (omega arith) (omega arith) in
    (v ∷ vs, rw (e, f) refl, ap suc size, more-Reads i c v vs e same)

small-get_or :
    (vs : List ℕ) (m j : ℕ)
    → 0 < m
    → ((j : ℕ) → j < length vs → get_or vs j 0 < m)
    → get_or vs j 0 < m
small-get_or [] m j p h = p
small-get_or (v ∷ vs) m zero p h = h 0 (omega arith)
small-get_or (v ∷ vs) m (suc j) p h = small-get_or vs m j p (λ i l. h (suc i) (omega arith))

-- Registers and a pc that the model holds.
abbrev pub Starts : {S : Type 0} → Spike S → Core → Reference S × Difftest S → Type 0
Starts spike c (ref, t) =
    ((ref.regcpy_to_dut t.ref).pc ≡ pc_init)
    × (get_or (ref.regcpy_to_dut t.ref).ctx_gpr 0 0 ≡ 0)
    × Agrees 31 1 c (ref.regcpy_to_dut t.ref)

module _ {S : Type 0} (spike : Spike S) (laws : Lawful spike) (c : Core)
    (small : (j v : ℕ) → gpr c.regs j ≡ done v → v < 2 ^ 32) where
  read-small :
      (before : ℕ) (vs : List ℕ)
      → before < 2 ^ 32
      → Reads 1 c vs
      → (j : ℕ) → j < length (before ∷ vs)
      → get_or (before ∷ vs) j 0 < 2 ^ 32
  read-small before vs p r zero h = p
  read-small before vs p r (suc j) h = small (1 + j) (get_or vs j 0) (r j (omega arith))

  copied-Agrees :
      (before : ℕ) (vs csrs : List ℕ) (s : S)
      → before < 2 ^ 32
      → length vs ≡ 31
      → Reads 1 c vs
      → let ctx : DiffContext = record { ctx_gpr = before ∷ vs; pc = pc_init; ctx_csrs = csrs } in
        let back = (difftest_regcpy spike nothing false (difftest_regcpy spike ctx true s).1).0 in
        (back.pc ≡ pc_init) × (get_or back.ctx_gpr 0 0 ≡ 0) × Agrees 31 1 c back
  copied-Agrees before vs csrs s p l r =
      let ctx : DiffContext = record { ctx_gpr = before ∷ vs; pc = pc_init; ctx_csrs = csrs } in
      let (same_pc, x0, same) =
        difftest_regcpy-back spike ctx nothing s laws
          (λ j. small-get_or (before ∷ vs) (2 ^ 32) j (omega arith) (read-small before vs p r))
          (omega arith) in
      (
        same_pc,
        x0,
        agrees before vs
            (difftest_regcpy spike nothing false (difftest_regcpy spike ctx true s).1).0 l r same,
      )
    where
      agrees :
          (before : ℕ) (vs : List ℕ) (back : DiffContext)
          → length vs ≡ 31
          → Reads 1 c vs
          → ((j : ℕ) → 0 < j → j < 32 → get_or back.ctx_gpr j 0 ≡ get_or (before ∷ vs) j 0)
          → Agrees 31 1 c back
      agrees before vs back l r same zero h k = absurd (omega arith)
      agrees before vs back l r same (suc j) h k =
          ap (gpr c.regs) (omega arith) ∙ r j (omega (arith, l)) ∙ ap done (sym (same (suc j) h k))

-- For a lawful simulator that takes the image, a core with 31 registers of 32 bits, and any 32-bit
-- word in front of its register file, init_difftest with the exported functions succeeds, and
-- afterwards the model's pc is PC_INIT, its x0 is 0, and its registers x1 to x31 are those of the
-- core.
pub init_difftest-Starts :
    {S : Type 0} (spike : Spike S) (new_sim s : S) (image : List ℕ) (port before : ℕ) (c : Core)
    (d : Difftest S)
    → Lawful spike
    → length c.regs.gpr_file ≡ 31
    → ((j v : ℕ) → gpr c.regs j ≡ done v → v < 2 ^ 32)
    → before < 2 ^ 32
    → difftest_memcpy spike pc_init image true new_sim ≡ done s
    → (r : Reference S × Difftest S) × (init_difftest
          (some (some (exports spike new_sim)))
          image
          port
          before
          c
          d
        ≡ done r)
      × Starts spike c r
unfolding init_difftest load_library exports read_context
init_difftest-Starts spike new_sim s image port before c d laws size small p m =
    let (vs, e, l, r) = read_gprs-Reads 31 1 c size (omega arith) (omega arith) in
    let csrs =
      get_or c.csrs 0 0
      ∷ get_or d.ctx.ctx_csrs 1 0
      ∷ get_or d.ctx.ctx_csrs 2 0
      ∷ get_or d.ctx.ctx_csrs 3 0
      ∷ get_or d.ctx.ctx_csrs 4 0
      ∷ get_or d.ctx.ctx_csrs 5 0
      ∷ 0x79737978
      ∷ 0x23060051
      ∷ [] in
    let ctx : DiffContext = record { ctx_gpr = before ∷ vs; pc = pc_init; ctx_csrs = csrs } in
    (
      (
        (exports spike new_sim).functions,
        record d { ctx = ctx; ref = (difftest_regcpy spike ctx true s).1 },
      ),
      rw (m, e) refl,
      copied-Agrees spike laws c small before vs csrs s p l r,
    )
