-- ===== src/CpuExec/Calls.antt =====
-- The calls of the core that leave the host alone: `ebreak`, which the decoder calls with every
-- instruction, for all but one of them, and `update_csr`.
use fpga_npc.Base.{
  ◌≡◌, ◌⊎◌, inl, inr, refl, false, List, [], ◌∷◌, ◌==◌, done, ◌>>=◌, All, subst, true, arith,
}
use fpga_npc.Reg.{gpr}
use fpga_npc.Npc.{NpcState, Core, npc_end, is_exit_status_bad, ebreak}
use fpga_npc.Difftest.{update_csr}
use fpga_npc.CpuExec.{
  DpiCall, calls_ebreak, calls_diff_skip, calls_raise_intr, calls_update_csr, Host, handle,
  handle_all,
}

abbrev pub IsHarmless : DpiCall → Type 0
IsHarmless (calls_ebreak inst) = (inst == 0x100073) ≡ false
IsHarmless (calls_update_csr pc) = Unit
IsHarmless (calls_diff_skip pc) = ⊥
IsHarmless (calls_raise_intr cause_no) = ⊥

abbrev pub AllHarmless : List (Core × DpiCall) → Type 0
AllHarmless calls = All (λ c. IsHarmless c.1) calls

-- An `ebreak` with the value 0 in a0.
abbrev pub IsTrap : Core × DpiCall → Type 0
IsTrap c = (c.1 ≡ calls_ebreak 0x100073) × (gpr c.0.regs 10 ≡ done 0)

abbrev pub HasTrap : List (Core × DpiCall) → Type 0
HasTrap [] = ⊥
HasTrap (c ∷ calls) = IsTrap c ⊎ HasTrap calls

abbrev pub AllGood : List (Core × DpiCall) → Type 0
AllGood calls = All (λ c. IsHarmless c.1 ⊎ IsTrap c) calls

-- The state that such an `ebreak` leaves.
pub record EndsWell (n : NpcState) : Type 0 where
  pub over : n.state ≡ npc_end
  pub good : n.halt_ret ≡ 0

pub EndsWell-is_exit_status_bad : (n : NpcState) → EndsWell n → is_exit_status_bad n ≡ false
unfolding is_exit_status_bad
EndsWell-is_exit_status_bad n e = rw (e.over, e.good) refl

module _ {D R : Type 0} where
  handle-harmless :
      (c : Core) (call : DpiCall) (h : Host D R) → IsHarmless call → handle c call h ≡ done h
  unfolding handle ebreak update_csr
  handle-harmless c (calls_ebreak inst) h n = rw n refl
  handle-harmless c (calls_update_csr pc) h n = refl
  handle-harmless c (calls_diff_skip pc) h n = absurd n
  handle-harmless c (calls_raise_intr cause_no) h n = absurd n

  pub handle_all-harmless :
      (calls : List (Core × DpiCall)) (h : Host D R)
      → AllHarmless calls
      → handle_all calls h ≡ done h
  unfolding handle_all
  handle_all-harmless [] h a = refl
  handle_all-harmless ((c, call) ∷ calls) h (n, a) =
      rw (handle-harmless c call h n, ◌>>=◌) (handle_all-harmless calls h a)

  handle-trap :
      (c : Core) (call : DpiCall) (h : Host D R)
      → IsTrap (c, call)
      → (n : NpcState) × (handle c call h ≡ done (record h { npc = n })) × EndsWell n
  unfolding handle ebreak
  handle-trap c call h (e, g) = (
    record { state = npc_end; halt_pc = c.regs.pc_if; halt_ret = 0 },
    rw (e, handle, g) refl,
    record { over = refl; good = refl },
  )

  -- Good calls change the state of the simulation at most; a trap among them leaves the good one.
  pub handle_all-good :
      (calls : List (Core × DpiCall)) (h : Host D R)
      → AllGood calls
      → (n : NpcState) × (handle_all calls h ≡ done (record h { npc = n }))
        × (EndsWell h.npc ⊎ HasTrap calls → EndsWell n)
  unfolding handle_all
  handle_all-good [] h a = (h.npc, refl, λ e. elim e [ inl w ↦ w | inr t ↦ absurd t ])
  handle_all-good ((c, call) ∷ calls) h (inr trap, a) =
      let (m, e, w) = handle-trap c call h trap in
      let (n, f, k) = handle_all-good calls (record h { npc = m }) a in
      (n, rw (e, ◌>>=◌) f, λ x. k (inl w))
  handle_all-good ((c, call) ∷ calls) h (inl harmless, a) =
      let (n, f, k) = handle_all-good calls h a in
      (
        n,
        rw (handle-harmless c call h harmless, ◌>>=◌) f,
        λ x. elim x [
          | inl w ↦ k (inl w)
          | inr (inr t) ↦ k (inr t)
          | inr (inl trap) ↦ absurd (not_both c call harmless trap)
        ],
      )
    where
      not_both : (c : Core) (call : DpiCall) → IsHarmless call → IsTrap (c, call) → ⊥
      not_both c call n (e, g) = let no : true ≡ false = subst IsHarmless e n in ground (arith, no)
