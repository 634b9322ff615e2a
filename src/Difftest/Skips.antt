-- ===== src/Difftest/Skips.antt =====
-- `skip_checkcsrs` of csrc/cpu/dut.cc, over the addresses of `cpu.mstatus` and of the CSRs that are
-- compared, in words of 4 bytes: a field of `cpu` is a pointer of two words.
use fpga_npc.Base.{
  ℕ, zero, suc, ◌+◌, ◌*◌, ◌≤◌, ◌<◌, ◌≡◌, ◌⊎◌, inl, inr, sym, Bool, true, false, ◌||◌, List, ◌∷◌,
  ◌==◌, arith, get_or, Bool-cases,
}
use fpga_npc.Difftest.{DiffContext, CsrCtx, csr_loop, check_csrs}

-- `SKIP_CSR`, for the CSR with this place in `CSR_LIST`.
unfoldable pub skip_csr : ℕ → ℕ → ℕ → ℕ → Bool
skip_csr cpu_mstatus csr_base place index = index + csr_base == cpu_mstatus + 2 * place

unfoldable pub skip_checkcsrs : ℕ → ℕ → ℕ → Bool
unfolding skip_csr
skip_checkcsrs cpu_mstatus csr_base index =
    skip_csr cpu_mstatus csr_base 7 index
    || skip_csr cpu_mstatus csr_base 6 index
    || skip_csr cpu_mstatus csr_base 2 index

-- The CSRs that are compared do not stand in `cpu`.
abbrev pub Apart : ℕ → ℕ → Type 0
Apart cpu_mstatus csr_base = (csr_base + 8 ≤ cpu_mstatus) ⊎ (cpu_mstatus + 16 ≤ csr_base)

never_skips :
    (cpu_mstatus csr_base index : ℕ)
    → Apart cpu_mstatus csr_base
    → index < 8
    → skip_checkcsrs cpu_mstatus csr_base index ≡ false
unfolding skip_checkcsrs
never_skips cpu_mstatus csr_base index a h = ground arith

csr_loop-all :
    (cpu_mstatus csr_base n i : ℕ) (ref_csrs cpu_csrs : List ℕ)
    → Apart cpu_mstatus csr_base
    → i + n ≤ 8
    → csr_loop (skip_checkcsrs cpu_mstatus csr_base) n i ref_csrs cpu_csrs ≡ true
    → (j : ℕ) → i ≤ j
    → j < i + n
    → get_or ref_csrs j 0 ≡ get_or cpu_csrs j 0
unfolding csr_loop
csr_loop-all m b zero i xs ys a h e j l k = absurd (omega arith)
csr_loop-all m b (suc n) i xs ys a h e j l k =
    let compared = never_skips m b i a (omega (arith, h)) in
    elim (Bool-cases (i == j)) [
      | inl y ↦ let same : i ≡ j = ground (arith, y) in rw (sym same) (ground (arith, compared, e))
      | inr n' ↦
          csr_loop-all m b n (i + 1) xs ys a (omega (arith, h)) (ground (arith, e)) j
            (ground (arith, n', l)) (omega (arith, k))
    ]

-- With a context for this pc in the queue that is apart from cpu, the comparison succeeds only if all
-- eight CSRs agree, those that it means to skip too.
pub check_csrs-all :
    (cpu_mstatus csr_base : ℕ) (r : DiffContext) (front : CsrCtx) (q : List CsrCtx)
    → Apart cpu_mstatus csr_base
    → (check_csrs (skip_checkcsrs cpu_mstatus csr_base) r front.pc (front ∷ q)).0 ≡ true
    → (j : ℕ) → j < 8
    → get_or r.ctx_csrs j 0 ≡ get_or front.csrs j 0
unfolding check_csrs
check_csrs-all m b r front q a e j h =
    csr_loop-all m b 8 0 r.ctx_csrs front.csrs a (omega arith) (ground (arith, e)) j (omega arith)
      (omega (arith, h))
