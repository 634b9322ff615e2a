-- ===== src/SpikeDiff/Examples.antt =====
-- A simulator that has nothing but the registers and the pc.
use fpga_npc.Base.{
  ℕ, zero, suc, ◌+◌, ◌^◌, ◌<◌, ◌≡◌, refl, true, false, some, [], ◌∷◌, ◌==◌, if◌then◌else◌, done,
  get_or, get_elem?, replicate, Option-cases, inl, inr, arith,
}
use fpga_npc.Difftest.{DiffContext, Reference, Difftest}
use fpga_npc.Reg.{gpr}
use fpga_npc.Npc.{Core}
use fpga_npc.Difftest.Init.{init_difftest}
use fpga_npc.SpikeDiff.{Spike, nothing, diff_memcpy, difftest_memcpy, difftest_regcpy, exports}
use fpga_npc.SpikeDiff.Startup.{Starts, init_difftest-Starts}
use fpga_npc.SpikeDiff.Registers.{Lawful, difftest_regcpy-back}

abbrev Machine : Type 0
Machine = (ℕ → ℕ) × ℕ

abbrev small_spike : Spike Machine
small_spike = record {
  xpr = λ i s. if i == 0 then 0 else s.0 i;
  write_xpr = λ i v s. ((λ j. if j == i then v else s.0 j), s.1);
  pc = λ s. s.1;
  set_pc = λ v s. (s.0, v);
  read_csr = λ addr s. 0;
  write_csr = λ addr v s. s;
  store_byte = λ addr v s. done s;
  step = λ n s. (s.0, s.1 + 4);
  take_trap = λ cause_no epc s. (s.0, 0);
}

small-Lawful : Lawful small_spike
small-Lawful = record {
  xpr_zero = λ s. refl;
  xpr_written = λ i v s h. ground arith;
  xpr_other = λ i j v s h. ground (arith, h);
  xpr_pc = λ i v s. refl;
  xpr_csr = λ i addr v s. refl;
  pc_set = λ v s. refl;
  pc_csr = λ addr v s. refl;
}

abbrev start : Machine
start = ((λ _. 0), 0)

abbrev context : DiffContext
context = record { ctx_gpr = 7 ∷ 0xffffffff ∷ 5 ∷ []; pc = 0x30000000; ctx_csrs = [] }

context-small : (j : ℕ) → get_or context.ctx_gpr j 0 < 2 ^ 32
context-small zero = omega arith
context-small (suc zero) = omega arith
context-small (suc (suc zero)) = omega arith
context-small (suc (suc (suc j))) = omega arith

difftest_regcpy-back_example :
    let back =
      (difftest_regcpy small_spike context false
        (difftest_regcpy small_spike context true start).1).0 in
    (back.pc ≡ 0x30000000)
    × (get_or back.ctx_gpr 0 0 ≡ 0)
    × ((j : ℕ) → 0 < j → j < 32 → get_or back.ctx_gpr j 0 ≡ get_or context.ctx_gpr j 0)
difftest_regcpy-back_example =
    difftest_regcpy-back small_spike context context start small-Lawful context-small (omega arith)

-- After the reset: every register of the core holds 5.
abbrev after_reset : Core
after_reset = record {
  regs = record { pc_if = 0x10000000; gpr_file = replicate 31 5 };
  csrs = [];
  pc_done = 0;
  pc_exe = 0;
  is_done = false;
  flush_for_intr = false;
}

get_elem?-five : (n i v : ℕ) → get_elem? {A = ℕ} (replicate n 5) i ≡ some v → v ≡ 5
get_elem?-five zero i v e = absurd (ground (arith, e))
get_elem?-five (suc n) zero v e = ground (arith, e)
get_elem?-five (suc n) (suc i) v e = get_elem?-five n i v e

after_reset-small : (j v : ℕ) → gpr after_reset.regs j ≡ done v → v < 2 ^ 32
unfolding gpr
after_reset-small zero v e = absurd (ground (arith, e))
after_reset-small (suc j) v e = elim (Option-cases (get_elem? {A = ℕ} (replicate 31 5) j)) [
  | inl n ↦ absurd (ground (arith, e, n))
  | inr (w, f) ↦ let five : w ≡ 5 = get_elem?-five 31 j w f in ground (arith, e, f, five)
]

abbrev not_started : Difftest Machine
not_started = record {
  pcs_to_skip = [];
  pc_intr_triggered = 0;
  cause_no_intr_triggered = 0;
  diff_npc = 0;
  csr_ctx_q = [];
  ctx = nothing;
  ref = start;
}

memcpy-start : difftest_memcpy small_spike 0x10000000 (1 ∷ 2 ∷ []) true start ≡ done start
unfolding difftest_memcpy diff_memcpy
memcpy-start = refl

init_difftest-Starts_example :
    (r : Reference Machine × Difftest Machine) × (init_difftest
        (some (some (exports small_spike start)))
        (1 ∷ 2 ∷ [])
        1234
        77
        after_reset
        not_started
      ≡ done r)
    × Starts small_spike after_reset r
init_difftest-Starts_example =
    init_difftest-Starts small_spike start start (1 ∷ 2 ∷ []) 1234 77 after_reset not_started
      small-Lawful refl after_reset-small (omega arith) memcpy-start
