-- ===== src/Itrace/Examples.antt =====
-- The properties at concrete instructions, and tests.
use fpga_npc.Base.{
  ℕ, zero, suc, ◌≡◌, refl, true, ◌∷◌, map, done, undefined, codes, All, arith, replicate,
}
use fpga_npc.Itrace.{
  Itrace, itrace_start, find_first_not_of_tab, disassemble, hex_text, byte_texts, line_start,
  copy_behind, log_line, trace_insts, ringbuf_print,
}
use fpga_npc.Itrace.Line.{Shown, Short, event_of, line_of, log_line-sizes}
use fpga_npc.Itrace.Ring.{Marks, newest_20, ringbuf_print-newest}

-- `addi s0, zero, 0` at the start of the flash, as LLVM prints it.
abbrev addi : Shown
addi = record {
  tabs = 1;
  first = b'a';
  rest = codes "ddi\ts0, zero, 0x0";
  pc = 0x30000000;
  inst = 0x00000413;
}

abbrev nop : Shown
nop = record { tabs = 1; first = b'n'; rest = codes "op"; pc = 0x30000004; inst = 0x13 }

addi-text :
    log_line (event_of addi).printed 0x30000000 0x413
    ≡ done (codes "0x30000000: 00 00 04 13 addi\ts0, zero, 0x0")
unfolding log_line disassemble find_first_not_of_tab copy_behind line_start hex_text byte_texts
addi-text = refl

nops-Short : (n : ℕ) → All Short (replicate n nop)
nops-Short zero = tt
nops-Short (suc n) = ((refl, omega arith), nops-Short n)

-- Of 21 instructions, the first one is overwritten.
ringbuf_print-newest_example :
    (s : Itrace) × (trace_insts true (map event_of (addi ∷ replicate 20 nop)) itrace_start ≡ done s)
    × (s.log ≡ map line_of (addi ∷ replicate 20 nop))
    × Marks (ringbuf_print s) (newest_20 (map line_of (addi ∷ replicate 20 nop)))
ringbuf_print-newest_example =
    ringbuf_print-newest true addi (replicate 20 nop) ((refl, omega arith), nops-Short 20)

-- 104 characters pass the test of `disassemble` and run over `logbuf`.
log_line-sizes_example : log_line (9 ∷ b'a' ∷ replicate 103 b'a') 0x30000000 0x413 ≡ undefined
log_line-sizes_example = log_line-sizes 1 b'a' (replicate 103 b'a') 0x30000000 0x413 refl
