-- ===== src/Reg/Examples.antt =====
-- Registers x1 to x31 that hold 100 and more.
use fpga_npc.Base.{◌≡◌, refl, true, ◌∷◌, done, All, replicate}
use fpga_npc.Reg.{Cpu, regs, isa_reg_str2val, reg_display}
use fpga_npc.Reg.Display.{names_of, zip, reg_display-isa_reg_str2val}

abbrev cpu : Cpu
cpu = record { pc_if = 0x30000000; gpr_file = 100 ∷ 200 ∷ replicate 29 7 }

reg_display-isa_reg_str2val_example :
    let lines = zip (names_of regs) (100 ∷ 200 ∷ replicate 29 7) in
    (reg_display cpu ≡ done lines)
    × All (λ line. isa_reg_str2val cpu line.0 ≡ done (line.1, true)) lines
reg_display-isa_reg_str2val_example = reg_display-isa_reg_str2val cpu refl
