-- ===== src/Lib.antt =====
-- The host program of the RISC-V processor simulation: the C and C++ code under csrc and include
-- that runs the simulated core, compares it with a reference model and debugs it. Each part is a
-- set of functions over explicit states.
--
-- Expr (csrc/sdb/expr.cpp): the debugger's expressions. Expr.Lexer is make_token with its rules,
-- Expr.Eval is check_parentheses, get_main_operation_index and eval, Expr.Entry is expr. An int is
-- its bit pattern below 2 ^ 32. A range of tokens is given by its first index and the index behind
-- its last one. The fuel of eval bounds the depth of the calls; expr gives one more than the
-- tokens, which is enough for every well-formed expression. Expr.Syntax has the trees and how they
-- are written, Expr.Printing their text, Expr.Matches and Expr.Fits the lengths of the tokens.
-- Reg (csrc/riscv32/reg.cpp): the registers by name, which expressions read. Reg.Display compares
-- the ways to read them.
-- Watchpoint (csrc/sdb/watchpoint.cpp, include/watchpoint.h): the pool of 32 cells with the lists
-- of used and of free cells. A pointer is the index of a cell. The loops get 34 rounds: a list has
-- at most 32 cells, and the insertion looks at the last one twice. check_diff takes expr as an
-- argument, which CpuExec gives it.
-- Npc (include/utils.h, csrc/utils/state.cc): the state of the simulation and the exit status, and
-- the signals of the core that the host reads.
-- Difftest (csrc/cpu/dut.cc): the comparison of every instruction with the reference model, a
-- library loaded at run time whose functions are arguments. Difftest.Init is init_difftest, with
-- the names that dlsym finds in the library, Difftest.Skips skip_checkcsrs over addresses.
-- SpikeDiff (tools/spike-diff/difftest.cc): that library, with the Spike simulator as an argument.
-- SpikeDiff.Startup has what the model holds after init_difftest.
-- LightSss (csrc/cpu/lightsss.cpp, include/lightsss.h): snapshots as forked processes. What fork
-- returns is an argument; the processes killed are recorded. LightSss.SharedMemory makes and removes
-- the shared memory, with the results of the system's calls as arguments.
-- CpuExec (csrc/cpu/cpu-exec.cpp): cpu_exec and what it calls, in the build with CONFIG_DIFFTEST
-- and without CONFIG_WAVEFORM and CONFIG_ITRACE. The simulated core is generated code; its state,
-- a clock cycle with the calls it makes, and its signals are arguments. CpuExec.Reset is reset.
-- CpuExec.Kept has the invariant, CpuExec.Lockstep what it means that core and reference model do
-- the same, and CpuExec.GoodTrap their runs up to an ebreak. CpuExec.Calls has the calls of the
-- core that leave the host alone, CpuExec.Trapping the instruction in whose cycles the decoder
-- calls ebreak with the instruction ebreak. CpuExec.Signals has the handler of Ctrl-C outside the
-- batch mode, at any instruction of a run, CpuExec.Interrupted what it leads to. CpuExec.Handlers
-- has all handlers and the macro Assert (include/debug.h) over the objects that a process owns,
-- and CpuExec.Handled how a process ends by them. CpuExec.Waveform has excute of a build with
-- CONFIG_WAVEFORM, where the two evaluations of a clock cycle are apart; CpuExec.Snapshots and
-- CpuExec.Undisturbed compare it with the other build.
-- Itrace (csrc/cpu/cpu-exec.cpp, csrc/utils/disasm.cc): the trace of instructions of a build with
-- CONFIG_ITRACE, and disassemble, for what LLVM prints. Itrace.Line has the length of the lines,
-- Itrace.Ring the ring buffer with the last twenty.
-- Memory (csrc/memory/paddr.cpp, csrc/memory/mmio.cpp, csrc/utils/timer.c): the memory of the
-- system, the flash, the clock and the SDRAM, which the core calls, and the loading of the image.
-- Memory.Physical has the reads and pmem_write, Memory.Sdram the SDRAM, Memory.Ddr the image. An
-- array of bytes is a function of the index, and its size is tested; the loop of pmem_write gets a
-- round for each byte of the memory and one more.
-- Elf (csrc/utils/elf.cc): Elf.File is init_elf over the bytes of a file, Elf.Trace the trace of
-- calls. The two linked lists are lists; a list that is empty stands for a next field that is not
-- initialised. Elf.Layout has the bytes of a file, whose parts stand anywhere; Elf.Loading,
-- Elf.Sections and Elf.Loaded have what is read of them.
-- Sdb (csrc/sdb/sdb.cpp): the debugger. Sdb.Commands has the commands, Sdb.Loop sdb_mainloop over
-- a list of lines, which is what readline gives. The commands print messages. The trace that the
-- core's calls of ftrace have built is read from the state of the core. Sdb.Values has watchpoints
-- on the texts of expression trees. A session works on the Host of CpuExec.
-- Wave (csrc/cpu/cpu-exec.cpp): dump_wave and divide_condition of a build with CONFIG_WAVEFORM, with
-- the snapshots of LightSss. Wave.Window has the snapshots of the original process, Wave.Original
-- what it leaves alone, Wave.Replay what a woken one records; Wave.Oldest and Wave.Waking have the
-- oldest snapshot, Wave.Failure all of it together.
-- Wave.Divide is trace_new, with dump_wave of a build with CONFIG_WAVEFORM_DIVIDE; the text of the
-- local time is an argument.
-- Start (csrc/sim_main.cpp, csrc/utils/log.cc): Start has the options and init_log, Start.Boot main
-- with the order of the initialisations. What getopt_long returns, the contents of the files, the
-- core as it is made, its reset input and the word in front of its register file are arguments.
-- Start.Status has the exit status of whole runs.
-- Perf (csrc/utils/perfcount.cc): the performance counters; the three latency queues are channels.
-- Perf.Statistic is statistic (csrc/cpu/cpu-exec.cpp) over a history of the core's calls; a quotient
-- of doubles is its two numbers. Perf.Totals has its figures.
-- Base: names of the libraries, Boolean tests, lists, words, texts and results. A result is
-- Outcome: the function returns, an assert fails, behaviour is undefined, or the fuel is used up.
--
-- Not modelled: the pointers into the generated core that reset sets, what difftest_init builds of
-- Spike's classes, cpu_exec behind excute in a build with CONFIG_WAVEFORM, the commit hash of
-- statistic, output to the terminal and to the log, the history of readline, the LLVM library that
-- init_disasm sets up, and the hardware sources. tools/kconfig and tools/fixdep are copies of tools
-- of the Linux kernel.
pub mod Base
pub mod CpuExec
pub mod Difftest
pub mod Elf
pub mod Expr
pub mod Itrace
pub mod LightSss
pub mod Memory
pub mod Npc
pub mod Perf
pub mod Reg
pub mod Sdb
pub mod SpikeDiff
pub mod Start
pub mod Watchpoint
pub mod Wave
