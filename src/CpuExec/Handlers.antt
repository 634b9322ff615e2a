-- ===== src/CpuExec/Handlers.antt =====
-- The signals of csrc/cpu/cpu-exec.cpp in a build without CONFIG_WAVEFORM: the handlers that `cpu_exec`
-- sets and what they do; and `assert_fail_msg`, which the macro `Assert` of include/debug.h calls. What
-- is printed is left out.
use fpga_npc.Base.{
  ℕ, Bool, true, false, ◌==◌, Option, some, if◌then◌else◌, Outcome, done, undefined, ◌>>=◌,
}
use fpga_npc.Npc.{NpcState, npc_stop}
use fpga_npc.LightSss.{LightSss, do_clear}

-- `tfp`, `top` and `contextp`: null, an object, or an object that was deleted.
pub data Pointer : Type 0 where
  null live freed : Pointer

abbrev pub sigint : ℕ
sigint = 2

abbrev pub sigabrt : ℕ
sigabrt = 6

abbrev pub sigsegv : ℕ
sigsegv = 11

-- What `signal` is given.
pub data Handler : Type 0 where
  sig_dfl int_handler int_handler_when_sdb abrt_handler segv_handler : Handler

-- `ended_by` is the signal that has ended the process.
pub record Process : Type 0 where
  pub tfp : Pointer
  pub top : Pointer
  pub contextp : Pointer
  pub lightsss : LightSss
  pub npc : NpcState
  pub handlers : ℕ → Handler
  pub ended_by : Option ℕ

unfoldable pub signal : ℕ → Handler → Process → Process
signal signum h p = record p { handlers = λ n. if n == signum then h else p.handlers n }

-- In front of `excute`.
unfoldable pub set_handlers : Bool → Process → Process
unfolding signal
set_handlers is_batch_mode p = signal sigsegv segv_handler (
    signal sigabrt abrt_handler
      (signal sigint (if is_batch_mode then int_handler else int_handler_when_sdb) p))

-- Behind it.
unfoldable pub reset_handlers : Process → Process
unfolding signal
reset_handlers p = signal sigsegv sig_dfl (signal sigabrt sig_dfl (signal sigint sig_dfl p))

-- `delete`, which does nothing to null.
unfoldable pub delete : Pointer → Outcome Pointer
delete null = done null
delete live = done freed
delete freed = undefined

-- `close`, a call of a member.
unfoldable pub close : Pointer → Outcome (Unit {0})
close null = undefined
close live = done tt
close freed = undefined

-- `if (tfp) { tfp->close(); delete tfp; tfp = nullptr; }`
unfoldable pub close_waveform : Pointer → Outcome Pointer
unfolding close delete
close_waveform null = done null
close_waveform live = do closed ← close live; gone ← delete live; done null
close_waveform freed = do closed ← close freed; gone ← delete freed; done null

-- The body of the handlers that end the process. The signal is raised again when its action is the
-- default one.
unfoldable pub end_by : ℕ → Process → Outcome Process
unfolding signal close_waveform delete
end_by signum p = do
  tfp ← close_waveform p.tfp
  s ← do_clear p.lightsss
  top ← delete p.top
  contextp ← delete p.contextp
  done (record (signal signum sig_dfl p) {
    tfp = tfp;
    top = top;
    contextp = contextp;
    lightsss = s;
    ended_by = some signum;
  })

unfoldable pub int_signal_handler : Process → Outcome Process
unfolding end_by
int_signal_handler p = end_by sigint p

-- `intSignalHandlerWhenSDB`
unfoldable pub stop_signal_handler : Process → Process
unfolding signal
stop_signal_handler p = record (signal sigint sig_dfl p) { npc = record p.npc { state = npc_stop } }

unfoldable pub abrt_signal_handler : Process → Outcome Process
unfolding end_by
abrt_signal_handler p = end_by sigabrt p

unfoldable pub segv_signal_handler : Process → Outcome Process
unfolding end_by
segv_signal_handler p = end_by sigsegv p

-- A signal arrives.
unfoldable pub deliver : ℕ → Process → Outcome Process
unfolding int_signal_handler stop_signal_handler abrt_signal_handler segv_signal_handler
deliver signum p = elim (p.handlers signum) [
  | sig_dfl ↦ done (record p { ended_by = some signum })
  | int_handler ↦ int_signal_handler p
  | int_handler_when_sdb ↦ done (stop_signal_handler p)
  | abrt_handler ↦ abrt_signal_handler p
  | segv_handler ↦ segv_signal_handler p
]

unfoldable pub assert_fail_msg : Process → Outcome Process
unfolding close delete
assert_fail_msg p = do
  closed ← close p.tfp
  top ← delete p.top
  contextp ← delete p.contextp
  done (record p { top = top; contextp = contextp })

-- `Assert`: its `assert` raises SIGABRT.
unfoldable pub assert_macro : Bool → Process → Outcome Process
unfolding assert_fail_msg deliver
assert_macro true p = done p
assert_macro false p = do q ← assert_fail_msg p; deliver sigabrt q
