-- ===== src/LightSss/SharedMemory.antt =====
-- The constructor and the destructor of `ForkShareMemory` in csrc/cpu/lightsss.cpp. What the calls of
-- the system return is an argument.
use fpga_npc.Base.{ℕ, Bool, Option, none, some, if◌then◌else◌}
use fpga_npc.LightSss.{ShInfo, start_info}

-- `ftok(".", 's')` by its sign, `shmget` on a key, `shmat` on an identifier, `shmdt` on an address;
-- `none` is -1.
pub record System : Type 0 where
  pub ftok_fails : Bool
  pub shmget : ℕ → Option ℕ
  pub shmat : ℕ → Option ℕ
  pub shmdt_fails : ℕ → Bool

-- `exit(EXIT_FAILURE)`, or an object: `shm_id`, the address of `info` and what is stored there.
pub data Created : Type 0 where
  exit_failure : Created
  created : ℕ → ℕ → ShInfo → Created

-- `key_n = ftok(".", 's') < 0`: the key is the result of the comparison.
unfoldable pub key_n : System → ℕ
key_n sys = if sys.ftok_fails then 1 else 0

abbrev attach : System → ℕ → Created
attach sys shm_id = elim (sys.shmat shm_id) [
  | none ↦ exit_failure
  | some info ↦ created shm_id info start_info
]

unfoldable pub fork_share_memory : System → Created
fork_share_memory sys =
    if sys.ftok_fails
    then exit_failure
    else elim (sys.shmget (key_n sys)) [ none ↦ exit_failure | some shm_id ↦ attach sys shm_id ]

-- Whether the message of the detachment is printed, and the identifier that `shmctl` is to remove.
pub record Destroyed : Type 0 where
  pub detach_error : Bool
  pub removed : ℕ

unfoldable pub destroy_share_memory : System → ℕ → ℕ → Destroyed
destroy_share_memory sys shm_id info = record {
  detach_error = sys.shmdt_fails info;
  removed = shm_id;
}
