-- ===== src/Perf.antt =====
-- csrc/utils/perfcount.cc: the counters that the core drives, and the queues that measure latencies.
pub mod Latency
pub mod Statistic
pub mod Figures
pub mod Reports
pub mod Totals
mod Examples
use fpga_npc.Base.{
  ℕ, ◌+◌, Bool, true, false, List, [], ◌∷◌, ◌++◌, ◌==◌, if◌then◌else◌, Outcome, done, undefined,
  ◌>>=◌, u64, sub64,
}

-- One of the three channels: the queue of launch cycles, the request counter and the total latency.
pub record Channel : Type 0 where
  pub que : List ℕ
  pub req_counter : ℕ
  pub latency_total : ℕ

-- The static variables of the file.
pub record Counters : Type 0 where
  pub ifu_counter : ℕ
  pub alu_inst_counter : ℕ
  pub lsu_inst_counter : ℕ
  pub bru_inst_counter : ℕ
  pub csr_inst_counter : ℕ
  pub inst_flushed_counter : ℕ
  pub alu_counter : ℕ
  pub lsu_counter : ℕ
  pub ifu_r : Channel
  pub lsu_r : Channel
  pub lsu_w : Channel
  pub icache_miss_counter : ℕ
  pub icache_skip_counter : ℕ
  pub miss_branch_prediction : ℕ

unfoldable pub perf_count_ifu : Counters → Counters
perf_count_ifu c = record c { ifu_counter = u64 (c.ifu_counter + 1) }

-- The `switch` on the function type.
unfoldable pub perf_count_idu : ℕ → Counters → Counters
perf_count_idu fu_type c =
    if fu_type == 0
    then record c { alu_inst_counter = u64 (c.alu_inst_counter + 1) }
    else if fu_type == 1
    then record c { lsu_inst_counter = u64 (c.lsu_inst_counter + 1) }
    else if fu_type == 2
    then record c { bru_inst_counter = u64 (c.bru_inst_counter + 1) }
    else if fu_type == 3
    then record c { csr_inst_counter = u64 (c.csr_inst_counter + 1) }
    else c

unfoldable pub perf_count_inst_flushed : Counters → Counters
perf_count_inst_flushed c = record c { inst_flushed_counter = u64 (c.inst_flushed_counter + 1) }

unfoldable pub perf_count_exu : Counters → Counters
perf_count_exu c = record c { alu_counter = u64 (c.alu_counter + 1) }

unfoldable pub perf_count_lsu : Counters → Counters
perf_count_lsu c = record c { lsu_counter = u64 (c.lsu_counter + 1) }

unfoldable pub perf_count_icache_miss : Counters → Counters
perf_count_icache_miss c = record c { icache_miss_counter = u64 (c.icache_miss_counter + 1) }

unfoldable pub perf_count_skip_cache : Counters → Counters
perf_count_skip_cache c = record c { icache_skip_counter = u64 (c.icache_skip_counter + 1) }

unfoldable pub perf_branch_prediction_accuracy : Bool → Counters → Counters
perf_branch_prediction_accuracy redirect c =
    if redirect then record c { miss_branch_prediction = u64 (c.miss_branch_prediction + 1) } else c

-- `IFULaunchARReq` and its two kin, on their channel, in the cycle `g_nr_cycle`.
unfoldable pub launch : ℕ → Channel → Channel
launch g_nr_cycle c = record c { que = c.que ++ g_nr_cycle ∷ [] }

-- `IFURecvRResp` and its two kin: `front` of an empty queue is undefined.
unfoldable pub receive : ℕ → Channel → Outcome Channel
receive g_nr_cycle c = elim c.que [
  | [] ↦ undefined
  | launched ∷ rest ↦ done (record {
    que = rest;
    req_counter = u64 (c.req_counter + 1);
    latency_total = u64 (c.latency_total + sub64 g_nr_cycle launched);
  })
]

unfoldable pub ifu_launch_ar_req : ℕ → Counters → Counters
ifu_launch_ar_req cycle c = record c { ifu_r = launch cycle c.ifu_r }

unfoldable pub ifu_recv_r_resp : ℕ → Counters → Outcome Counters
ifu_recv_r_resp cycle c = do t ← receive cycle c.ifu_r; done (record c { ifu_r = t })

unfoldable pub lsu_launch_ar_req : ℕ → Counters → Counters
lsu_launch_ar_req cycle c = record c { lsu_r = launch cycle c.lsu_r }

unfoldable pub lsu_recv_r_resp : ℕ → Counters → Outcome Counters
lsu_recv_r_resp cycle c = do t ← receive cycle c.lsu_r; done (record c { lsu_r = t })

unfoldable pub lsu_launch_aw_req : ℕ → Counters → Counters
lsu_launch_aw_req cycle c = record c { lsu_w = launch cycle c.lsu_w }

unfoldable pub lsu_recv_b_resp : ℕ → Counters → Outcome Counters
lsu_recv_b_resp cycle c = do t ← receive cycle c.lsu_w; done (record c { lsu_w = t })
