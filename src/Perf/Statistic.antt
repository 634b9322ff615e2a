-- ===== src/Perf/Statistic.antt =====
-- The calls that the core makes of the counters, and `statistic` of csrc/cpu/cpu-exec.cpp, which prints
-- the figures at the end of a run, behind the hash of the commit, which is not modelled. A quotient
-- of doubles is its two numbers.
use fpga_npc.Base.{ℕ, Bool, List, [], ◌∷◌, Outcome, done, ◌>>=◌, sub64}
use fpga_npc.Perf.{
  Counters, Channel, perf_count_ifu, perf_count_idu, perf_count_inst_flushed, perf_count_exu,
  perf_count_lsu, perf_count_icache_miss, perf_count_skip_cache, perf_branch_prediction_accuracy,
  ifu_launch_ar_req, ifu_recv_r_resp, lsu_launch_ar_req, lsu_recv_r_resp, lsu_launch_aw_req,
  lsu_recv_b_resp,
}

pub data Bus : Type 0 where
  ifu_read lsu_read lsu_write : Bus

-- A request or a response has the cycle of its call.
pub data PerfCall : Type 0 where
  counts_ifu counts_inst_flushed counts_exu counts_lsu counts_icache_miss counts_skip_cache :
      PerfCall
  counts_idu : ℕ → PerfCall
  predicts : Bool → PerfCall
  launches receives : Bus → ℕ → PerfCall

unfoldable pub launch_on : Bus → ℕ → Counters → Counters
launch_on ifu_read cycle c = ifu_launch_ar_req cycle c
launch_on lsu_read cycle c = lsu_launch_ar_req cycle c
launch_on lsu_write cycle c = lsu_launch_aw_req cycle c

unfoldable pub receive_on : Bus → ℕ → Counters → Outcome Counters
receive_on ifu_read cycle c = ifu_recv_r_resp cycle c
receive_on lsu_read cycle c = lsu_recv_r_resp cycle c
receive_on lsu_write cycle c = lsu_recv_b_resp cycle c

unfoldable pub perf_call : PerfCall → Counters → Outcome Counters
perf_call counts_ifu c = done (perf_count_ifu c)
perf_call counts_inst_flushed c = done (perf_count_inst_flushed c)
perf_call counts_exu c = done (perf_count_exu c)
perf_call counts_lsu c = done (perf_count_lsu c)
perf_call counts_icache_miss c = done (perf_count_icache_miss c)
perf_call counts_skip_cache c = done (perf_count_skip_cache c)
perf_call (counts_idu fu_type) c = done (perf_count_idu fu_type c)
perf_call (predicts redirect) c = done (perf_branch_prediction_accuracy redirect c)
perf_call (launches bus cycle) c = done (launch_on bus cycle c)
perf_call (receives bus cycle) c = receive_on bus cycle c

unfoldable pub perf_calls : List PerfCall → Counters → Outcome Counters
perf_calls [] c = done c
perf_calls (x ∷ xs) c = do d ← perf_call x c; perf_calls xs d

-- `a / (double)b`
pub record Quotient : Type 0 where
  pub dividend : ℕ
  pub divisor : ℕ

-- A line "total cycles / times = average".
pub record AverageLatency : Type 0 where
  pub total_cycles : ℕ
  pub times : ℕ
  pub average : Quotient

-- The lines, in order.
pub record Statistic : Type 0 where
  pub host_cycles : ℕ
  pub guest_instructions : ℕ
  pub ipc : Quotient
  pub ifu_instructions : ℕ
  pub alu_instructions : ℕ
  pub lsu_instructions : ℕ
  pub bru_instructions : ℕ
  pub csr_instructions : ℕ
  pub flushed_instructions : ℕ
  pub alu_cycles : ℕ
  pub lsu_cycles : ℕ
  pub ifu_r_latency : AverageLatency
  pub lsu_r_latency : AverageLatency
  pub lsu_w_latency : AverageLatency
  pub icache_access : ℕ
  pub icache_miss : ℕ
  pub icache_miss_rate : Quotient
  pub redirections : ℕ
  pub branch_miss_prediction : Quotient

abbrev pub average_latency : Channel → AverageLatency
average_latency c = record {
  total_cycles = c.latency_total;
  times = c.req_counter;
  average = record { dividend = c.latency_total; divisor = c.req_counter };
}

unfoldable pub statistic : ℕ → ℕ → Counters → Statistic
statistic g_nr_cycle g_nr_guest_inst c =
    let icache_access_counter = sub64 c.ifu_counter c.icache_skip_counter in
    record {
      host_cycles = g_nr_cycle;
      guest_instructions = g_nr_guest_inst;
      ipc = record { dividend = g_nr_guest_inst; divisor = g_nr_cycle };
      ifu_instructions = c.ifu_counter;
      alu_instructions = c.alu_inst_counter;
      lsu_instructions = c.lsu_inst_counter;
      bru_instructions = c.bru_inst_counter;
      csr_instructions = c.csr_inst_counter;
      flushed_instructions = c.inst_flushed_counter;
      alu_cycles = c.alu_counter;
      lsu_cycles = c.lsu_counter;
      ifu_r_latency = average_latency c.ifu_r;
      lsu_r_latency = average_latency c.lsu_r;
      lsu_w_latency = average_latency c.lsu_w;
      icache_access = icache_access_counter;
      icache_miss = c.icache_miss_counter;
      icache_miss_rate = record {
        dividend = c.icache_miss_counter;
        divisor = icache_access_counter;
      };
      redirections = c.miss_branch_prediction;
      branch_miss_prediction = record {
        dividend = c.miss_branch_prediction;
        divisor = c.bru_inst_counter;
      };
    }
