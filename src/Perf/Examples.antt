-- ===== src/Perf/Examples.antt =====
-- A small history of the core's calls.
use fpga_npc.Base.{◌≡◌, List, [], ◌∷◌, true, done}
use fpga_npc.Perf.{Counters}
use fpga_npc.Perf.Statistic.{
  ifu_read, lsu_read, PerfCall, counts_ifu, counts_icache_miss, counts_skip_cache, counts_idu,
  predicts, launches, receives, perf_calls, statistic,
}
use fpga_npc.Perf.Reports.{all_buses, AllAnswered}
use fpga_npc.Perf.Totals.{counters_start, Totals, statistic-Totals}

-- The second request for an instruction is open at the end.
abbrev history : List PerfCall
history =
    launches ifu_read 10
    ∷ counts_icache_miss
    ∷ receives ifu_read 14
    ∷ counts_ifu
    ∷ counts_idu 1
    ∷ launches lsu_read 16
    ∷ launches ifu_read 17
    ∷ receives lsu_read 25
    ∷ counts_skip_cache
    ∷ counts_idu 2
    ∷ predicts true
    ∷ []

history-AllAnswered : AllAnswered history counters_start
history-AllAnswered = all_buses _ tt tt tt

statistic-Totals_example :
    (d : Counters) × (perf_calls history counters_start ≡ done d)
    × Totals history d (statistic 30 4 d)
statistic-Totals_example = statistic-Totals history 30 4 history-AllAnswered
