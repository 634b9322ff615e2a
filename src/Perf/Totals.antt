-- ===== src/Perf/Totals.antt =====
-- `statistic` after a history of calls.
use fpga_npc.Base.{
  ℕ, ◌+◌, ◌^◌, ◌<◌, ◌≡◌, refl, sym, ap, ◌∙◌, Bool, true, false, List, [], ◌∷◌, done, arith, inl,
  inr, u64, List-cases, get_or, bind-done, done_injective,
}
use fpga_npc.Perf.{
  Counters, Channel, perf_count_ifu, perf_count_idu, perf_count_inst_flushed, perf_count_exu,
  perf_count_lsu, perf_count_icache_miss, perf_count_skip_cache, perf_branch_prediction_accuracy,
  launch, receive,
}
use fpga_npc.Perf.Latency.{
  Event, requests, responds, step, steps, sum, requested, responded, responses, Answered,
  steps-latency,
}
use fpga_npc.Perf.Statistic.{
  Bus, ifu_read, lsu_read, lsu_write, PerfCall, counts_ifu, counts_inst_flushed, counts_exu,
  counts_lsu, counts_icache_miss, counts_skip_cache, counts_idu, predicts, launches, receives,
  perf_call, perf_calls, AverageLatency, Statistic, statistic,
}
use fpga_npc.Perf.Figures.{
  is_ifu, is_inst, is_flush, is_exu, is_lsu, is_miss, is_skip, is_redirect, count, figures, hits,
  bump, bumps, perf_call-figures, counts,
}
use fpga_npc.Perf.Reports.{channel, on, all_buses, AllAnswered, Runs, kept, launched, received}

-- The static variables at the start of the program.
abbrev pub no_requests : Channel
no_requests = record { que = []; req_counter = 0; latency_total = 0 }

abbrev pub counters_start : Counters
counters_start = record {
  ifu_counter = 0;
  alu_inst_counter = 0;
  lsu_inst_counter = 0;
  bru_inst_counter = 0;
  csr_inst_counter = 0;
  inst_flushed_counter = 0;
  alu_counter = 0;
  lsu_counter = 0;
  ifu_r = no_requests;
  lsu_r = no_requests;
  lsu_w = no_requests;
  icache_miss_counter = 0;
  icache_skip_counter = 0;
  miss_branch_prediction = 0;
}

idu-channels :
    (k : ℕ) (c : Counters) → (bus : Bus) → channel bus (perf_count_idu k c) ≡ channel bus c
unfolding perf_count_idu
idu-channels k c ifu_read = ground arith
idu-channels k c lsu_read = ground arith
idu-channels k c lsu_write = ground arith

predicts-channels :
    (redirect : Bool) (c : Counters) (bus : Bus)
    → channel bus (perf_branch_prediction_accuracy redirect c) ≡ channel bus c
unfolding perf_branch_prediction_accuracy
predicts-channels true c ifu_read = refl
predicts-channels true c lsu_read = refl
predicts-channels true c lsu_write = refl
predicts-channels false c bus = refl

runs : (xs : List PerfCall) (c : Counters) → AllAnswered xs c → Runs xs c
unfolding perf_calls perf_call perf_count_ifu perf_count_inst_flushed perf_count_exu perf_count_lsu
    perf_count_icache_miss perf_count_skip_cache steps
runs [] c a = (c, refl, λ bus. refl)
runs (counts_ifu ∷ xs) c a =
    kept counts_ifu xs c _ refl (λ bus. refl) (all_buses _ refl refl refl) (runs xs _) a
runs (counts_inst_flushed ∷ xs) c a =
    kept counts_inst_flushed xs c _ refl (λ bus. refl) (all_buses _ refl refl refl) (runs xs _) a
runs (counts_exu ∷ xs) c a =
    kept counts_exu xs c _ refl (λ bus. refl) (all_buses _ refl refl refl) (runs xs _) a
runs (counts_lsu ∷ xs) c a =
    kept counts_lsu xs c _ refl (λ bus. refl) (all_buses _ refl refl refl) (runs xs _) a
runs (counts_icache_miss ∷ xs) c a =
    kept counts_icache_miss xs c _ refl (λ bus. refl) (all_buses _ refl refl refl) (runs xs _) a
runs (counts_skip_cache ∷ xs) c a =
    kept counts_skip_cache xs c _ refl (λ bus. refl) (all_buses _ refl refl refl) (runs xs _) a
runs (counts_idu k ∷ xs) c a =
    kept (counts_idu k) xs c (perf_count_idu k c) refl (λ bus. refl) (idu-channels k c)
      (runs xs (perf_count_idu k c)) a
runs (predicts redirect ∷ xs) c a =
    let d = perf_branch_prediction_accuracy redirect c in
    kept (predicts redirect) xs c d refl (λ bus. refl) (predicts-channels redirect c) (runs xs d) a
runs (launches bus cycle ∷ xs) c a = launched bus cycle xs c (runs xs) a
runs (receives bus cycle ∷ xs) c a = received bus cycle xs c (runs xs) a

abbrev pub latency_of : Bus → Statistic → AverageLatency
latency_of ifu_read r = r.ifu_r_latency
latency_of lsu_read r = r.lsu_r_latency
latency_of lsu_write r = r.lsu_w_latency

-- The figures are the numbers of the calls, and the latencies those of the answered requests: the
-- requests that are open in `d` count on both sides.
pub record Totals (xs : List PerfCall) (d : Counters) (r : Statistic) : Type 0 where
  pub ifu : r.ifu_instructions ≡ u64 (count is_ifu xs)
  pub alu : r.alu_instructions ≡ u64 (count (is_inst 0) xs)
  pub lsu : r.lsu_instructions ≡ u64 (count (is_inst 1) xs)
  pub bru : r.bru_instructions ≡ u64 (count (is_inst 2) xs)
  pub csr : r.csr_instructions ≡ u64 (count (is_inst 3) xs)
  pub flushed : r.flushed_instructions ≡ u64 (count is_flush xs)
  pub in_alu : r.alu_cycles ≡ u64 (count is_exu xs)
  pub in_lsu : r.lsu_cycles ≡ u64 (count is_lsu xs)
  pub misses : r.icache_miss ≡ u64 (count is_miss xs)
  pub redirects : r.redirections ≡ u64 (count is_redirect xs)
  pub accesses : u64 (r.icache_access + count is_skip xs) ≡ u64 (count is_ifu xs)
  pub total :
      (bus : Bus)
      → u64 ((latency_of bus r).total_cycles + requested (on bus xs))
        ≡ u64 (responded (on bus xs) + sum (channel bus d).que)
  pub times : (bus : Bus) → (latency_of bus r).times ≡ u64 (responses (on bus xs))

receive-lt : (cycle : ℕ) (c d : Channel) → receive cycle c ≡ done d → d.req_counter < 2 ^ 64
unfolding receive
receive-lt cycle c d e = elim (List-cases c.que) [
  | inl n ↦ ground (arith, n)
  | inr (q, rest, f) ↦ ground (arith, f)
]

-- The number of responses stays a word.
steps-lt :
    (es : List Event) (c d : Channel)
    → c.req_counter < 2 ^ 64
    → steps es c ≡ done d
    → d.req_counter < 2 ^ 64
unfolding steps step launch receive
steps-lt [] c d h e =
    let same = ap (λ (m : Channel). m.req_counter) (done_injective e) in omega (arith, same)
steps-lt (requests cycle ∷ es) c d h e = steps-lt es (launch cycle c) d h e
steps-lt (responds cycle ∷ es) c d h e =
    let (m, f, g) = bind-done (receive cycle c) _ d e in steps-lt es m d (receive-lt cycle c m f) g

latency-total :
    (xs : List PerfCall) (d : Counters) (bus : Bus)
    → Answered 0 (on bus xs)
    → steps (on bus xs) no_requests ≡ done (channel bus d)
    → (u64 ((channel bus d).latency_total + requested (on bus xs))
        ≡ u64 (responded (on bus xs) + sum (channel bus d).que))
      × ((channel bus d).req_counter ≡ u64 (responses (on bus xs)))
latency-total xs d bus a e =
    let (k, f, total, times) = steps-latency (on bus xs) no_requests a in
    let same : k ≡ channel bus d = done_injective (sym f ∙ e) in
    let now = ap (λ (m : Channel). m.latency_total) same in
    let open_now = ap (λ (m : Channel). sum m.que) same in
    let answered = ap (λ (m : Channel). m.req_counter) same in
    let word = steps-lt (on bus xs) no_requests (channel bus d) (omega arith) e in
    (omega (arith, total, now, open_now), omega (arith, times, answered, word))

-- A counter that is 0 at the start, and that stands at the place `i` of the figures.
counted :
    (i : ℕ) (value : Counters → ℕ) (p : PerfCall → Bool)
    → ((c : Counters) → get_or (figures c) i 0 ≡ value c)
    → ((x : PerfCall) (c : Counters)
        → get_or (bumps (hits x) (figures c)) i 0 ≡ bump (p x) (value c))
    → value counters_start ≡ 0
    → (xs : List PerfCall) (d : Counters) → perf_calls xs counters_start ≡ done d
    → value d ≡ u64 (count p xs)
counted i value p at bumped zero_first xs d e =
    let one : (x : PerfCall) (c d : Counters)
        → perf_call x c ≡ done d
        → value d ≡ bump (p x) (value c) =
      λ x c d e. sym (at d) ∙ ap (λ v. get_or v i 0) (perf_call-figures x c d e) ∙ bumped x c in
    counts value p one xs counters_start d 0 e (zero_first ∙ omega arith) ∙ omega arith

module _ (xs : List PerfCall) (g_nr_cycle g_nr_guest_inst : ℕ)
    (answered : AllAnswered xs counters_start) where
  -- For a history of the core's calls from the start in which every response has a request before
  -- it on its channel, no call fails, and the figures of statistic are, modulo 2 ^ 64: the numbers
  -- of the calls of each kind; as accesses of the icache, the fetched instructions less the skipped
  -- ones; and for each channel the number of its responses, and as total cycles the sum of the
  -- cycles of the responses less that of the requests answered.
  pub statistic-Totals :
      (d : Counters) × (perf_calls xs counters_start ≡ done d)
      × Totals xs d (statistic g_nr_cycle g_nr_guest_inst d)
  unfolding statistic
  statistic-Totals =
      let (d, e, f) = runs xs counters_start answered in
      let fetched = counted 0 (λ c. c.ifu_counter) is_ifu (λ c. refl) (λ x c. refl) refl xs d e in
      let skipped =
        counted 9 (λ c. c.icache_skip_counter) is_skip (λ c. refl) (λ x c. refl) refl xs d e in
      (
        d,
        e,
        record {
          ifu = fetched;
          alu =
              counted 1 (λ c. c.alu_inst_counter) (is_inst 0) (λ c. refl) (λ x c. refl) refl xs d e;
          lsu =
              counted 2 (λ c. c.lsu_inst_counter) (is_inst 1) (λ c. refl) (λ x c. refl) refl xs d e;
          bru =
              counted 3 (λ c. c.bru_inst_counter) (is_inst 2) (λ c. refl) (λ x c. refl) refl xs d e;
          csr =
              counted 4 (λ c. c.csr_inst_counter) (is_inst 3) (λ c. refl) (λ x c. refl) refl xs d e;
          flushed =
              counted 5 (λ c. c.inst_flushed_counter) is_flush (λ c. refl) (λ x c. refl) refl xs d
                e;
          in_alu = counted 6 (λ c. c.alu_counter) is_exu (λ c. refl) (λ x c. refl) refl xs d e;
          in_lsu = counted 7 (λ c. c.lsu_counter) is_lsu (λ c. refl) (λ x c. refl) refl xs d e;
          misses =
              counted 8 (λ c. c.icache_miss_counter) is_miss (λ c. refl) (λ x c. refl) refl xs d e;
          redirects =
              counted 10 (λ c. c.miss_branch_prediction) is_redirect (λ c. refl) (λ x c. refl) refl
                xs d e;
          accesses = omega (arith, fetched, skipped);
          total =
              all_buses _ (latency-total xs d ifu_read (answered ifu_read) (f ifu_read)).0
                (latency-total xs d lsu_read (answered lsu_read) (f lsu_read)).0
                (latency-total xs d lsu_write (answered lsu_write) (f lsu_write)).0;
          times =
              all_buses _ (latency-total xs d ifu_read (answered ifu_read) (f ifu_read)).1
                (latency-total xs d lsu_read (answered lsu_read) (f lsu_read)).1
                (latency-total xs d lsu_write (answered lsu_write) (f lsu_write)).1;
        },
      )
