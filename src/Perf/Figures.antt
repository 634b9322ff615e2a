-- ===== src/Perf/Figures.antt =====
-- What the figures say of the calls.
use fpga_npc.Base.{
  ℕ, zero, suc, ◌+◌, ◌≡◌, refl, sym, ap, ◌∙◌, Bool, true, false, List, [], ◌∷◌, ◌==◌, if◌then◌else◌,
  done, arith, Bool-cases, inl, inr, u64, bind-done, done_injective,
}
use fpga_npc.Perf.{
  Counters, perf_count_ifu, perf_count_idu, perf_count_inst_flushed, perf_count_exu, perf_count_lsu,
  perf_count_icache_miss, perf_count_skip_cache, perf_branch_prediction_accuracy, receive,
  ifu_launch_ar_req, ifu_recv_r_resp, lsu_launch_ar_req, lsu_recv_r_resp, lsu_launch_aw_req,
  lsu_recv_b_resp,
}
use fpga_npc.Perf.Statistic.{
  Bus, ifu_read, lsu_read, lsu_write, PerfCall, counts_ifu, counts_inst_flushed, counts_exu,
  counts_lsu, counts_icache_miss, counts_skip_cache, counts_idu, predicts, launches, receives,
  launch_on, receive_on, perf_call, perf_calls,
}

-- The calls that a figure counts.
abbrev pub is_ifu : PerfCall → Bool
is_ifu counts_ifu = true
is_ifu _ = false

abbrev pub is_inst : ℕ → PerfCall → Bool
is_inst kind (counts_idu fu_type) = fu_type == kind
is_inst kind _ = false

abbrev pub is_flush : PerfCall → Bool
is_flush counts_inst_flushed = true
is_flush _ = false

abbrev pub is_exu : PerfCall → Bool
is_exu counts_exu = true
is_exu _ = false

abbrev pub is_lsu : PerfCall → Bool
is_lsu counts_lsu = true
is_lsu _ = false

abbrev pub is_miss : PerfCall → Bool
is_miss counts_icache_miss = true
is_miss _ = false

abbrev pub is_skip : PerfCall → Bool
is_skip counts_skip_cache = true
is_skip _ = false

abbrev pub is_redirect : PerfCall → Bool
is_redirect (predicts redirect) = redirect
is_redirect _ = false

abbrev pub count : (PerfCall → Bool) → List PerfCall → ℕ
count p [] = 0
count p (x ∷ xs) = if p x then suc (count p xs) else count p xs

abbrev pub bump : Bool → ℕ → ℕ
bump true v = u64 (v + 1)
bump false v = v

abbrev pub bumps : List Bool → List ℕ → List ℕ
bumps [] vs = []
bumps (b ∷ bs) [] = []
bumps (b ∷ bs) (v ∷ vs) = bump b v ∷ bumps bs vs

abbrev pub figures : Counters → List ℕ
figures c =
    c.ifu_counter ∷ c.alu_inst_counter ∷ c.lsu_inst_counter ∷ c.bru_inst_counter
    ∷ c.csr_inst_counter ∷ c.inst_flushed_counter ∷ c.alu_counter ∷ c.lsu_counter
    ∷ c.icache_miss_counter ∷ c.icache_skip_counter ∷ c.miss_branch_prediction ∷ []

abbrev pub hits : PerfCall → List Bool
hits x =
    is_ifu x
    ∷ is_inst 0 x
    ∷ is_inst 1 x
    ∷ is_inst 2 x
    ∷ is_inst 3 x
    ∷ is_flush x
    ∷ is_exu x
    ∷ is_lsu x
    ∷ is_miss x
    ∷ is_skip x
    ∷ is_redirect x
    ∷ []

receive_on-figures :
    (bus : Bus) (cycle : ℕ) (c d : Counters)
    → receive_on bus cycle c ≡ done d
    → figures d ≡ figures c
unfolding receive_on ifu_recv_r_resp lsu_recv_r_resp lsu_recv_b_resp
receive_on-figures ifu_read cycle c d e =
    let (t, f, g) = bind-done (receive cycle c.ifu_r) _ d e in sym (ap figures (done_injective g))
receive_on-figures lsu_read cycle c d e =
    let (t, f, g) = bind-done (receive cycle c.lsu_r) _ d e in sym (ap figures (done_injective g))
receive_on-figures lsu_write cycle c d e =
    let (t, f, g) = bind-done (receive cycle c.lsu_w) _ d e in sym (ap figures (done_injective g))

launch_on-figures :
    (bus : Bus) (cycle : ℕ) (c : Counters) → figures (launch_on bus cycle c) ≡ figures c
unfolding launch_on ifu_launch_ar_req lsu_launch_ar_req lsu_launch_aw_req
launch_on-figures ifu_read cycle c = refl
launch_on-figures lsu_read cycle c = refl
launch_on-figures lsu_write cycle c = refl

idu-figures :
    (k : ℕ) (c : Counters) → figures (perf_count_idu k c) ≡ bumps (hits (counts_idu k)) (figures c)
unfolding perf_count_idu
idu-figures zero c = refl
idu-figures (suc zero) c = refl
idu-figures (suc (suc zero)) c = refl
idu-figures (suc (suc (suc zero))) c = refl
idu-figures (suc (suc (suc (suc k)))) c =
    let not_0 : (suc (suc (suc (suc k))) == 0) ≡ false = ground arith in
    let not_1 : (suc (suc (suc (suc k))) == 1) ≡ false = ground arith in
    let not_2 : (suc (suc (suc (suc k))) == 2) ≡ false = ground arith in
    let not_3 : (suc (suc (suc (suc k))) == 3) ≡ false = ground arith in
    rw (not_0, not_1, not_2, not_3) refl

pub perf_call-figures :
    (x : PerfCall) (c d : Counters)
    → perf_call x c ≡ done d
    → figures d ≡ bumps (hits x) (figures c)
unfolding perf_call perf_count_ifu perf_count_inst_flushed perf_count_exu perf_count_lsu
    perf_count_icache_miss perf_count_skip_cache perf_branch_prediction_accuracy
perf_call-figures counts_ifu c d e = sym (ap figures (done_injective e))
perf_call-figures counts_inst_flushed c d e = sym (ap figures (done_injective e))
perf_call-figures counts_exu c d e = sym (ap figures (done_injective e))
perf_call-figures counts_lsu c d e = sym (ap figures (done_injective e))
perf_call-figures counts_icache_miss c d e = sym (ap figures (done_injective e))
perf_call-figures counts_skip_cache c d e = sym (ap figures (done_injective e))
perf_call-figures (counts_idu k) c d e = sym (ap figures (done_injective e)) ∙ idu-figures k c
perf_call-figures (predicts true) c d e = sym (ap figures (done_injective e))
perf_call-figures (predicts false) c d e = sym (ap figures (done_injective e))
perf_call-figures (launches bus cycle) c d e =
    sym (ap figures (done_injective e)) ∙ launch_on-figures bus cycle c
perf_call-figures (receives bus cycle) c d e = receive_on-figures bus cycle c d e

-- A counter that a call either leaves or counts up counts these calls.
pub counts :
    (value : Counters → ℕ) (p : PerfCall → Bool)
    → ((x : PerfCall) (c d : Counters) → perf_call x c ≡ done d → value d ≡ bump (p x) (value c))
    → (xs : List PerfCall) (c d : Counters) (n : ℕ) → perf_calls xs c ≡ done d
    → value c ≡ u64 n
    → value d ≡ u64 (n + count p xs)
unfolding perf_calls
counts value p one [] c d n e h = sym (ap value (done_injective e)) ∙ h ∙ omega arith
counts value p one (x ∷ xs) c d n e h =
    let (m, f, g) = bind-done (perf_call x c) _ d e in
    elim (Bool-cases (p x)) [
      | inl y ↦
          let next : value m ≡ u64 (n + 1) = one x c m f ∙ rw y (omega (arith, h)) in
          rw y (counts value p one xs m d (n + 1) g next ∙ omega arith)
      | inr k ↦
          let next : value m ≡ u64 n = one x c m f ∙ rw k h in
          rw k (counts value p one xs m d n g next)
    ]
