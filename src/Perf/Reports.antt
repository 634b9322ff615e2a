-- ===== src/Perf/Reports.antt =====
-- The channels after a history of calls.
use fpga_npc.Base.{
  ℕ, suc, ◌+◌, ◌≡◌, refl, sym, ap, ap₂, ◌∙◌, Bool, true, false, List, [], ◌∷◌, ◌++◌, if◌then◌else◌,
  done, arith, inl, inr, u64, sub64, length, length-append, List-cases, subst,
}
use fpga_npc.Perf.{
  Counters, Channel, launch, receive, ifu_launch_ar_req, ifu_recv_r_resp, lsu_launch_ar_req,
  lsu_recv_r_resp, lsu_launch_aw_req, lsu_recv_b_resp,
}
use fpga_npc.Perf.Latency.{Event, requests, responds, step, steps, Answered}
use fpga_npc.Perf.Statistic.{
  Bus, ifu_read, lsu_read, lsu_write, PerfCall, launches, receives, launch_on, receive_on,
  perf_call, perf_calls,
}

abbrev pub channel : Bus → Counters → Channel
channel ifu_read c = c.ifu_r
channel lsu_read c = c.lsu_r
channel lsu_write c = c.lsu_w

abbrev same_bus : Bus → Bus → Bool
same_bus ifu_read ifu_read = true
same_bus lsu_read lsu_read = true
same_bus lsu_write lsu_write = true
same_bus _ _ = false

-- What a call does on a bus.
abbrev pub event_on : Bus → PerfCall → List Event
event_on bus (launches other cycle) = if same_bus bus other then requests cycle ∷ [] else []
event_on bus (receives other cycle) = if same_bus bus other then responds cycle ∷ [] else []
event_on bus _ = []

abbrev pub on : Bus → List PerfCall → List Event
on bus [] = []
on bus (x ∷ xs) = event_on bus x ++ on bus xs

pub all_buses {ℓ} : (P : Bus → Type ℓ) → P ifu_read → P lsu_read → P lsu_write → (bus : Bus) → P bus
all_buses P a b c ifu_read = a
all_buses P a b c lsu_read = b
all_buses P a b c lsu_write = c

-- Every response of the history has a request before it.
abbrev pub AllAnswered : List PerfCall → Counters → Type 0
AllAnswered xs c = (bus : Bus) → Answered (length (channel bus c).que) (on bus xs)

-- The history ends, and each channel has gone through its part.
abbrev pub Runs : List PerfCall → Counters → Type 0
Runs xs c =
    (d : Counters) × (perf_calls xs c ≡ done d)
    × ((bus : Bus) → steps (on bus xs) (channel bus c) ≡ done (channel bus d))

receive-Answered :
    (cycle : ℕ) (c : Channel) (es : List Event)
    → Answered (length c.que) (responds cycle ∷ es)
    → (m : Channel) × (receive cycle c ≡ done m) × Answered (length m.que) es
unfolding receive
receive-Answered cycle c es a = elim (List-cases c.que) [
  | inl e ↦ absurd (rw e at a)
  | inr (q, rest, f) ↦ (
    record {
      que = rest;
      req_counter = u64 (c.req_counter + 1);
      latency_total = u64 (c.latency_total + sub64 cycle q);
    },
    rw f refl,
    rw f at a,
  )
]

launched-length : (cycle : ℕ) (c : Channel) → suc (length c.que) ≡ length (launch cycle c).que
unfolding launch
launched-length cycle c = omega (arith, length-append c.que (cycle ∷ []))

-- A call that is on no bus.
pub kept :
    (x : PerfCall) (xs : List PerfCall) (c d : Counters)
    → perf_call x c ≡ done d
    → ((bus : Bus) → event_on bus x ≡ [])
    → ((bus : Bus) → channel bus d ≡ channel bus c)
    → (AllAnswered xs d → Runs xs d)
    → AllAnswered (x ∷ xs) c
    → Runs (x ∷ xs) c
unfolding perf_calls
kept x xs c d e none_on same run a =
    let rest : (bus : Bus) → on bus (x ∷ xs) ≡ on bus xs =
      λ bus. ap (λ es. es ++ on bus xs) (none_on bus) in
    let (u, f, g) = run (λ bus.
      subst (λ k. Answered (length k.que) (on bus xs)) (sym (same bus))
        (subst (Answered (length (channel bus c).que)) (rest bus) (a bus))) in
    (u, rw e f, λ bus. ap₂ (λ es k. steps es k) (rest bus) (sym (same bus)) ∙ g bus)

pub launched :
    (bus : Bus) (cycle : ℕ) (xs : List PerfCall) (c : Counters)
    → ((d : Counters) → AllAnswered xs d → Runs xs d)
    → AllAnswered (launches bus cycle ∷ xs) c
    → Runs (launches bus cycle ∷ xs) c
unfolding perf_calls perf_call launch_on ifu_launch_ar_req lsu_launch_ar_req lsu_launch_aw_req steps
    step
launched ifu_read cycle xs c run a =
    let next =
      subst (λ n. Answered n (on ifu_read xs)) (launched-length cycle c.ifu_r) (a ifu_read) in
    let (d, e, f) = run (ifu_launch_ar_req cycle c) (
      all_buses (λ b. Answered (length (channel b (ifu_launch_ar_req cycle c)).que) (on b xs)) next
        (a lsu_read) (a lsu_write)) in
    (d, e, all_buses _ (f ifu_read) (f lsu_read) (f lsu_write))
launched lsu_read cycle xs c run a =
    let next =
      subst (λ n. Answered n (on lsu_read xs)) (launched-length cycle c.lsu_r) (a lsu_read) in
    let (d, e, f) = run (lsu_launch_ar_req cycle c) (
      all_buses (λ b. Answered (length (channel b (lsu_launch_ar_req cycle c)).que) (on b xs))
        (a ifu_read) next (a lsu_write)) in
    (d, e, all_buses _ (f ifu_read) (f lsu_read) (f lsu_write))
launched lsu_write cycle xs c run a =
    let next =
      subst (λ n. Answered n (on lsu_write xs)) (launched-length cycle c.lsu_w) (a lsu_write) in
    let (d, e, f) = run (lsu_launch_aw_req cycle c) (
      all_buses (λ b. Answered (length (channel b (lsu_launch_aw_req cycle c)).que) (on b xs))
        (a ifu_read) (a lsu_read) next) in
    (d, e, all_buses _ (f ifu_read) (f lsu_read) (f lsu_write))

pub received :
    (bus : Bus) (cycle : ℕ) (xs : List PerfCall) (c : Counters)
    → ((d : Counters) → AllAnswered xs d → Runs xs d)
    → AllAnswered (receives bus cycle ∷ xs) c
    → Runs (receives bus cycle ∷ xs) c
unfolding perf_calls perf_call receive_on ifu_recv_r_resp lsu_recv_r_resp lsu_recv_b_resp steps step
received ifu_read cycle xs c run a =
    let (m, got, next) = receive-Answered cycle c.ifu_r (on ifu_read xs) (a ifu_read) in
    let u = record c { ifu_r = m } in
    let (d, e, f) = run u (
      all_buses (λ b. Answered (length (channel b u).que) (on b xs)) next (a lsu_read)
        (a lsu_write)) in
    (d, rw got e, all_buses _ (rw got (f ifu_read)) (f lsu_read) (f lsu_write))
received lsu_read cycle xs c run a =
    let (m, got, next) = receive-Answered cycle c.lsu_r (on lsu_read xs) (a lsu_read) in
    let u = record c { lsu_r = m } in
    let (d, e, f) = run u (
      all_buses (λ b. Answered (length (channel b u).que) (on b xs)) (a ifu_read) next
        (a lsu_write)) in
    (d, rw got e, all_buses _ (f ifu_read) (rw got (f lsu_read)) (f lsu_write))
received lsu_write cycle xs c run a =
    let (m, got, next) = receive-Answered cycle c.lsu_w (on lsu_write xs) (a lsu_write) in
    let u = record c { lsu_w = m } in
    let (d, e, f) = run u (
      all_buses (λ b. Answered (length (channel b u).que) (on b xs)) (a ifu_read) (a lsu_read)
        next) in
    (d, rw got e, all_buses _ (f ifu_read) (f lsu_read) (rw got (f lsu_write)))
