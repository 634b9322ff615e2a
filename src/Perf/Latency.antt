-- ===== src/Perf/Latency.antt =====
-- The total latency of a channel after a history of requests and responses.
use fpga_npc.Base.{
  ℕ, zero, suc, ◌+◌, ◌%◌, ◌^◌, ◌≡◌, refl, ap, List, [], ◌∷◌, ◌++◌, Outcome, done, ◌>>=◌, arith,
  length, length-append, List-cases, inl, inr, List-cases, inl, inr, u64, sub64,
}
use fpga_npc.Perf.{Channel, launch, receive}

-- What happens on a channel, with its cycle.
pub data Event : Type 0 where
  requests : ℕ → Event
  responds : ℕ → Event

unfoldable pub step : Event → Channel → Outcome Channel
step (requests cycle) c = done (launch cycle c)
step (responds cycle) c = receive cycle c

unfoldable pub steps : List Event → Channel → Outcome Channel
steps [] c = done c
steps (e ∷ es) c = do d ← step e c; steps es d

-- The sums of the cycles of requests and of responses, and the number of responses.
abbrev pub sum : List ℕ → ℕ
sum [] = 0
sum (x ∷ xs) = x + sum xs

abbrev pub requested : List Event → ℕ
requested [] = 0
requested (requests cycle ∷ es) = cycle + requested es
requested (responds cycle ∷ es) = requested es

abbrev pub responded : List Event → ℕ
responded [] = 0
responded (requests cycle ∷ es) = responded es
responded (responds cycle ∷ es) = cycle + responded es

abbrev pub responses : List Event → ℕ
responses [] = 0
responses (requests cycle ∷ es) = responses es
responses (responds cycle ∷ es) = suc (responses es)

-- Every response has a request before it, when `pending` are open.
abbrev pub Answered : ℕ → List Event → Type 0
Answered pending [] = Unit
Answered pending (requests cycle ∷ es) = Answered (suc pending) es
Answered zero (responds cycle ∷ es) = ⊥
Answered (suc pending) (responds cycle ∷ es) = Answered pending es

sum-append : (xs : List ℕ) (y : ℕ) → sum (xs ++ y ∷ []) ≡ sum xs + y
sum-append [] y = omega arith
sum-append (x ∷ xs) y = omega (arith, sum-append xs y)

-- In a history of requests and responses on a channel in which every response has a request before
-- it, no call fails; the total latency grows by the sum of the response cycles less the cycles of
-- the requests answered, modulo 2 ^ 64, and each response is counted, modulo 2 ^ 64.
pub steps-latency :
    (es : List Event) (c : Channel)
    → Answered (length c.que) es
    → (d : Channel) × (steps es c ≡ done d)
      × ((d.latency_total + (sum c.que + requested es)) % 2 ^ 64
          ≡ (c.latency_total + (responded es + sum d.que)) % 2 ^ 64)
      × (d.req_counter % 2 ^ 64 ≡ (c.req_counter + responses es) % 2 ^ 64)
unfolding steps step launch receive
steps-latency [] c a = (c, refl, omega arith, omega arith)
steps-latency (requests cycle ∷ es) c a =
    let n : length (c.que ++ cycle ∷ []) ≡ suc (length c.que) =
      ground (arith, length-append c.que (cycle ∷ [])) in
    let (d, e, total, count) = steps-latency es (launch cycle c) (rw n a) in
    (d, e, omega (arith, total, sum-append c.que cycle), count)
steps-latency (responds cycle ∷ es) c a = elim (List-cases c.que) [
  | inl e ↦ absurd (rw e at a)
  | inr (q, rest, f) ↦
      let now : Channel = record {
        que = rest;
        req_counter = u64 (c.req_counter + 1);
        latency_total = u64 (c.latency_total + sub64 cycle q);
      } in
      let (d, e, total, count) = steps-latency es now (rw f at a) in
      let queued : sum c.que ≡ q + sum rest = ap sum f in
      (d, rw f e, omega (arith, total, queued), omega (arith, count))
]
