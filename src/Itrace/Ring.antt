-- ===== src/Itrace/Ring.antt =====
-- What the ring buffer holds after any number of instructions.
use fpga_npc.Base.{
  ℕ, suc, ◌+◌, ◌%◌, ◌<◌, ◌≤◌, ◌≡◌, refl, sym, ap, ◌∙◌, Bool, true, false, List, [], ◌∷◌, ◌++◌, map,
  ◌==◌, ltb, if◌then◌else◌, done, ◌>>=◌, arith, subst, All, u32, codes, length, length-append,
  length-set, set, drop, take, replicate,
}
use mathlib.Core.List.{append_assoc, append-nil}
use fpga_npc.Itrace.{
  Itrace, itrace_start, log_line, write_line, trace_inst, trace_insts, ring_lines, ringbuf_print,
}
use fpga_npc.Itrace.Rotation.{rotate, drop-drop, drop-append, split-at, rotate-set, rotate-wraps}
use fpga_npc.Itrace.Line.{Shown, event_of, line_of, Short, log_line-sizes}

-- The newest twenty of twenty empty lines and these.
abbrev pub newest_20 : List (List ℕ) → List (List ℕ)
newest_20 lines = drop (length lines) (replicate 20 [] ++ lines)

newest_20-append :
    (lines : List (List ℕ)) (line : List ℕ)
    → newest_20 (lines ++ line ∷ []) ≡ drop 1 (newest_20 lines ++ line ∷ [])
newest_20-append lines line =
    let n = length lines in
    let blank : List (List ℕ) = replicate 20 [] in
    let short : n ≤ length (blank ++ lines) = omega (arith, length-append blank lines) in
    let one_more : length (lines ++ line ∷ []) ≡ suc n =
      omega (arith, length-append lines (line ∷ [])) in
    ap (λ k. drop k (blank ++ lines ++ line ∷ [])) one_more
    ∙ sym (drop-drop n (blank ++ lines ++ line ∷ []))
    ∙ ap (λ r. drop 1 (drop n r)) (sym (append_assoc blank lines (line ∷ [])))
    ∙ ap (drop 1) (drop-append n (blank ++ lines) (line ∷ []) short)

-- The buffer, read from behind the marker on, is the newest twenty lines.
record Shows (s : Itrace) (lines : List (List ℕ)) : Type 0 where
  size : length s.iringbuff ≡ 20
  in_order : rotate (u32 (s.iringbuff_index + 1) % 20) s.iringbuff ≡ newest_20 lines
  logged : s.log ≡ lines

start-Shows : Shows itrace_start []
start-Shows = record { size = refl; in_order = refl; logged = refl }

write_line-Shows :
    (g_print_step : Bool) (line : List ℕ) (s : Itrace) (lines : List (List ℕ))
    → Shows s lines
    → (t : Itrace) × (write_line g_print_step line s ≡ done t)
      × Shows t (lines ++ line ∷ [])
      × (t.iringbuff_index < 20)
unfolding write_line
write_line-Shows g_print_step line s lines h =
    let i = u32 (s.iringbuff_index + 1) % 20 in
    let below : i < 20 = omega arith in
    let in_range : ltb i 20 ≡ true = ground (arith, below) in
    let small : i < length s.iringbuff = omega (arith, below, h.size) in
    let size : length (set s.iringbuff i line) ≡ 20 = length-set s.iringbuff i line ∙ h.size in
    let behind : u32 (i + 1) % 20 ≡ suc i % 20 = omega (arith, below) in
    let turned : rotate (u32 (i + 1) % 20) (set s.iringbuff i line)
        ≡ newest_20 (lines ++ line ∷ []) =
      ap (λ j. rotate j (set s.iringbuff i line)) behind
      ∙ rotate-wraps i (set s.iringbuff i line) below size
      ∙ rotate-set i s.iringbuff line small
      ∙ ap (λ r. drop 1 (r ++ line ∷ [])) h.in_order
      ∙ sym (newest_20-append lines line) in
    (
      record {
        iringbuff = set s.iringbuff i line;
        iringbuff_index = i;
        log = s.log ++ line ∷ [];
        terminal = if g_print_step then s.terminal ++ line ∷ [] else s.terminal;
      },
      rw in_range refl,
      record { size = size; in_order = turned; logged = ap (λ r. r ++ line ∷ []) h.logged },
      below,
    )

trace_inst-Shows :
    (g_print_step : Bool) (x : Shown) (s : Itrace) (lines : List (List ℕ))
    → Short x
    → Shows s lines
    → (t : Itrace) × (trace_inst g_print_step (event_of x) s ≡ done t)
      × Shows t (lines ++ line_of x ∷ [])
      × (t.iringbuff_index < 20)
unfolding trace_inst
trace_inst-Shows g_print_step x s lines (not_tab, short) h =
    let small : ltb (length (x.first ∷ x.rest)) 104 ≡ true = ground (arith, short) in
    let line : log_line (event_of x).printed x.pc x.inst ≡ done (line_of x) =
      log_line-sizes x.tabs x.first x.rest x.pc x.inst not_tab ∙ rw small refl in
    let (t, e, shows, below) = write_line-Shows g_print_step (line_of x) s lines h in
    (t, rw (line, ◌>>=◌) e, shows, below)

trace_insts-Shows :
    (g_print_step : Bool) (xs : List Shown) (s : Itrace) (lines : List (List ℕ))
    → All Short xs
    → Shows s lines
    → s.iringbuff_index < 20
    → (t : Itrace) × (trace_insts g_print_step (map event_of xs) s ≡ done t)
      × Shows t (lines ++ map line_of xs)
      × (t.iringbuff_index < 20)
unfolding trace_insts
trace_insts-Shows g_print_step [] s lines a h b =
    (s, refl, subst (λ r. Shows s r) (sym (append-nil lines)) h, b)
trace_insts-Shows g_print_step (x ∷ xs) s lines (short, a) h b =
    let (t, e, shows, below) = trace_inst-Shows g_print_step x s lines short h in
    let (u, f, all, under) =
      trace_insts-Shows g_print_step xs t (lines ++ line_of x ∷ []) a shows below in
    (
      u,
      rw (e, ◌>>=◌) f,
      subst (λ r. Shows u r) (append_assoc lines (line_of x ∷ []) (map line_of xs)) all,
      under,
    )

ring_lines-others :
    (index i : ℕ) (lines : List (List ℕ))
    → index < i
    → ring_lines index i lines ≡ map (λ l. codes "    " ++ l) lines
unfolding ring_lines
ring_lines-others index i [] h = refl
ring_lines-others index i (line ∷ lines) h =
    let other : (i == index) ≡ false = ground (arith, h) in
    rw (other, ring_lines-others index (suc i) lines (omega (arith, h))) refl

ring_lines-marks :
    (i : ℕ) (before : List (List ℕ)) (newest : List ℕ) (behind : List (List ℕ))
    → ring_lines (i + length before) i (before ++ newest ∷ behind)
      ≡ map (λ l. codes "    " ++ l) before
        ++ (codes "--> " ++ newest) ∷ map (λ l. codes "    " ++ l) behind
unfolding ring_lines
ring_lines-marks i [] newest behind =
    let here : (i == i + 0) ≡ true = ground arith in
    rw (here, ring_lines-others (i + 0) (suc i) behind (omega arith)) refl
ring_lines-marks i (line ∷ before) newest behind =
    let other : (i == i + suc (length before)) ≡ false = ground arith in
    let there : i + suc (length before) ≡ suc i + length before = omega arith in
    rw other (
      ap (λ k. (codes "    " ++ line) ∷ ring_lines k (suc i) (before ++ newest ∷ behind)) there
      ∙ ap (λ r. (codes "    " ++ line) ∷ r) (ring_lines-marks (suc i) before newest behind))

-- The lines of the terminal, from behind the marker around to it, are the newest ones.
abbrev pub Marks : List (List ℕ) → List (List ℕ) → Type 0
Marks terminal newest =
    (before : List (List ℕ)) × (last : List ℕ) × (behind : List (List ℕ)) × (terminal
      ≡ map (λ l. codes "    " ++ l) before
        ++ (codes "--> " ++ last) ∷ map (λ l. codes "    " ++ l) behind)
    × (behind ++ (before ++ last ∷ []) ≡ newest)

ringbuf_print-Marks :
    (s : Itrace) (lines : List (List ℕ))
    → Shows s lines
    → s.iringbuff_index < 20
    → Marks (ringbuf_print s) (newest_20 lines)
unfolding ringbuf_print
ringbuf_print-Marks s lines h under =
    let i = s.iringbuff_index in
    let (last, parts, up_to, count) = split-at i s.iringbuff (omega (arith, under, h.size)) in
    let before : List (List ℕ) = take i s.iringbuff in
    let behind : List (List ℕ) = drop (suc i) s.iringbuff in
    let next : suc i % 20 ≡ u32 (i + 1) % 20 = omega (arith, under) in
    let place : i ≡ 0 + length before = omega (arith, count) in
    let printed : ring_lines i 0 (before ++ last ∷ behind)
        ≡ map (λ l. codes "    " ++ l) before
          ++ (codes "--> " ++ last) ∷ map (λ l. codes "    " ++ l) behind =
      ap (λ k. ring_lines k 0 (before ++ last ∷ behind)) place
      ∙ ring_lines-marks 0 before last behind in
    let ordered : behind ++ (before ++ last ∷ []) ≡ newest_20 lines =
      ap (λ r. behind ++ r) (sym up_to)
      ∙ sym (rotate-wraps i s.iringbuff under h.size)
      ∙ ap (λ j. rotate j s.iringbuff) next
      ∙ h.in_order in
    (before, last, behind, ap (ring_lines i 0) parts ∙ printed, ordered)

-- For one or more instructions whose disassembly, behind its leading tabs, has at most 103
-- characters, the trace succeeds, the log gets a line for each in order, and ringbuf_print shows
-- 20 lines, one with the marker: read from behind the marker around to it, they are the newest
-- twenty of twenty empty lines followed by the lines of the instructions.
pub ringbuf_print-newest :
    (g_print_step : Bool) (x : Shown) (xs : List Shown)
    → All Short (x ∷ xs)
    → (s : Itrace) × (trace_insts g_print_step (map event_of (x ∷ xs)) itrace_start ≡ done s)
      × (s.log ≡ map line_of (x ∷ xs))
      × Marks (ringbuf_print s) (newest_20 (map line_of (x ∷ xs)))
unfolding trace_insts
ringbuf_print-newest g_print_step x xs (short, a) =
    let (t, e, shows, below) = trace_inst-Shows g_print_step x itrace_start [] short start-Shows in
    let (s, f, all, under) = trace_insts-Shows g_print_step xs t (line_of x ∷ []) a shows below in
    let marks = ringbuf_print-Marks s (map line_of (x ∷ xs)) all under in
    (s, rw (e, ◌>>=◌) f, all.logged, marks)
