-- ===== src/Expr/Eval.antt =====
-- `check_parentheses`, `get_main_operation_index` and `eval` of csrc/sdb/expr.cpp.
-- An `int` is its bit pattern below 2 ^ 32, and its arithmetic wraps. A range of tokens is given by
-- its first index `p` and by `r`, the index behind its last one, so the `q` of the source is `r - 1`.
use fpga_npc.Base.{
  ℕ, zero, suc, ◌+◌, ◌-◌, ◌*◌, ◌/◌, ◌%◌, ◌^◌, Bool, true, false, ◌&&◌, ◌||◌, not, Option, none,
  some, List, [], ◌∷◌, min, ltb, leb, ◌==◌, if◌then◌else◌, Outcome, done, aborted, undefined,
  out_of_fuel, ◌>>=◌, u32, sub32, drop, take, get_or, length,
}
use fpga_npc.Reg.{Cpu, isa_reg_str2val}
use fpga_npc.Expr.{
  Token, zero_token, type_at, num, hex_num, reg_name, tk_or, tk_and, tk_eq, tk_ueq, tk_plus, tk_sub,
  tk_mult, tk_div, deref, tk_lbracket, tk_rbracket,
}

-- The loop of `check_parentheses` over the tokens from `p` to `q`: whether `cnt` ends at 0, and
-- `flag`. A bracket that closes none ends the loop with `cnt` below 0.
unfoldable pub paren_loop : ℕ → Bool → List Token → Bool × Bool
paren_loop cnt flag [] = (cnt == 0, flag)
paren_loop cnt flag (t ∷ ts) =
    let opened = paren_loop (cnt + 1) flag ts in
    let zero_inside = (cnt == 1) && not (length ts == 0) in
    let closed = paren_loop (cnt - 1) (flag || zero_inside) ts in
    let other = paren_loop cnt flag ts in
    if t.type == tk_lbracket
    then opened
    else if t.type == tk_rbracket
    then (if cnt == 0 then (false, flag) else closed)
    else other

-- The result, and what is stored in `*bad` (`none` where nothing is).
unfoldable pub check_parentheses : List Token → ℕ → ℕ → Bool × Option Bool
check_parentheses tokens p r =
    let (balanced, flag) = paren_loop 0 false (take (r - p) (drop p tokens)) in
    let whole = if balanced then (not flag, some false) else (false, some true) in
    if (type_at tokens p == tk_lbracket) && (type_at tokens (r - 1) == tk_rbracket)
    then whole
    else (false, none)

unfoldable pub is_operand : ℕ → Bool
is_operand t = (t == num) || (t == hex_num) || (t == reg_name)

-- The inner loop of `get_main_operation_index`: from a bracket to the one that closes it, or to
-- `nr_token` if none does.
unfoldable pub skip_loop : ℕ → ℕ → List Token → ℕ
skip_loop cnt j [] = j
skip_loop cnt j (t ∷ ts) =
    let cnt' =
      if t.type == tk_lbracket then cnt + 1 else if t.type == tk_rbracket then cnt - 1 else cnt in
    let on = skip_loop cnt' (j + 1) ts in if cnt' == 0 then j else on

unfoldable pub skip_bracket : List Token → ℕ → ℕ
skip_bracket tokens i = if type_at tokens i == tk_lbracket then skip_loop 0 i (drop i tokens) else i

-- Whether the token at `i` takes the place of the main operation found so far. Two types are of one
-- class if they differ in the lowest bit at most.
unfoldable pub takes_over : List Token → ℕ → ℕ → ℕ → Bool
takes_over tokens p main i =
    let t = type_at tokens i in
    let u = type_at tokens main in leb t u || (t / 2 == u / 2) || ((main == p) && is_operand u)

-- The loop `for (i = *p; i < *q; i++)`; each round goes up by one at least.
unfoldable pub main_loop : ℕ → List Token → ℕ → ℕ → ℕ → ℕ → Outcome ℕ
main_loop zero tokens p q main i = if ltb i q then out_of_fuel else done main
main_loop (suc fuel) tokens p q main i =
    let j = skip_bracket tokens i in
    let main' =
      if is_operand (type_at tokens i)
      then main
      else if takes_over tokens p main j
      then j
      else main in
    let i' = if is_operand (type_at tokens i) then i else j in
    let on = main_loop fuel tokens p q main' (i' + 1) in if ltb i q then on else done main

unfoldable pub get_main_operation_index : List Token → ℕ → ℕ → Outcome ℕ
get_main_operation_index tokens p r = main_loop (r - p) tokens p (r - 1) p p

-- `atoi` of the C library: the digits, with a sign, as a `long` that stays in range; then an `int`.
unfoldable pub decimal : ℕ → List ℕ → ℕ
decimal acc [] = acc
decimal acc (c ∷ s) =
    let on = decimal (10 * acc + (c - b'0')) s in if leb b'0' c && leb c b'9' then on else acc

unfoldable pub atoi : List ℕ → ℕ
atoi [] = 0
atoi (c ∷ s) =
    if c == b'-'
    then (2 ^ 64 - min (decimal 0 s) (2 ^ 63)) % 2 ^ 32
    else min (decimal 0 (c ∷ s)) (2 ^ 63 - 1) % 2 ^ 32

unfoldable pub hex_digit : ℕ → Option ℕ
hex_digit c =
    if leb b'0' c && leb c b'9'
    then some (c - b'0')
    else if leb b'a' c && leb c b'f'
    then some (c - b'a' + 10)
    else none

unfoldable pub hex_value : ℕ → List ℕ → ℕ
hex_value acc [] = acc
hex_value acc (c ∷ s) = elim (hex_digit c) [ none ↦ acc | some d ↦ hex_value (16 * acc + d) s ]

-- `sscanf(str, "%x", &result)` behind the prefix `0x`: the digits up to the first other character,
-- as an `unsigned long` that stays in range. With no digit `result` is left without a value.
hex_digits : List ℕ → Outcome ℕ
hex_digits [] = undefined
hex_digits (c ∷ s) = elim (hex_digit c) [
  | none ↦ undefined
  | some d ↦ done (min (hex_value 0 (c ∷ s)) (2 ^ 64 - 1) % 2 ^ 32)
]

unfoldable pub scan_hex : List ℕ → Outcome ℕ
unfolding hex_digits
scan_hex [] = undefined
scan_hex (a ∷ []) = undefined
scan_hex (a ∷ b ∷ s) = hex_digits s

-- A single token. The `switch` gives no value to any other type.
unfoldable pub eval_token : Cpu → Token → Outcome (ℕ × Bool)
eval_token c t =
    if t.type == num
    then done (atoi t.str, true)
    else if t.type == hex_num
    then (do v ← scan_hex t.str; done (v, true))
    else if t.type == reg_name
    then isa_reg_str2val c t.str
    else undefined

-- Division of `int`s truncates towards 0.
unfoldable pub magnitude : ℕ → ℕ
magnitude a = if ltb a (2 ^ 31) then a else 2 ^ 32 - a

unfoldable pub is_negative : ℕ → Bool
is_negative a = leb (2 ^ 31) a

unfoldable pub divide : ℕ → ℕ → Outcome ℕ
unfolding magnitude is_negative
divide a b =
    let q = magnitude a / magnitude b in
    let same_sign =
      (is_negative a && is_negative b) || (not (is_negative a) && not (is_negative b)) in
    if (a == 2 ^ 31) && (b == 2 ^ 32 - 1)
    then undefined
    else if same_sign
    then done (q % 2 ^ 32)
    else done ((2 ^ 32 - q) % 2 ^ 32)

abbrev pub truth : Bool → ℕ
truth true = 1
truth false = 0

-- The `switch` on the main operation.
unfoldable pub apply_operation : ℕ → ℕ → ℕ → Bool → Outcome (ℕ × Bool)
apply_operation t a b success =
    if t == tk_plus
    then done (u32 (a + b), success)
    else if t == tk_sub
    then done (sub32 a b, success)
    else if t == tk_mult
    then done (u32 (a * b), success)
    else if t == tk_div
    then (if b == 0 then done (0, false) else (do q ← divide a b; done (q, success)))
    else if t == deref
    then (if leb 0x80000000 b && leb b 0x8fffffff then done (0, success) else done (0, false))
    else if t == tk_eq
    then done (truth (a == b), success)
    else if t == tk_ueq
    then done (truth (not (a == b)), success)
    else if t == tk_and
    then done (truth (not (a == 0) && not (b == 0)), success)
    else if t == tk_or
    then done (truth (not (a == 0) || not (b == 0)), success)
    else aborted

-- `eval`: the value and `*success`. The fuel bounds the depth of the recursive calls.
unfoldable pub eval : Cpu → List Token → ℕ → ℕ → ℕ → Bool → Outcome (ℕ × Bool)
eval c tokens zero p r success = out_of_fuel
eval c tokens (suc fuel) p r success =
    let inside = eval c tokens fuel (p + 1) (r - 1) success in
    let operation = get_main_operation_index tokens p r >>= λ op.
    eval c tokens fuel p op success >>= λ (value1, success1).
    eval c tokens fuel (op + 1) r success1 >>= λ (value2, success2).
    apply_operation (type_at tokens op) value1 value2 success2 in
    if leb r p && ltb 0 r
    then done (0, false)
    else if r == 0
    then done (0, success)
    else if p + 1 == r
    then eval_token c (get_or tokens p zero_token)
    else elim (check_parentheses tokens p r).0 [ true ↦ inside | false ↦ operation ]
