-- ===== src/Expr/Lexer.antt =====
-- `rules` and `make_token` of csrc/sdb/expr.cpp. The regular expressions are matched as POSIX says:
-- the longest match at the position.
use fpga_npc.Base.{
  ℕ, zero, suc, Bool, false, ◌&&◌, ◌||◌, Option, none, some, List, [], ◌∷◌, ◌++◌, ltb, leb, ◌==◌,
  if◌then◌else◌, Outcome, done, aborted, undefined, out_of_fuel, ◌>>=◌, codes, length,
}
use mathlib.Core.List.{tail}
use fpga_npc.Expr.{
  Token, token, max_tokens, tk_notype, num, hex_num, reg_name, tk_or, tk_and, tk_eq, tk_ueq,
  tk_plus, tk_sub, tk_mult, tk_div, deref, tk_lbracket, tk_rbracket,
}

unfoldable pub is_digit : ℕ → Bool
is_digit c = leb b'0' c && leb c b'9'

-- `[0-9|a-f]`: the bar is a member of the class.
unfoldable pub is_hex : ℕ → Bool
unfolding is_digit
is_hex c = is_digit c || (c == b'|') || (leb b'a' c && leb c b'f')

-- `[a-z0-9]`
unfoldable pub is_name : ℕ → Bool
unfolding is_digit
is_name c = (leb b'a' c && leb c b'z') || is_digit c

-- The parts of the expressions in `rules`.
pub data Regex : Type 0 where
  eps : Regex
  one : (ℕ → Bool) → Regex → Regex
  maybe : ℕ → Regex → Regex
  many : (ℕ → Bool) → Regex → Regex

-- The longest run of a class, and what is left.
abbrev pub span : (ℕ → Bool) → List ℕ → List ℕ × List ℕ
span p [] = ([], [])
span p (c ∷ s) = let (run, rest) = span p s in if p c then (c ∷ run, rest) else ([], c ∷ s)

-- `regexec` with a match at offset 0: the text of the match and what is left. No class of a rule
-- shares a character with what follows it, so the longest runs give the longest match.
abbrev pub prepend : List ℕ → Option (List ℕ × List ℕ) → Option (List ℕ × List ℕ)
prepend t none = none
prepend t (some (u, rest)) = some (t ++ u, rest)

unfoldable pub regexec : Regex → List ℕ → Option (List ℕ × List ℕ)
regexec eps s = some ([], s)
regexec (one p r) [] = none
regexec (one p r) (c ∷ s) = let m = prepend (c ∷ []) (regexec r s) in if p c then m else none
regexec (maybe k r) [] = regexec r []
regexec (maybe k r) (c ∷ s) =
    let with_it = prepend (c ∷ []) (regexec r s) in
    let without = regexec r (c ∷ s) in if c == k then with_it else without
regexec (many p r) s =
    let (run, rest) = span p s in
    let m = prepend run (regexec r rest) in elim run [ [] ↦ none | _ ∷ _ ↦ m ]

abbrev literal : List ℕ → Regex
literal [] = eps
literal (c ∷ s) = one (λ d. d == c) (literal s)

pub record Rule : Type 0 where
  pub regex : Regex
  pub token_type : ℕ

abbrev rule : Regex → ℕ → Rule
rule r t = record { regex = r; token_type = t }

unfoldable pub rules : List Rule
unfolding is_hex is_digit is_name
rules =
    rule (many (λ c. c == b' ') eps) tk_notype
    ∷ rule (one (λ c. c == b'0') (one (λ c. c == b'x') (many is_hex eps))) hex_num
    ∷ rule (maybe b'-' (many is_digit eps)) num
    ∷ rule (one (λ c. c == b'$') (one is_name (one is_name eps))) reg_name
    ∷ rule (literal (codes "(")) tk_lbracket
    ∷ rule (literal (codes ")")) tk_rbracket
    ∷ rule (literal (codes "+")) tk_plus
    ∷ rule (literal (codes "-")) tk_sub
    ∷ rule (literal (codes "*")) tk_mult
    ∷ rule (literal (codes "/")) tk_div
    ∷ rule (literal (codes "==")) tk_eq
    ∷ rule (literal (codes "!=")) tk_ueq
    ∷ rule (literal (codes "&&")) tk_and
    ∷ rule (literal (codes "||")) tk_or
    ∷ []

-- The first rule that matches: its token type, the text and what is left.
unfoldable pub try_rules : List Rule → List ℕ → Option (ℕ × List ℕ × List ℕ)
unfolding regexec
try_rules [] s = none
try_rules (r ∷ rs) s = elim (regexec r.regex s) [
  | none ↦ try_rules rs s
  | some (t, rest) ↦ some (r.token_type, t, rest)
]

-- `tokens[nr_token - 1].type`; 0 stands for an empty array, which the source tests first.
unfoldable pub last_type : List Token → ℕ
last_type [] = 0
last_type (t ∷ []) = t.type
last_type (t ∷ u ∷ ts) = last_type (u ∷ ts)

-- `tokens[nr_token++] = …`: a write behind the array is undefined.
unfoldable pub push : List Token → Token → Outcome (List Token)
push tokens t = if ltb (length tokens) max_tokens then done (tokens ++ t ∷ []) else undefined

unfoldable pub starts_with_minus : List ℕ → Bool
starts_with_minus [] = false
starts_with_minus (c ∷ s) = c == b'-'

-- The case `NUM`: a minus after a number or a bracket, or at the start, is a token of its own.
unfoldable pub num_token : List Token → List ℕ → Outcome (List Token)
unfolding push starts_with_minus
num_token tokens text =
    let after_operand =
      (length tokens == 0) || (last_type tokens == num) || (last_type tokens == tk_rbracket) in
    if leb 32 (length text)
    then aborted
    else if after_operand && starts_with_minus text
    then (do
      tokens' ← push tokens (token tk_sub)
      push tokens' (record { type = num; str = tail text }))
    else push tokens (record { type = num; str = text })

-- The case `TK_MULT`: a star after an operand multiplies, any other is a dereference.
unfoldable pub star_token : List Token → Outcome (List Token)
unfolding push
star_token tokens =
    let t = last_type tokens in
    if length tokens == 0
    then push tokens (token deref)
    else if (t == num) || (t == tk_rbracket) || (t == hex_num) || (t == reg_name)
    then push tokens (token tk_mult)
    else push tokens (token deref)

-- The `switch` on the type of the rule that matched.
unfoldable pub add_token : List Token → ℕ → List ℕ → Outcome (List Token)
unfolding num_token star_token push
add_token tokens t text =
    if t == num
    then num_token tokens text
    else if t == hex_num
    then (if leb 32 (length text)
        then aborted
        else push tokens (record { type = hex_num; str = text }))
    else if t == reg_name
    then push tokens (record { type = reg_name; str = tail text })
    else if t == tk_notype
    then done tokens
    else if t == tk_mult
    then star_token tokens
    else push tokens (token t)

-- The loop of `make_token`: `none` where no rule matches. A match is never empty, so the length of
-- the text is enough fuel.
unfoldable pub token_loop : ℕ → List ℕ → List Token → Outcome (Option (List Token))
token_loop fuel [] tokens = done (some tokens)
token_loop zero (c ∷ s) tokens = out_of_fuel
token_loop (suc fuel) (c ∷ s) tokens = elim (try_rules rules (c ∷ s)) [
  | none ↦ done none
  | some (t, text, rest) ↦ do tokens' ← add_token tokens t text; token_loop fuel rest tokens'
]

unfoldable pub make_token : List ℕ → Outcome (Option (List Token))
make_token e = token_loop (length e) e []
