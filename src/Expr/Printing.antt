-- ===== src/Expr/Printing.antt =====
-- Tokens written as a text, and how the rules of the lexer match it.
use mathlib.Core.List.{append-nil}
use fpga_npc.Base.{
  ℕ, ◌<◌, ◌≡◌, refl, ap, ◌∙◌, Bool, true, false, ◌||◌, none, some, List, [], ◌∷◌, ◌++◌, ◌==◌,
  if◌then◌else◌, codes, length, All, arith, Bool-cases, inl, inr,
}
use fpga_npc.Expr.{
  Token, token, num, hex_num, reg_name, tk_or, tk_and, tk_eq, tk_ueq, tk_plus, tk_sub, tk_mult,
  tk_div, tk_lbracket, tk_rbracket,
}
use fpga_npc.Expr.Lexer.{
  Regex, eps, one, maybe, many, Rule, is_digit, is_hex, is_name, span, regexec, rules, try_rules,
}

-- The tokens that a text can give without a look at what stands before them, and `tk_mult`.
pub data Readable : Token → Type 0 where
  digits :
      {c : ℕ} {s : List ℕ}
      → All (λ d. is_digit d ≡ true) (c ∷ s)
      → length (c ∷ s) < 32
      → Readable (record { type = num; str = c ∷ s })
  hex_digits :
      {c : ℕ} {s : List ℕ}
      → All (λ d. is_hex d ≡ true) (c ∷ s)
      → length (c ∷ s) < 30
      → Readable (record { type = hex_num; str = b'0' ∷ b'x' ∷ c ∷ s })
  register :
      {a b : ℕ}
      → is_name a ≡ true
      → is_name b ≡ true
      → Readable (record { type = reg_name; str = a ∷ b ∷ [] })
  reads_or : Readable (token tk_or)
  reads_and : Readable (token tk_and)
  reads_eq : Readable (token tk_eq)
  reads_ueq : Readable (token tk_ueq)
  reads_plus : Readable (token tk_plus)
  reads_sub : Readable (token tk_sub)
  reads_mult : Readable (token tk_mult)
  reads_div : Readable (token tk_div)
  reads_lbracket : Readable (token tk_lbracket)
  reads_rbracket : Readable (token tk_rbracket)

abbrev sign_of : ℕ → List ℕ
sign_of t =
    if t == tk_or
    then codes "||"
    else if t == tk_and
    then codes "&&"
    else if t == tk_eq
    then codes "=="
    else if t == tk_ueq
    then codes "!="
    else if t == tk_plus
    then codes "+"
    else if t == tk_sub
    then codes "-"
    else if t == tk_mult
    then codes "*"
    else if t == tk_div
    then codes "/"
    else if t == tk_lbracket
    then codes "("
    else codes ")"

abbrev pub spell : Token → List ℕ
spell t =
    if (t.type == num) || (t.type == hex_num)
    then t.str
    else if t.type == reg_name
    then b'$' ∷ t.str
    else sign_of t.type

-- Every token with a space behind it.
abbrev pub print : List Token → List ℕ
print [] = []
print (t ∷ ts) = spell t ++ b' ' ∷ print ts

span-run :
    (p : ℕ → Bool) (s : List ℕ) (c : ℕ) (rest : List ℕ)
    → All (λ d. p d ≡ true) s
    → p c ≡ false
    → span p (s ++ c ∷ rest) ≡ (s, c ∷ rest)
span-run p [] c rest h e = rw e refl
span-run p (d ∷ s) c rest h e = rw (h.0, span-run p s c rest h.1 e) refl

many-none : (p : ℕ → Bool) (c : ℕ) (s : List ℕ) → p c ≡ false → regexec (many p eps) (c ∷ s) ≡ none
unfolding regexec
many-none p c s e = rw (e, regexec) refl

many-run :
    (p : ℕ → Bool) (text : List ℕ) (d : ℕ) (s rest : List ℕ)
    → span p text ≡ (d ∷ s, rest)
    → regexec (many p eps) text ≡ some (d ∷ s, rest)
unfolding regexec
many-run p text d s rest e =
    let run = ap (λ w. w.0) e in
    rw (run, regexec, run, ap (λ w. w.1) e) (ap (λ l. some (d ∷ l, rest)) (append-nil s))

pub many-some :
    (p : ℕ → Bool) (d : ℕ) (s : List ℕ) (c : ℕ) (rest : List ℕ)
    → All (λ x. p x ≡ true) (d ∷ s)
    → p c ≡ false
    → regexec (many p eps) (d ∷ s ++ c ∷ rest) ≡ some (d ∷ s, c ∷ rest)
many-some p d s c rest h e =
    many-run p (d ∷ s ++ c ∷ rest) d s (c ∷ rest) (span-run p (d ∷ s) c rest h e)

one-none :
    (p : ℕ → Bool) (r : Regex) (c : ℕ) (s : List ℕ) → p c ≡ false → regexec (one p r) (c ∷ s) ≡ none
unfolding regexec
one-none p r c s e = rw (e, regexec) refl

one-some :
    (p : ℕ → Bool) (r : Regex) (c : ℕ) (s u rest : List ℕ)
    → p c ≡ true
    → regexec r s ≡ some (u, rest)
    → regexec (one p r) (c ∷ s) ≡ some (c ∷ u, rest)
unfolding regexec
one-some p r c s u rest e f = rw (e, regexec, f) refl

one_rest-none :
    (p : ℕ → Bool) (r : Regex) (c : ℕ) (s : List ℕ)
    → regexec r s ≡ none
    → regexec (one p r) (c ∷ s) ≡ none
unfolding regexec
one_rest-none p r c s f = elim (Bool-cases (p c)) [
  | inl y ↦ rw (y, regexec, f) refl
  | inr n ↦ rw (n, regexec) refl
]

maybe-skip :
    (k : ℕ) (r : Regex) (c : ℕ) (s : List ℕ)
    → (c == k) ≡ false
    → regexec (maybe k r) (c ∷ s) ≡ regexec r (c ∷ s)
unfolding regexec
maybe-skip k r c s e = rw (e, regexec) refl

pub try_rules-none :
    (x : Regex) (t : ℕ) (rs : List Rule) (s : List ℕ)
    → regexec x s ≡ none
    → try_rules (record { regex = x; token_type = t } ∷ rs) s ≡ try_rules rs s
unfolding try_rules
try_rules-none x t rs s e = rw (e, try_rules) refl

pub try_rules-some :
    (x : Regex) (t : ℕ) (rs : List Rule) (s u rest : List ℕ)
    → regexec x s ≡ some (u, rest)
    → try_rules (record { regex = x; token_type = t } ∷ rs) s ≡ some (t, u, rest)
unfolding try_rules
try_rules-some x t rs s u rest e = rw (e, try_rules) refl

-- A number is no hexadecimal one: what follows its first digit is no `x`.
no_x :
    (s rest : List ℕ) (r : Regex)
    → All (λ d. is_digit d ≡ true) s
    → regexec (one (λ c. c == b'x') r) (s ++ b' ' ∷ rest) ≡ none
no_x [] rest r h = one-none (λ c. c == b'x') r b' ' rest refl
no_x (c ∷ s) rest r h =
    one-none (λ c. c == b'x') r c (s ++ b' ' ∷ rest) (unfold is_digit in ground (arith, h.0))

try_rules-digits :
    (c : ℕ) (s rest : List ℕ)
    → All (λ d. is_digit d ≡ true) (c ∷ s)
    → try_rules rules (c ∷ s ++ b' ' ∷ rest) ≡ some (num, c ∷ s, b' ' ∷ rest)
unfolding rules
try_rules-digits c s rest h =
    let text = c ∷ s ++ b' ' ∷ rest in
    let no_space : (c == b' ') ≡ false = unfold is_digit in ground (arith, h.0) in
    let no_minus : (c == b'-') ≡ false = unfold is_digit in ground (arith, h.0) in
    let run = many-some is_digit c s b' ' rest h (unfold is_digit in refl) in
    try_rules-none _ _ _ text (many-none (λ c. c == b' ') c (s ++ b' ' ∷ rest) no_space)
    ∙ try_rules-none _ _ _ text
        (one_rest-none (λ c. c == b'0') _ c (s ++ b' ' ∷ rest) (no_x s rest _ h.1))
    ∙ try_rules-some _ _ _ text (c ∷ s) (b' ' ∷ rest)
        (maybe-skip b'-' (many is_digit eps) c (s ++ b' ' ∷ rest) no_minus ∙ run)

try_rules-hex_digits :
    (c : ℕ) (s rest : List ℕ)
    → All (λ d. is_hex d ≡ true) (c ∷ s)
    → try_rules rules (b'0' ∷ b'x' ∷ c ∷ s ++ b' ' ∷ rest)
      ≡ some (hex_num, b'0' ∷ b'x' ∷ c ∷ s, b' ' ∷ rest)
unfolding rules
try_rules-hex_digits c s rest h =
    let behind = c ∷ s ++ b' ' ∷ rest in
    let text = b'0' ∷ b'x' ∷ behind in
    let run = many-some is_hex c s b' ' rest h (unfold is_hex is_digit in refl) in
    try_rules-none _ _ _ text (many-none (λ c. c == b' ') b'0' (b'x' ∷ behind) refl)
    ∙ try_rules-some _ _ _ text (b'0' ∷ b'x' ∷ c ∷ s) (b' ' ∷ rest) (
        one-some (λ c. c == b'0') (one (λ c. c == b'x') (many is_hex eps)) b'0' (b'x' ∷ behind) _ _
          refl (one-some (λ c. c == b'x') (many is_hex eps) b'x' behind _ _ refl run))

try_rules-register :
    (a b : ℕ) (rest : List ℕ)
    → is_name a ≡ true
    → is_name b ≡ true
    → try_rules rules (b'$' ∷ a ∷ b ∷ b' ' ∷ rest) ≡ some (reg_name, b'$' ∷ a ∷ b ∷ [], b' ' ∷ rest)
unfolding rules
try_rules-register a b rest ha hb =
    let behind = a ∷ b ∷ b' ' ∷ rest in
    let text = b'$' ∷ behind in
    let no_digit : is_digit b'$' ≡ false = unfold is_digit in refl in
    let ends : regexec eps (b' ' ∷ rest) ≡ some ([], b' ' ∷ rest) = unfold regexec in refl in
    try_rules-none _ _ _ text (many-none (λ c. c == b' ') b'$' behind refl)
    ∙ try_rules-none _ _ _ text (one-none (λ c. c == b'0') _ b'$' behind refl)
    ∙ try_rules-none _ _ _ text (
        maybe-skip b'-' (many is_digit eps) b'$' behind refl
        ∙ many-none is_digit b'$' behind no_digit)
    ∙ try_rules-some _ _ _ text (b'$' ∷ a ∷ b ∷ []) (b' ' ∷ rest) (
        one-some (λ c. c == b'$') (one is_name (one is_name eps)) b'$' behind _ _ refl
          (one-some is_name (one is_name eps) a (b ∷ b' ' ∷ rest) _ _ ha
            (one-some is_name eps b (b' ' ∷ rest) _ _ hb ends)))

pub try_rules-spell :
    {t : Token} (rest : List ℕ)
    → Readable t
    → try_rules rules (spell t ++ b' ' ∷ rest) ≡ some (t.type, spell t, b' ' ∷ rest)
unfolding try_rules rules regexec is_digit is_hex is_name
try_rules-spell rest (digits {c} {s} h l) = try_rules-digits c s rest h
try_rules-spell rest (hex_digits {c} {s} h l) = try_rules-hex_digits c s rest h
try_rules-spell rest (register {a} {b} ha hb) = try_rules-register a b rest ha hb
try_rules-spell rest reads_or = refl
try_rules-spell rest reads_and = refl
try_rules-spell rest reads_eq = refl
try_rules-spell rest reads_ueq = refl
try_rules-spell rest reads_plus = refl
try_rules-spell rest reads_sub = refl
try_rules-spell rest reads_mult = refl
try_rules-spell rest reads_div = refl
try_rules-spell rest reads_lbracket = refl
try_rules-spell rest reads_rbracket = refl
