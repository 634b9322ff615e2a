-- ===== src/Expr/Reading.antt =====
-- `make_token` reads a printed list of tokens back.
use mathlib.Core.List.{append_assoc, append-nil}
use fpga_npc.Base.{
  ℕ, zero, suc, ◌+◌, ◌*◌, ◌<◌, ◌≤◌, ◌≡◌, refl, ap, sym, ◌∙◌, Bool, true, false, ◌||◌, some, List,
  [], ◌∷◌, ◌++◌, ◌==◌, leb, done, codes, length, length-append, arith,
}
use fpga_npc.Expr.{Token, token, tk_notype, num, hex_num, reg_name, tk_mult, tk_rbracket}
use fpga_npc.Expr.Lexer.{
  is_digit, regexec, rules, try_rules, last_type, push, starts_with_minus, num_token, star_token,
  add_token, token_loop,
}
use fpga_npc.Expr.Printing.{
  Readable, digits, hex_digits, register, reads_or, reads_and, reads_eq, reads_ueq, reads_plus,
  reads_sub, reads_mult, reads_div, reads_lbracket, reads_rbracket, spell, print, many-some,
  try_rules-some, try_rules-spell,
}

-- The tokens behind which a star multiplies.
abbrev pub closes : ℕ → Bool
closes t = (t == num) || (t == tk_rbracket) || (t == hex_num) || (t == reg_name)

-- Readable tokens, where each `tk_mult` stands behind an operand or a closing bracket; the first one
-- does if the flag says so.
abbrev pub Written : Bool → List Token → Type 0
Written b [] = Unit
Written b (t ∷ ts) =
    Readable t × ((t.type == tk_mult) ≡ true → b ≡ true) × Written (closes t.type) ts

push-done :
    (tokens : List Token) (t : Token)
    → length tokens < 1024
    → push tokens t ≡ done (tokens ++ t ∷ [])
unfolding push
push-done tokens t h = ground arith

last_type-append : (tokens : List Token) (t : Token) → last_type (tokens ++ t ∷ []) ≡ t.type
unfolding last_type
last_type-append [] t = refl
last_type-append (u ∷ []) t = refl
last_type-append (u ∷ v ∷ tokens) t = last_type-append (v ∷ tokens) t

star_token-mult :
    (tokens : List Token)
    → length tokens < 1024
    → closes (last_type tokens) ≡ true
    → star_token tokens ≡ done (tokens ++ token tk_mult ∷ [])
unfolding star_token last_type
star_token-mult [] h k = ground (arith, k)
star_token-mult (t ∷ tokens) h k =
    let nonempty : (length (t ∷ tokens) == 0) ≡ false = ground arith in
    rw (nonempty, k, push-done (t ∷ tokens) (token tk_mult) h) refl

num_token-digits :
    (tokens : List Token) (c : ℕ) (s : List ℕ)
    → length tokens < 1024
    → is_digit c ≡ true
    → length (c ∷ s) < 32
    → num_token tokens (c ∷ s) ≡ done (tokens ++ record { type = num; str = c ∷ s } ∷ [])
unfolding num_token starts_with_minus
num_token-digits tokens c s h d l =
    let no_minus : (c == b'-') ≡ false = unfold is_digit in ground (arith, d) in
    let short : leb 32 (length (c ∷ s)) ≡ false = ground (arith, l) in
    rw (short, no_minus, push-done tokens (record { type = num; str = c ∷ s }) h) (ground arith)

add_token-spell :
    {t : Token} (tokens : List Token)
    → Readable t
    → length tokens < 1024
    → ((t.type == tk_mult) ≡ true → closes (last_type tokens) ≡ true)
    → add_token tokens t.type (spell t) ≡ done (tokens ++ t ∷ [])
unfolding add_token
add_token-spell tokens (digits {c} {s} d l) h k = num_token-digits tokens c s h d.0 l
add_token-spell tokens (hex_digits {c} {s} d l) h k =
    let short : leb 32 (length (b'0' ∷ b'x' ∷ c ∷ s)) ≡ false = ground (arith, l) in
    rw short (push-done tokens _ h)
add_token-spell tokens (register a b) h k = push-done tokens _ h
add_token-spell tokens reads_or h k = push-done tokens _ h
add_token-spell tokens reads_and h k = push-done tokens _ h
add_token-spell tokens reads_eq h k = push-done tokens _ h
add_token-spell tokens reads_ueq h k = push-done tokens _ h
add_token-spell tokens reads_plus h k = push-done tokens _ h
add_token-spell tokens reads_sub h k = push-done tokens _ h
add_token-spell tokens reads_mult h k = star_token-mult tokens h (k refl)
add_token-spell tokens reads_div h k = push-done tokens _ h
add_token-spell tokens reads_lbracket h k = push-done tokens _ h
add_token-spell tokens reads_rbracket h k = push-done tokens _ h

pub spell-starts :
    {t : Token} → Readable t → (c : ℕ) × (s : List ℕ) × (spell t ≡ c ∷ s) × ((c == b' ') ≡ false)
spell-starts (digits {c} {s} d l) = (c, s, refl, unfold is_digit in ground (arith, d.0))
spell-starts (hex_digits {c} {s} d l) = (b'0', b'x' ∷ c ∷ s, refl, refl)
spell-starts (register {a} {b} x y) = (b'$', a ∷ b ∷ [], refl, refl)
spell-starts reads_or = (b'|', codes "|", refl, refl)
spell-starts reads_and = (b'&', codes "&", refl, refl)
spell-starts reads_eq = (b'=', codes "=", refl, refl)
spell-starts reads_ueq = (b'!', codes "=", refl, refl)
spell-starts reads_plus = (b'+', [], refl, refl)
spell-starts reads_sub = (b'-', [], refl, refl)
spell-starts reads_mult = (b'*', [], refl, refl)
spell-starts reads_div = (b'/', [], refl, refl)
spell-starts reads_lbracket = (b'(', [], refl, refl)
spell-starts reads_rbracket = (b')', [], refl, refl)

-- The one space between two tokens.
one_space :
    (b : Bool) (ts : List Token)
    → Written b ts
    → try_rules rules (b' ' ∷ print ts) ≡ some (tk_notype, b' ' ∷ [], print ts)
unfolding rules
one_space b [] w = unfold try_rules regexec in refl
one_space b (t ∷ ts) w =
    let (c, s, e, n) = spell-starts w.0 in
    let text = s ++ b' ' ∷ print ts in
    rw e (
      try_rules-some _ _ _ (b' ' ∷ c ∷ text) (b' ' ∷ []) (c ∷ text)
        (many-some (λ c. c == b' ') b' ' [] c text (refl, tt) n))

no_rule : (type : ℕ) (text rest : List ℕ) → try_rules rules [] ≡ some (type, text, rest) → ⊥
unfolding try_rules rules regexec
no_rule type text rest e = ground arith

token_loop-step :
    (fuel type : ℕ) (s text rest : List ℕ) (tokens tokens' : List Token)
    → try_rules rules s ≡ some (type, text, rest)
    → add_token tokens type text ≡ done tokens'
    → token_loop (suc fuel) s tokens ≡ token_loop fuel rest tokens'
unfolding token_loop
token_loop-step fuel type [] text rest tokens tokens' e a = absurd (no_rule type text rest e)
token_loop-step fuel type (c ∷ s) text rest tokens tokens' e a = rw (e, token_loop, a) refl

pub token_loop-print :
    (fuel : ℕ) (b : Bool) (ts tokens : List Token)
    → Written b ts
    → closes (last_type tokens) ≡ b
    → 2 * length ts ≤ fuel
    → length tokens + length ts ≤ 1024
    → token_loop fuel (print ts) tokens ≡ done (some (tokens ++ ts))
token_loop-print fuel b [] tokens w e f l =
    unfold token_loop in ap (λ l. done (some l)) (sym (append-nil tokens))
token_loop-print zero b (t ∷ ts) tokens w e f l = absurd (omega arith)
token_loop-print (suc zero) b (t ∷ ts) tokens w e f l = absurd (omega arith)
token_loop-print (suc (suc fuel)) b (t ∷ ts) tokens w e f l =
    let added = add_token-spell tokens w.0 (omega arith) (λ m. e ∙ w.1 m) in
    let skips : add_token (tokens ++ t ∷ []) tk_notype (b' ' ∷ []) ≡ done (tokens ++ t ∷ []) =
      unfold add_token in refl in
    token_loop-step (suc fuel) t.type (print (t ∷ ts)) (spell t) (b' ' ∷ print ts) tokens
      (tokens ++ t ∷ []) (try_rules-spell (print ts) w.0) added
    ∙ token_loop-step fuel tk_notype (b' ' ∷ print ts) (b' ' ∷ []) (print ts) (tokens ++ t ∷ [])
        (tokens ++ t ∷ []) (one_space (closes t.type) ts w.2) skips
    ∙ token_loop-print fuel (closes t.type) ts (tokens ++ t ∷ []) w.2
        (ap closes (last_type-append tokens t)) (omega arith)
        (omega (arith, length-append tokens (t ∷ [])))
    ∙ ap (λ l. done (some l)) (append_assoc tokens (t ∷ []) ts)
