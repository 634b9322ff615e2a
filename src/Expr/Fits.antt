-- ===== src/Expr/Fits.antt =====
-- How much `make_token` of csrc/sdb/expr.cpp writes into the array of tokens and into the text of a token.
use mathlib.Core.List.{tail}
use fpga_npc.Base.{
  ℕ, zero, suc, ◌≤◌, ◌<◌, ◌≡◌, refl, Bool, true, false, Option, none, some, List, [], ◌∷◌, ◌++◌,
  ◌==◌, ltb, leb, ◌||◌, Outcome, done, aborted, ◌>>=◌, if◌then◌else◌, Ends, bind-Ends, arith,
  length, length-append, All, Bool-cases, inl, inr,
}
use fpga_npc.Expr.{
  Token, token, num, hex_num, reg_name, tk_notype, tk_mult, tk_sub, tk_rbracket, deref,
}
use fpga_npc.Expr.Lexer.{
  rules, try_rules, push, num_token, star_token, add_token, last_type, token_loop, make_token,
}
use fpga_npc.Expr.Matches.{Taken, try_rules-Taken, rules-Sound}

-- The array, and the text of each token in it, which a terminator ends.
abbrev pub Fits : List Token → Type 0
Fits tokens = (length tokens ≤ 1024) × All (λ t. length t.str < 32) tokens

All-append :
    (P : Token → Type 0) (ts : List Token) (t : Token) → All P ts → P t → All P (ts ++ t ∷ [])
All-append P [] t a p = (p, tt)
All-append P (u ∷ ts) t a p = (a.0, All-append P ts t a.1 p)

push-Fits : (ts : List Token) (t : Token) → Fits ts → length t.str < 32 → Ends Fits (push ts t)
unfolding push
push-Fits ts t f l = elim (Bool-cases (ltb (length ts) 1024)) [
  | inl y ↦
      rw y (
        (ground (arith, length-append ts (t ∷ []))),
        All-append (λ t. length t.str < 32) ts t f.1 l,
      )
  | inr n ↦ rw n tt
]

tail-length : (s : List ℕ) → length (tail s) ≤ length s
tail-length [] = omega arith
tail-length (c ∷ s) = omega arith

if-Ends :
    (b : Bool) (x y : Outcome (List Token))
    → (b ≡ true → Ends Fits x)
    → (b ≡ false → Ends Fits y)
    → Ends Fits (if b then x else y)
if-Ends true x y f g = f refl
if-Ends false x y f g = g refl

num_token-Fits : (ts : List Token) (text : List ℕ) → Fits ts → Ends Fits (num_token ts text)
unfolding num_token
num_token-Fits ts text f =
    if-Ends (leb 32 (length text)) aborted _ (λ y. tt)
      (λ n.
        let small : length text < 32 = ground (arith, n) in
        let number : List ℕ → Token = λ s. record { type = num; str = s } in
        if-Ends _ (push ts (token tk_sub) >>= λ more. push more (number (tail text)))
          (push ts (number text))
          (λ y.
            bind-Ends Fits Fits (push ts (token tk_sub)) _
              (push-Fits ts (token tk_sub) f (omega arith))
              (λ more g.
                push-Fits more (number (tail text)) g (omega (arith, tail-length text, small))))
          (λ y. push-Fits ts (number text) f small))

star_token-Fits : (ts : List Token) → Fits ts → Ends Fits (star_token ts)
unfolding star_token
star_token-Fits ts f =
    let pushed = λ (t : ℕ). push-Fits ts (token t) f (omega arith) in
    let t = last_type ts in
    let after_operand = (t == num) || (t == tk_rbracket) || (t == hex_num) || (t == reg_name) in
    let star = if after_operand then push ts (token tk_mult) else push ts (token deref) in
    if-Ends (length ts == 0) (push ts (token deref)) star (λ y. pushed deref)
      (λ n.
        if-Ends after_operand (push ts (token tk_mult)) (push ts (token deref))
          (λ y. pushed tk_mult) (λ y. pushed deref))

add_token-Fits :
    (ts : List Token) (type : ℕ) (text : List ℕ)
    → Fits ts
    → (type ≡ reg_name → length text ≤ 31)
    → Ends Fits (add_token ts type text)
unfolding add_token
add_token-Fits ts type text f name =
    let text_token : ℕ → List ℕ → Token = λ t s. record { type = t; str = s } in
    if-Ends (type == num) (num_token ts text) _ (λ y. num_token-Fits ts text f)
      (λ n.
        if-Ends (type == hex_num) _ _
          (λ y.
            if-Ends (leb 32 (length text)) aborted (push ts (text_token hex_num text)) (λ z. tt)
              (λ z. push-Fits ts (text_token hex_num text) f (ground (arith, z))))
          (λ n.
            if-Ends (type == reg_name) (push ts (text_token reg_name (tail text))) _
              (λ y.
                push-Fits ts (text_token reg_name (tail text)) f (
                  let e : type ≡ 259 = ground (arith, y) in
                  omega (arith, name e, tail-length text)))
              (λ n.
                if-Ends (type == tk_notype) (done ts) _ (λ y. f)
                  (λ n.
                    if-Ends (type == tk_mult) (star_token ts) (push ts (token type))
                      (λ y. star_token-Fits ts f)
                      (λ n. push-Fits ts (token type) f (omega arith))))))

-- A token array, if there is one, that fits.
abbrev pub Tokens : Option (List Token) → Type 0
Tokens none = Unit
Tokens (some ts) = Fits ts

round-Fits :
    (fuel l : ℕ) (ts : List Token) (m : Option (ℕ × List ℕ × List ℕ))
    → l ≤ suc fuel
    → Fits ts
    → Taken l m
    → ((rest : List ℕ) (more : List Token)
        → length rest ≤ fuel
        → Fits more
        → Ends Tokens (token_loop fuel rest more))
    → Ends Tokens (elim m [
      | none ↦ done none
      | some (t, text, rest) ↦ add_token ts t text >>= λ more. token_loop fuel rest more
    ])
round-Fits fuel l ts none p f h on = tt
round-Fits fuel l ts (some (t, text, rest)) p f h on =
    bind-Ends Fits Tokens (add_token ts t text) _ (add_token-Fits ts t text f h.1)
      (λ more g. on rest more (omega (arith, h.0, p)) g)

token_loop-Fits :
    (fuel : ℕ) (s : List ℕ) (ts : List Token)
    → length s ≤ fuel
    → Fits ts
    → Ends Tokens (token_loop fuel s ts)
unfolding token_loop
token_loop-Fits fuel [] ts l f = f
token_loop-Fits zero (c ∷ s) ts l f = absurd (omega arith)
token_loop-Fits (suc fuel) (c ∷ s) ts l f =
    round-Fits fuel (length (c ∷ s)) ts (try_rules rules (c ∷ s)) l f
      (try_rules-Taken rules (c ∷ s) rules-Sound)
      (λ rest more p g. token_loop-Fits fuel rest more p g)

-- make_token never runs out of fuel: it fails an assert, meets the end of the array of tokens,
-- finds no rule, or gives at most 1024 tokens whose texts have fewer than 32 characters each.
pub make_token-Fits : (e : List ℕ) → Ends Tokens (make_token e)
unfolding make_token
make_token-Fits e = token_loop-Fits (length e) e [] (omega arith) (omega arith, tt)
