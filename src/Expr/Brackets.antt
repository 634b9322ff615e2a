-- ===== src/Expr/Brackets.antt =====
-- Balanced token lists, and the two loops that count brackets.
use fpga_npc.Base.{
  ℕ, suc, ◌+◌, ◌≡◌, refl, ap, ◌∙◌, Bool, true, false, List, [], ◌∷◌, ◌++◌, ◌==◌, arith, length,
  length-append,
}
use mathlib.Core.List.{append_assoc}
use fpga_npc.Expr.{Token, token, tk_lbracket, tk_rbracket}
use fpga_npc.Expr.Eval.{paren_loop, skip_loop}

abbrev pub IsPlain : Token → Type 0
IsPlain t = ((t.type == tk_lbracket) ≡ false) × ((t.type == tk_rbracket) ≡ false)

pub data Balanced : List Token → Type 0 where
  nil : Balanced []
  plain : {t : Token} {ts : List Token} → IsPlain t → Balanced ts → Balanced (t ∷ ts)
  group :
      {inner ts : List Token}
      → Balanced inner
      → Balanced ts
      → Balanced (token tk_lbracket ∷ inner ++ token tk_rbracket ∷ ts)

pub Balanced-append : {xs ys : List Token} → Balanced xs → Balanced ys → Balanced (xs ++ ys)
Balanced-append nil b = b
Balanced-append (plain h a) b = plain h (Balanced-append a b)
Balanced-append {ys = ys} (group {inner} {ts} i a) b =
    rw (append_assoc inner (token tk_rbracket ∷ ts) ys) (group i (Balanced-append a b))

abbrev pub lb : Token
lb = token tk_lbracket

abbrev pub rb : Token
rb = token tk_rbracket

pub paren_loop-open :
    (k : ℕ) (flag : Bool) (ts : List Token)
    → paren_loop k flag (lb ∷ ts) ≡ paren_loop (suc k) flag ts
unfolding paren_loop
paren_loop-open k flag ts = ap (λ m. paren_loop m flag ts) (omega arith)

paren_loop-close :
    (k : ℕ) (flag : Bool) (ts : List Token)
    → paren_loop (suc (suc k)) flag (rb ∷ ts) ≡ paren_loop (suc k) flag ts
unfolding paren_loop
paren_loop-close k flag ts = ground arith

paren_loop-close_flagged :
    (k : ℕ) (ts : List Token) → paren_loop (suc k) true (rb ∷ ts) ≡ paren_loop k true ts
unfolding paren_loop
paren_loop-close_flagged k ts = ground arith

-- A group in front, with the brackets moved to where the loops meet them.
regroup :
    (inner ts rest : List Token)
    → (lb ∷ inner ++ rb ∷ ts) ++ rest ≡ lb ∷ (inner ++ rb ∷ (ts ++ rest))
regroup inner ts rest = ap (◌∷◌ lb) (append_assoc inner (rb ∷ ts) rest)

-- Inside of a bracket the loop of `check_parentheses` goes past a balanced part.
pub paren_loop-inside :
    (k : ℕ) (flag : Bool) {xs : List Token} (rest : List Token)
    → Balanced xs
    → paren_loop (suc k) flag (xs ++ rest) ≡ paren_loop (suc k) flag rest
unfolding paren_loop
paren_loop-inside k flag rest nil = refl
paren_loop-inside k flag rest (plain {t} h b) = rw (h.0, h.1) (paren_loop-inside k flag rest b)
paren_loop-inside k flag rest (group {inner} {ts} i b) =
    ap (paren_loop (suc k) flag) (regroup inner ts rest)
    ∙ paren_loop-open (suc k) flag (inner ++ rb ∷ (ts ++ rest))
    ∙ paren_loop-inside (suc k) flag (rb ∷ (ts ++ rest)) i
    ∙ paren_loop-close k flag (ts ++ rest)
    ∙ paren_loop-inside k flag rest b

-- Once the flag is set, the loop goes past a balanced part everywhere.
pub paren_loop-flagged :
    (k : ℕ) {xs : List Token} (rest : List Token)
    → Balanced xs
    → paren_loop k true (xs ++ rest) ≡ paren_loop k true rest
unfolding paren_loop
paren_loop-flagged k rest nil = refl
paren_loop-flagged k rest (plain {t} h b) = rw (h.0, h.1) (paren_loop-flagged k rest b)
paren_loop-flagged k rest (group {inner} {ts} i b) =
    ap (paren_loop k true) (regroup inner ts rest)
    ∙ paren_loop-open k true (inner ++ rb ∷ (ts ++ rest))
    ∙ paren_loop-flagged (suc k) (rb ∷ (ts ++ rest)) i
    ∙ paren_loop-close_flagged k (ts ++ rest)
    ∙ paren_loop-flagged k rest b

pub skip_loop-open :
    (k j : ℕ) (ts : List Token) → skip_loop k j (lb ∷ ts) ≡ skip_loop (suc k) (j + 1) ts
unfolding skip_loop
skip_loop-open k j ts = ground arith

skip_loop-close :
    (k j : ℕ) (ts : List Token) → skip_loop (suc (suc k)) j (rb ∷ ts) ≡ skip_loop (suc k) (j + 1) ts
unfolding skip_loop
skip_loop-close k j ts = ground arith

skip_loop-plain :
    (k j : ℕ) (t : Token) (ts : List Token)
    → IsPlain t
    → skip_loop (suc k) j (t ∷ ts) ≡ skip_loop (suc k) (j + 1) ts
unfolding skip_loop
skip_loop-plain k j t ts h = ground arith

-- The skipping loop goes past a balanced part that stands inside of the bracket.
pub skip_loop-inside :
    (k j : ℕ) {xs : List Token} (rest : List Token)
    → Balanced xs
    → skip_loop (suc k) j (xs ++ rest) ≡ skip_loop (suc k) (j + length xs) rest
unfolding skip_loop
skip_loop-inside k j rest nil = ap (λ m. skip_loop (suc k) m rest) (omega arith)
skip_loop-inside k j rest (plain {t} {ts} h b) =
    skip_loop-plain k j t (ts ++ rest) h
    ∙ skip_loop-inside k (j + 1) rest b
    ∙ ap (λ m. skip_loop (suc k) m rest) (omega arith)
skip_loop-inside k j rest (group {inner} {ts} i b) =
    ap (skip_loop (suc k) j) (regroup inner ts rest)
    ∙ skip_loop-open (suc k) j (inner ++ rb ∷ (ts ++ rest))
    ∙ skip_loop-inside (suc k) (j + 1) (rb ∷ (ts ++ rest)) i
    ∙ skip_loop-close k (j + 1 + length inner) (ts ++ rest)
    ∙ skip_loop-inside k (j + 1 + length inner + 1) rest b
    ∙ ap (λ m. skip_loop (suc k) m rest) (omega (arith, length-append inner (rb ∷ ts)))

skip_loop-last : (j : ℕ) (ts : List Token) → skip_loop 1 j (rb ∷ ts) ≡ j
unfolding skip_loop
skip_loop-last j ts = refl

-- From a bracket the loop comes to the one that closes it.
pub skip_loop-group :
    (j : ℕ) {inner : List Token} (rest : List Token)
    → Balanced inner
    → skip_loop 0 j (lb ∷ inner ++ rb ∷ rest) ≡ j + length inner + 1
skip_loop-group j {inner} rest b =
    skip_loop-open 0 j (inner ++ rb ∷ rest)
    ∙ skip_loop-inside 0 (j + 1) (rb ∷ rest) b
    ∙ skip_loop-last (j + 1 + length inner) rest
    ∙ omega arith
