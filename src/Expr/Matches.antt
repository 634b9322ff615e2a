-- ===== src/Expr/Matches.antt =====
-- How long the matches of the rules of csrc/sdb/expr.cpp are.
use fpga_npc.Base.{
  ℕ, zero, suc, ◌+◌, ◌≤◌, ◌<◌, ◌≡◌, refl, Bool, true, false, Option, none, some, List, [], ◌∷◌,
  ◌==◌, arith, length, length-append, All, Bool-cases, inl, inr,
}
use fpga_npc.Expr.{reg_name}
use fpga_npc.Expr.Lexer.{
  Regex, eps, one, maybe, many, Rule, span, prepend, regexec, rules, try_rules,
}

-- The least number of characters of a match.
abbrev shortest : Regex → ℕ
shortest eps = 0
shortest (one p r) = suc (shortest r)
shortest (maybe k r) = shortest r
shortest (many p r) = suc (shortest r)

-- No match has more than `n` characters.
abbrev short : ℕ → Regex → Bool
short n eps = true
short zero (one p r) = false
short (suc n) (one p r) = short n r
short zero (maybe k r) = false
short (suc n) (maybe k r) = short n r
short n (many p r) = false

-- A match and what is left make up the text.
abbrev Match : Regex → ℕ → Option (List ℕ × List ℕ) → Type 0
Match r l none = Unit
Match r l (some (t, rest)) =
    (length t + length rest ≡ l)
    × (shortest r ≤ length t)
    × ((n : ℕ) → short n r ≡ true → length t ≤ n)

span-length : (p : ℕ → Bool) (s : List ℕ) → length (span p s).0 + length (span p s).1 ≡ length s
span-length p [] = refl
span-length p (c ∷ s) = elim (Bool-cases (p c)) [
  | inl y ↦ rw y (omega (arith, span-length p s))
  | inr n ↦ rw n (omega arith)
]

short-suc : (n : ℕ) (r : Regex) → short n r ≡ true → short (suc n) r ≡ true
short-suc n eps e = refl
short-suc zero (one p r) e = absurd (ground (arith, e))
short-suc (suc n) (one p r) e = short-suc n r e
short-suc zero (maybe k r) e = absurd (ground (arith, e))
short-suc (suc n) (maybe k r) e = short-suc n r e
short-suc n (many p r) e = absurd (ground (arith, e))

short-one :
    (p : ℕ → Bool) (r : Regex) (l : ℕ)
    → ((n : ℕ) → short n r ≡ true → l ≤ n)
    → (n : ℕ) → short n (one p r) ≡ true
    → suc l ≤ n
short-one p r l h zero e = absurd (ground (arith, e))
short-one p r l h (suc n) e = omega (arith, h n e)

short-maybe :
    (k : ℕ) (r : Regex) (l : ℕ)
    → ((n : ℕ) → short n r ≡ true → l ≤ n)
    → (n : ℕ) → short n (maybe k r) ≡ true
    → suc l ≤ n
short-maybe k r l h zero e = absurd (ground (arith, e))
short-maybe k r l h (suc n) e = omega (arith, h n e)

-- A match behind one more character.
one-Match :
    (p : ℕ → Bool) (r : Regex) (l c : ℕ) (m : Option (List ℕ × List ℕ))
    → Match r l m
    → Match (one p r) (suc l) (prepend (c ∷ []) m)
one-Match p r l c none h = tt
one-Match p r l c (some (t, rest)) h =
    (omega (arith, h.0), omega (arith, h.1), short-one p r (length t) h.2)

with-Match :
    (k : ℕ) (r : Regex) (l c : ℕ) (m : Option (List ℕ × List ℕ))
    → Match r l m
    → Match (maybe k r) (suc l) (prepend (c ∷ []) m)
with-Match k r l c none h = tt
with-Match k r l c (some (t, rest)) h =
    (omega (arith, h.0), omega (arith, h.1), short-maybe k r (length t) h.2)

without-Match :
    (k : ℕ) (r : Regex) (l : ℕ) (m : Option (List ℕ × List ℕ)) → Match r l m → Match (maybe k r) l m
without-Match k r l none h = tt
without-Match k r l (some (t, rest)) h =
    (h.0, h.1, λ n e. omega (arith, short-maybe k r (length t) h.2 n e))

many-Match :
    (p : ℕ → Bool) (r : Regex) (run rest : List ℕ) (l : ℕ) (m : Option (List ℕ × List ℕ))
    → length run + length rest ≡ l
    → Match r (length rest) m
    → Match (many p r) l (let found = prepend run m in elim run [ [] ↦ none | _ ∷ _ ↦ found ])
many-Match p r [] rest l m e h = tt
many-Match p r (c ∷ run) rest l none e h = tt
many-Match p r (c ∷ run) rest l (some (t, left)) e h =
    let appended = length-append run t in
    (
      omega (arith, e, h.0, appended),
      omega (arith, h.1, appended),
      λ n x. absurd (ground (arith, x)),
    )

regexec-Match : (r : Regex) (s : List ℕ) → Match r (length s) (regexec r s)
unfolding regexec
regexec-Match eps s = (omega arith, omega arith, λ n e. omega arith)
regexec-Match (one p r) [] = tt
regexec-Match (one p r) (c ∷ s) = elim (Bool-cases (p c)) [
  | inl y ↦ rw y (one-Match p r (length s) c (regexec r s) (regexec-Match r s))
  | inr n ↦ rw n tt
]
regexec-Match (maybe k r) [] = without-Match k r 0 (regexec r []) (regexec-Match r [])
regexec-Match (maybe k r) (c ∷ s) = elim (Bool-cases (c == k)) [
  | inl y ↦ rw y (with-Match k r (length s) c (regexec r s) (regexec-Match r s))
  | inr n ↦ rw n (without-Match k r (length (c ∷ s)) (regexec r (c ∷ s)) (regexec-Match r (c ∷ s)))
]
regexec-Match (many p r) s =
    many-Match p r (span p s).0 (span p s).1 (length s) (regexec r (span p s).1) (span-length p s)
      (regexec-Match r (span p s).1)

-- What the rules keep to: no match is empty, and the name of a register is short.
abbrev Sound : Rule → Type 0
Sound r = (0 < shortest r.regex) × ((r.token_type ≡ reg_name) → short 31 r.regex ≡ true)

-- A match of a rule: it takes something from the text.
abbrev pub Taken : ℕ → Option (ℕ × List ℕ × List ℕ) → Type 0
Taken l none = Unit
Taken l (some (type, t, rest)) = (length rest < l) × (type ≡ reg_name → length t ≤ 31)

rule-Taken :
    (r : Rule) (l : ℕ) (m : Option (List ℕ × List ℕ)) (on : Option (ℕ × List ℕ × List ℕ))
    → Sound r
    → Match r.regex l m
    → Taken l on
    → Taken l (elim m [ none ↦ on | some (t, rest) ↦ some (r.token_type, t, rest) ])
rule-Taken r l none on s h k = k
rule-Taken r l (some (t, rest)) on s h k = (omega (arith, h.0, h.1, s.0), λ e. h.2 31 (s.1 e))

pub try_rules-Taken :
    (rs : List Rule) (s : List ℕ) → All Sound rs → Taken (length s) (try_rules rs s)
unfolding try_rules
try_rules-Taken [] s a = tt
try_rules-Taken (r ∷ rs) s a =
    rule-Taken r (length s) (regexec r.regex s) (try_rules rs s) a.0 (regexec-Match r.regex s)
      (try_rules-Taken rs s a.1)

pub rules-Sound : All Sound rules
unfolding rules
rules-Sound = ground arith
