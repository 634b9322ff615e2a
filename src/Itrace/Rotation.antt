-- ===== src/Itrace/Rotation.antt =====
-- Lists read from the middle on: a buffer of 20 places in which the oldest is overwritten.
use fpga_npc.Base.{
  ℕ, zero, suc, ◌%◌, ◌<◌, ◌≤◌, ◌≡◌, refl, sym, ap, ap₂, ◌∙◌, List, [], ◌∷◌, ◌++◌, ltb, arith,
  Bool-cases, inl, inr, length, set, drop, take,
}
use mathlib.Core.List.{append_assoc, append-nil}

module _ {ℓ} {A : Type ℓ} where
  -- The list from number `j` on, and then up to it.
  abbrev pub rotate : ℕ → List A → List A
  rotate j xs = drop j xs ++ take j xs

  drop-set : (j : ℕ) (xs : List A) (x : A) → drop (suc j) (set xs j x) ≡ drop (suc j) xs
  drop-set j [] x = refl
  drop-set zero (y ∷ xs) x = refl
  drop-set (suc j) (y ∷ xs) x = drop-set j xs x

  take-set :
      (j : ℕ) (xs : List A) (x : A)
      → j < length xs
      → take (suc j) (set xs j x) ≡ take j xs ++ x ∷ []
  take-set j [] x h = absurd (omega (arith, h))
  take-set zero (y ∷ xs) x h = refl
  take-set (suc j) (y ∷ xs) x h = ap (λ r. y ∷ r) (take-set j xs x (omega (arith, h)))

  drop-get : (j : ℕ) (xs : List A) → j < length xs → (y : A) × (drop j xs ≡ y ∷ drop (suc j) xs)
  drop-get j [] h = absurd (omega (arith, h))
  drop-get zero (y ∷ xs) h = (y, refl)
  drop-get (suc j) (y ∷ xs) h = drop-get j xs (omega (arith, h))

  -- One more is written in place of the oldest one.
  pub rotate-set :
      (j : ℕ) (xs : List A) (x : A)
      → j < length xs
      → rotate (suc j) (set xs j x) ≡ drop 1 (rotate j xs ++ x ∷ [])
  rotate-set j xs x h =
      let (y, e) = drop-get j xs h in
      ap₂ (λ a b. a ++ b) (drop-set j xs x) (take-set j xs x h)
      ∙ sym (append_assoc (drop (suc j) xs) (take j xs) (x ∷ []))
      ∙ rw e refl

  drop-end : (n : ℕ) (xs : List A) → length xs ≡ n → drop n xs ≡ []
  drop-end zero [] e = refl
  drop-end zero (y ∷ xs) e = absurd (omega (arith, e))
  drop-end (suc n) [] e = refl
  drop-end (suc n) (y ∷ xs) e = drop-end n xs (omega (arith, e))

  take-end : (n : ℕ) (xs : List A) → length xs ≡ n → take n xs ≡ xs
  take-end zero [] e = refl
  take-end zero (y ∷ xs) e = absurd (omega (arith, e))
  take-end (suc n) [] e = refl
  take-end (suc n) (y ∷ xs) e = ap (λ r. y ∷ r) (take-end n xs (omega (arith, e)))

  -- The position behind the last one is the first one.
  pub rotate-wraps :
      (j : ℕ) (xs : List A) → j < 20 → length xs ≡ 20 → rotate (suc j % 20) xs ≡ rotate (suc j) xs
  rotate-wraps j xs h e = elim (Bool-cases (ltb (suc j) 20)) [
    | inl y ↦
        let less : suc j < 20 = ground (arith, y) in
        let same : suc j % 20 ≡ suc j = omega (arith, less) in ap (λ k. rotate k xs) same
    | inr m ↦
        let last : suc j ≡ 20 = ground (arith, m, h) in
        let first : suc j % 20 ≡ 0 = omega (arith, last) in
        ap (λ k. rotate k xs) first
        ∙ append-nil xs
        ∙ sym (
            ap₂ (λ a b. a ++ b) (drop-end (suc j) xs (e ∙ sym last))
              (take-end (suc j) xs (e ∙ sym last)))
  ]

  pub drop-drop : (a : ℕ) (xs : List A) → drop 1 (drop a xs) ≡ drop (suc a) xs
  drop-drop zero xs = refl
  drop-drop (suc a) [] = refl
  drop-drop (suc a) (x ∷ xs) = drop-drop a xs

  pub drop-append : (a : ℕ) (xs ys : List A) → a ≤ length xs → drop a (xs ++ ys) ≡ drop a xs ++ ys
  drop-append zero xs ys h = refl
  drop-append (suc a) [] ys h = absurd (omega (arith, h))
  drop-append (suc a) (x ∷ xs) ys h = drop-append a xs ys (omega (arith, h))

  pub split-at :
      (j : ℕ) (xs : List A)
      → j < length xs
      → (y : A) × (xs ≡ take j xs ++ y ∷ drop (suc j) xs)
        × (take (suc j) xs ≡ take j xs ++ y ∷ [])
        × (length (take j xs) ≡ j)
  split-at j [] h = absurd (omega (arith, h))
  split-at zero (x ∷ xs) h = (x, refl, refl, refl)
  split-at (suc j) (x ∷ xs) h =
      let (y, e, f, n) = split-at j xs (omega (arith, h)) in
      (y, ap (λ r. x ∷ r) e, ap (λ r. x ∷ r) f, ap suc n)
