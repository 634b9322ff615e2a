-- ===== src/Watchpoint/Sorted.antt =====
-- Rising lists of cell numbers in a range, and what insertion and removal do to them.
use fpga_npc.Base.{
  ℕ, suc, ◌+◌, ◌≤◌, ◌<◌, ◌≡◌, refl, true, false, ◌||◌, List, [], ◌∷◌, ◌==◌, arith, length,
}
use fpga_npc.Watchpoint.Chains.{has, Distinct, insert}
use fpga_npc.Watchpoint.Find.{remove}

-- The numbers rise, from `lo` on and below `hi`.
abbrev pub Within : ℕ → ℕ → List ℕ → Type 0
Within lo hi [] = lo ≤ hi
Within lo hi (x ∷ xs) = (lo ≤ x) × Within (suc x) hi xs

module _ (hi : ℕ) where
  pub Within-lower : (lo lo' : ℕ) (xs : List ℕ) → lo' ≤ lo → Within lo hi xs → Within lo' hi xs
  Within-lower lo lo' [] h w = omega arith
  Within-lower lo lo' (x ∷ xs) h w = (omega arith, w.1)

  pub length-Within : (lo : ℕ) (xs : List ℕ) → Within lo hi xs → length xs + lo ≤ hi
  length-Within lo [] w = omega arith
  length-Within lo (x ∷ xs) w = omega (arith, length-Within (suc x) xs w.1)

  pub has-Within :
      (lo a : ℕ) (xs : List ℕ) → Within lo hi xs → has a xs ≡ true → (lo ≤ a) × (a < hi)
  has-Within lo a [] w m = ground arith
  has-Within lo a (x ∷ xs) w m =
      ground (arith, has-Within (suc x) a xs w.1, length-Within (suc x) xs w.1)

  pub not-has_below : (lo a : ℕ) (xs : List ℕ) → Within lo hi xs → a < lo → has a xs ≡ false
  not-has_below lo a [] w h = refl
  not-has_below lo a (x ∷ xs) w h = ground (arith, not-has_below (suc x) a xs w.1)

  pub Within-Distinct : (lo : ℕ) (xs : List ℕ) → Within lo hi xs → Distinct xs
  Within-Distinct lo [] w = tt
  Within-Distinct lo (x ∷ xs) w =
      (not-has_below (suc x) x xs w.1 (omega arith), Within-Distinct (suc x) xs w.1)

  pub insert-Within :
      (lo n : ℕ) (xs : List ℕ)
      → lo ≤ n
      → n < hi
      → has n xs ≡ false
      → Within lo hi xs
      → Within lo hi (insert n xs)
  insert-Within lo n [] h k m w = (h, k)
  insert-Within lo n (x ∷ xs) h k m w =
      ground (arith, insert-Within (suc x) n xs, Within-lower (suc x) (suc n) xs)

  pub remove-Within : (lo n : ℕ) (xs : List ℕ) → Within lo hi xs → Within lo hi (remove n xs)
  remove-Within lo n [] w = w
  remove-Within lo n (x ∷ xs) w =
      ground (arith, remove-Within (suc x) n xs w.1, Within-lower (suc x) lo xs)

  pub not-has-remove : (lo n : ℕ) (xs : List ℕ) → Within lo hi xs → has n (remove n xs) ≡ false
  not-has-remove lo n [] w = refl
  not-has-remove lo n (x ∷ xs) w =
      ground (arith, not-has-remove (suc x) n xs w.1, not-has_below (suc x) n xs w.1)

pub has-insert : (a n : ℕ) (xs : List ℕ) → has a (insert n xs) ≡ ((a == n) || has a xs)
has-insert a n [] = refl
has-insert a n (x ∷ xs) = ground (arith, has-insert a n xs)

pub has-remove_ne : (a n : ℕ) (xs : List ℕ) → (a == n) ≡ false → has a (remove n xs) ≡ has a xs
has-remove_ne a n [] h = refl
has-remove_ne a n (x ∷ xs) h = ground (arith, has-remove_ne a n xs)

pub length-insert : (n : ℕ) (xs : List ℕ) → length (insert n xs) ≡ length xs + 1
length-insert n [] = refl
length-insert n (x ∷ xs) = ground (arith, length-insert n xs)

pub length-remove : (n : ℕ) (xs : List ℕ) → has n xs ≡ true → length (remove n xs) + 1 ≡ length xs
length-remove n [] m = ground arith
length-remove n (x ∷ xs) m = ground (arith, length-remove n xs)
