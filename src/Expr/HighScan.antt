-- ===== src/Expr/HighScan.antt =====
-- The loop over items behind a main operation that nothing takes over from.
use fpga_npc.Base.{
  drop-past, ℕ, zero, suc, ◌+◌, ◌/◌, ◌≤◌, ◌<◌, ◌≡◌, refl, ap, ◌∙◌, inl, inr, List, [], ◌∷◌, ◌++◌,
  ltb, if◌then◌else◌, done, arith, length, drop, length-append, Bool-cases,
}
use mathlib.Core.List.{append_assoc}
use fpga_npc.Expr.{Token, token, tk_rbracket}
use fpga_npc.Expr.Eval.{is_operand, main_loop}
use fpga_npc.Expr.Brackets.{lb, rb}
use fpga_npc.Expr.Items.{
  Operand, atom, bracketed, IsOperator, Items, last, more, High, Operand-length, Items-length,
}
use fpga_npc.Expr.Rounds.{
  main_loop-stop, main_loop-operand, main_loop-other, type_at-drop, skip_bracket-group,
  takes_over-High, closing-type, operator-step,
}

module _ (tokens : List Token) (p q : ℕ) where
  -- One operand behind a high main operation, before the last token of the range.
  Operand-High :
      (k fuel m i : ℕ) {xs : List Token} (rest : List Token)
      → k ≤ 135
      → Operand xs
      → drop i tokens ≡ xs ++ rest
      → i + length xs ≤ q + 1
      → i < q
      → length xs ≤ fuel
      → High k tokens m
      → (fuel' : ℕ) × (main_loop fuel tokens p q m i ≡ main_loop fuel' tokens p q m (i + length xs))
        × (fuel ≤ fuel' + length xs)
  unfolding is_operand
  Operand-High k zero m i rest h (atom t o) e r l f high = absurd (omega arith)
  Operand-High k (suc fuel) m i rest h (atom t o) e r l f high = (
    fuel,
    main_loop-operand tokens p q fuel m i l (rw (type_at-drop tokens p q i t rest e) o),
    omega arith,
  )
  Operand-High k zero m i rest h (bracketed b) e r l f high = absurd (omega arith)
  Operand-High k (suc fuel) m i rest h (bracketed {inner} b) e r l f high =
      let e' = e ∙ ap (◌∷◌ lb) (append_assoc inner (rb ∷ []) rest) in
      let j = i + length inner + 1 in
      let u = type_at-drop tokens p q i lb (inner ++ rb ∷ rest) e' in
      let w : length (inner ++ rb ∷ []) ≡ length inner + 1 = length-append inner (rb ∷ []) in
      let t =
        takes_over-High tokens p q k m j tk_rbracket (closing-type tokens p q i inner rest e') h
          high in
      (
        fuel,
        main_loop-other tokens p q fuel m i j l (rw u refl)
              (skip_bracket-group tokens p q i inner rest b e')
            ∙ ap (λ b. main_loop fuel tokens p q (if b then j else m) (j + 1)) t
            ∙ ap (main_loop fuel tokens p q m) (omega arith),
        omega arith,
      )

  operator-High :
      (k fuel m i op : ℕ) (rest : List Token)
      → IsOperator op
      → k ≤ op / 2
      → drop i tokens ≡ token op ∷ rest
      → i < q
      → 0 < fuel
      → High k tokens m
      → (fuel' : ℕ) × (main_loop fuel tokens p q m i ≡ main_loop fuel' tokens p q m (i + 1))
        × (fuel ≡ suc fuel')
  operator-High k zero m i op rest w c e r f high = absurd (omega arith)
  operator-High k (suc fuel) m i op rest w c e r f high =
      let t =
        takes_over-High tokens p q k m i op (type_at-drop tokens p q i (token op) rest e) c high in
      (
        fuel,
        operator-step tokens p q fuel m i op rest w e r
            ∙ ap (λ b. main_loop fuel tokens p q (if b then i else m) (i + 1)) t,
        refl,
      )

  Operand-final :
      (k fuel m i : ℕ) {xs : List Token} (rest : List Token)
      → k ≤ 135
      → Operand xs
      → drop i tokens ≡ xs ++ rest
      → i + length xs ≡ q + 1
      → length xs ≤ fuel
      → High k tokens m
      → main_loop fuel tokens p q m i ≡ done m
  Operand-final k fuel m i {xs} rest h o e r f high = elim (Bool-cases (ltb i q)) [
    | inl l ↦
        let (fuel', g, b) =
          Operand-High k fuel m i rest h o e (omega arith) (ground arith) f high in
        g ∙ main_loop-stop tokens p q fuel' m (i + length xs) (omega arith)
    | inr l ↦ main_loop-stop tokens p q fuel m i (ground arith)
  ]

  -- Behind a high main operation the loop goes on to the end and keeps it.
  pub items-High :
      (k fuel m i : ℕ) {xs : List Token} (rest : List Token)
      → k ≤ 135
      → Items k xs
      → drop i tokens ≡ xs ++ rest
      → i + length xs ≡ q + 1
      → length xs ≤ fuel
      → High k tokens m
      → main_loop fuel tokens p q m i ≡ done m
  items-High k fuel m i rest h (last o) e r f high = Operand-final k fuel m i rest h o e r f high
  items-High k fuel m i rest h (more {xs} {ys} op o w c items) e r f high =
      let n : length (xs ++ token op ∷ ys) ≡ length xs + suc (length ys) =
        length-append xs (token op ∷ ys) in
      let l : 0 < length ys = Items-length k items in
      let x : 0 < length xs = Operand-length o in
      let e' = e ∙ append_assoc xs (token op ∷ ys) rest in
      let (fuel1, g1, b1) =
        Operand-High k fuel m i (token op ∷ ys ++ rest) h o e' (omega arith) (omega arith)
          (omega arith) high in
      let e1 = drop-past i tokens xs (token op ∷ ys ++ rest) e' in
      let (fuel2, g2, b2) =
        operator-High k fuel1 m (i + length xs) op (ys ++ rest) w c e1 (omega arith) (omega arith)
          high in
      let e2 = drop-past (i + length xs) tokens (token op ∷ []) (ys ++ rest) e1 in
      g1
      ∙ g2
      ∙ items-High k fuel2 m (i + length xs + 1) rest h items e2 (omega arith) (omega arith) high
