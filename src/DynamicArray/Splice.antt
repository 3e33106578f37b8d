-- ===== src/DynamicArray/Splice.antt =====
-- Runs of bytes inside a block, for the elements of a dynamic array.
use gaveta.Base.{
  ℕ, zero, suc, ◌+◌, ◌*◌, ◌≤◌, ◌<◌, ◌≡◌, ◌≢◌, refl, ap, subst, Bool-cases, ltb, inl, inr, List, [],
  ◌∷◌, ◌++◌, arith, length, take, drop,
}
use native.Mathlib.Nat.{mul-le-mul_right}

module _ {ℓ} {A : Type ℓ} where
  -- `src` over the front of a block.
  abbrev pub overwrite : List A → List A → List A
  overwrite [] bs = bs
  overwrite (s ∷ src) [] = []
  overwrite (s ∷ src) (b ∷ bs) = s ∷ overwrite src bs

  -- `src` over what stands at `off`.
  abbrev pub splice : ℕ → List A → List A → List A
  splice zero src bs = overwrite src bs
  splice (suc off) src [] = []
  splice (suc off) src (b ∷ bs) = b ∷ splice off src bs

  length-overwrite : (src bs : List A) → length (overwrite src bs) ≡ length bs
  length-overwrite [] bs = refl
  length-overwrite (s ∷ src) [] = refl
  length-overwrite (s ∷ src) (b ∷ bs) = ap suc (length-overwrite src bs)

  pub length-splice : (off : ℕ) (src bs : List A) → length (splice off src bs) ≡ length bs
  length-splice zero src bs = length-overwrite src bs
  length-splice (suc off) src [] = refl
  length-splice (suc off) src (b ∷ bs) = ap suc (length-splice off src bs)

  take-overwrite :
      (src bs : List A) → length src ≤ length bs → take (length src) (overwrite src bs) ≡ src
  take-overwrite [] bs h = refl
  take-overwrite (s ∷ src) [] h = absurd (omega arith)
  take-overwrite (s ∷ src) (b ∷ bs) h = ap (λ r. s ∷ r) (take-overwrite src bs (omega arith))

  -- What was written is read back.
  pub read-splice :
      (off : ℕ) (src bs : List A)
      → off + length src ≤ length bs
      → take (length src) (drop off (splice off src bs)) ≡ src
  read-splice zero src bs h = take-overwrite src bs (omega arith)
  read-splice (suc off) src [] h = absurd (omega arith)
  read-splice (suc off) src (b ∷ bs) h = read-splice off src bs (omega arith)

  take-splice : (n off : ℕ) (src bs : List A) → n ≤ off → take n (splice off src bs) ≡ take n bs
  take-splice zero off src bs h = refl
  take-splice (suc n) zero src bs h = absurd (omega arith)
  take-splice (suc n) (suc off) src [] h = refl
  take-splice (suc n) (suc off) src (b ∷ bs) h =
      ap (λ r. b ∷ r) (take-splice n off src bs (omega arith))

  -- What stands before the write is as it was,
  pub read_before-splice :
      (i n off : ℕ) (src bs : List A)
      → i + n ≤ off
      → take n (drop i (splice off src bs)) ≡ take n (drop i bs)
  read_before-splice zero n off src bs h = take-splice n off src bs (omega arith)
  read_before-splice (suc i) n zero src bs h = absurd (omega arith)
  read_before-splice (suc i) n (suc off) src [] h = refl
  read_before-splice (suc i) n (suc off) src (b ∷ bs) h =
      read_before-splice i n off src bs (omega arith)

  drop-overwrite :
      (i : ℕ) (src bs : List A) → length src ≤ i → drop i (overwrite src bs) ≡ drop i bs
  drop-overwrite i [] bs h = refl
  drop-overwrite i (s ∷ src) [] h = refl
  drop-overwrite zero (s ∷ src) (b ∷ bs) h = absurd (omega arith)
  drop-overwrite (suc i) (s ∷ src) (b ∷ bs) h = drop-overwrite i src bs (omega arith)

  -- and so is what stands behind it.
  pub read_after-splice :
      (i off : ℕ) (src bs : List A) → off + length src ≤ i → drop i (splice off src bs) ≡ drop i bs
  read_after-splice i zero src bs h = drop-overwrite i src bs (omega arith)
  read_after-splice i (suc off) src [] h = refl
  read_after-splice zero (suc off) src (b ∷ bs) h = absurd (omega arith)
  read_after-splice (suc i) (suc off) src (b ∷ bs) h = read_after-splice i off src bs (omega arith)

  -- A run inside the front part of a block is the same in any block that agrees there.
  pub read-append :
      (i n : ℕ) (xs ys : List A)
      → i + n ≤ length xs
      → take n (drop i (xs ++ ys)) ≡ take n (drop i xs)
  read-append zero zero xs ys h = refl
  read-append zero (suc n) [] ys h = absurd (omega arith)
  read-append zero (suc n) (x ∷ xs) ys h = ap (λ r. x ∷ r) (read-append zero n xs ys (omega arith))
  read-append (suc i) n [] ys h = absurd (omega arith)
  read-append (suc i) n (x ∷ xs) ys h = read-append i n xs ys (omega arith)

-- The element at `i` ends before the one at `j` starts.
pub ends_before : (i j e : ℕ) → i < j → i * e + e ≤ j * e
ends_before i j e l = let m : suc i * e ≤ j * e = mul-le-mul_right e l in omega (arith, m)

-- Of elements of `e` bytes, a write at one is read back there, and is not seen at any other.
pub element_at-splice {ℓ} :
    {A : Type ℓ} (e i : ℕ) (x dat : List A)
    → length x ≡ e
    → i * e + e ≤ length dat
    → take e (drop (i * e) (splice (i * e) x dat)) ≡ x
element_at-splice e i x dat l h =
    subst (λ n. take n (drop (i * e) (splice (i * e) x dat)) ≡ x) l
      (read-splice (i * e) x dat (omega (arith, l, h)))

pub element_off-splice {ℓ} :
    {A : Type ℓ} (e i j : ℕ) (x dat : List A)
    → length x ≡ e
    → i ≢ j
    → take e (drop (j * e) (splice (i * e) x dat)) ≡ take e (drop (j * e) dat)
element_off-splice e i j x dat l ne = elim (Bool-cases (ltb i j)) [
  | inl t ↦
      let m : i * e + e ≤ j * e = ends_before i j e (ground (arith, t)) in
      ap (λ r. take e r) (read_after-splice (j * e) (i * e) x dat (omega (arith, l, m)))
  | inr t ↦
      let m : j * e + e ≤ i * e = ends_before j i e (ground (arith, t, ne)) in
      read_before-splice (j * e) e (i * e) x dat (omega (arith, m))
]
