-- ===== src/BTree/Shift.antt =====
-- The loops of BTree.c that make room in an array: on the list that the array holds they insert.
use gaveta.Base.{
  ℕ, zero, suc, ◌+◌, ◌<◌, ◌≡◌, refl, sym, ◌∙◌, ap, subst, true, some, List, [], ◌∷◌, ◌++◌,
  append_assoc, arith, ltb, length, length-append, get_elem?, get_elem?-append_right, set,
  set-append_right, unsnoc, ok, ◌>>=◌, Returns, Run, fault, exited, blocked, unfinished,
  ok-injective, Bool-cases, Option-cases, inl, inr, ◌⊎◌, length-set, ◌-◌,
}
use gaveta.BTree.{put_elem, shift_up, open_at}

module _ {A : Type 0} where
  -- A write behind a prefix.
  pub put_elem-append :
      (pre ys : List A) (i : ℕ) (v : A)
      → i < length ys
      → put_elem (pre ++ ys) (length pre + i) v ≡ ok (pre ++ set ys i v)
  unfolding put_elem
  put_elem-append pre ys i v l =
      let within : ltb (length pre + i) (length (pre ++ ys)) ≡ true =
        ground (arith, length-append pre ys, l) in
      rw (within, set-append_right pre ys i v)

  -- A round of the loop reads the last cell and writes it one cell further.
  shift_up-round :
      (c : ℕ) (pre ys : List A) (y r : A) (spare : List A)
      → length ys ≡ c
      → shift_up (suc c) (length pre) (pre ++ (ys ++ y ∷ r ∷ spare))
        ≡ shift_up c (length pre) (pre ++ (ys ++ y ∷ y ∷ spare))
  unfolding shift_up
  shift_up-round c pre ys y r spare len =
      let at : get_elem? (pre ++ (ys ++ y ∷ r ∷ spare)) (length pre + c) ≡ some y =
        get_elem?-append_right pre (ys ++ y ∷ r ∷ spare) c
        ∙ subst (λ n. get_elem? (ys ++ y ∷ r ∷ spare) n ≡ some y) (omega (arith, len))
            (get_elem?-append_right ys (y ∷ r ∷ spare) 0) in
      let write : set (ys ++ y ∷ r ∷ spare) (c + 1) y ≡ ys ++ y ∷ y ∷ spare =
        subst (λ n. set (ys ++ y ∷ r ∷ spare) n y ≡ ys ++ y ∷ y ∷ spare) (omega (arith, len))
          (set-append_right ys (y ∷ r ∷ spare) 1 y) in
      let long : length (ys ++ y ∷ r ∷ spare) ≡ c + suc (suc (length spare)) =
        omega (arith, length-append ys (y ∷ r ∷ spare), len) in
      rw (
        shift_up,
        at,
        put_elem-append pre (ys ++ y ∷ r ∷ spare) (c + 1) y (omega (arith, long)),
        write,
      )

  -- The loop moves `ks` up by one cell, over what stands behind it.
  pub shift_up-moved :
      (c : ℕ) (pre ks : List A) (r : A) (spare : List A)
      → length ks ≡ c
      → Returns
          (shift_up c (length pre) (pre ++ (ks ++ r ∷ spare)))
          λ arr. (v : A) × (arr ≡ pre ++ v ∷ (ks ++ spare))
  unfolding shift_up
  shift_up-moved zero pre [] r spare len = (pre ++ r ∷ spare, refl, (r, refl))
  shift_up-moved zero pre (k ∷ ks) r spare len = absurd (omega (arith, len))
  shift_up-moved (suc c) pre ks r spare len =
      let (ys, y, is, len') = unsnoc c ks len in
      let (arr, run, (v, e)) = shift_up-moved c pre ys y (y ∷ spare) len' in
      let front : ks ++ r ∷ spare ≡ ys ++ y ∷ r ∷ spare =
        ap (λ zs. zs ++ r ∷ spare) is ∙ append_assoc ys (y ∷ []) (r ∷ spare) in
      let back : ks ++ spare ≡ ys ++ y ∷ spare =
        ap (λ zs. zs ++ spare) is ∙ append_assoc ys (y ∷ []) spare in
      (
        arr,
        ap (λ t. shift_up (suc c) (length pre) (pre ++ t)) front
            ∙ shift_up-round c pre ys y r spare len'
            ∙ run,
        (v, e ∙ ap (λ t. pre ++ v ∷ t) (sym back)),
      )

  -- With a spare cell the loop and the write behind it insert an element.
  pub shift_up-put_elem :
      (pre ks : List A) (r v : A) (spare : List A)
      → (shift_up (length ks) (length pre) (pre ++ (ks ++ r ∷ spare)) >>= λ arr.
          put_elem arr (length pre) v)
        ≡ ok (pre ++ v ∷ (ks ++ spare))
  shift_up-put_elem pre ks r v spare =
      let (arr, run, (w, e)) = shift_up-moved (length ks) pre ks r spare refl in
      let at : length pre + 0 ≡ length pre = omega arith in
      rw (run, e)
        (subst (λ n. put_elem (pre ++ w ∷ (ks ++ spare)) n v ≡ ok (pre ++ v ∷ (ks ++ spare))) at
          (put_elem-append pre (w ∷ (ks ++ spare)) 0 v (omega arith)))

  -- No loop changes the length of the array.
  put_elem-length :
      (arr arr' : List A) (i : ℕ) (v : A) → put_elem arr i v ≡ ok arr' → length arr' ≡ length arr
  unfolding put_elem
  put_elem-length arr arr' i v e = elim (Bool-cases (ltb i (length arr))) [
    | inl l ↦
        let e' : set arr i v ≡ arr' = ok-injective (sym (rw (put_elem, l) refl) ∙ e) in
        ap (λ t. length t) (sym e') ∙ length-set arr i v
    | inr out ↦ absurd (let e' : fault ≡ ok arr' = sym (rw (put_elem, out) refl) ∙ e in cc)
  ]

  put_elem-cases :
      (arr : List A) (i : ℕ) (v : A)
      → ((arr' : List A) × (put_elem arr i v ≡ ok arr')) ⊎ (put_elem arr i v ≡ fault)
  unfolding put_elem
  put_elem-cases arr i v = elim (Bool-cases (ltb i (length arr))) [
    | inl l ↦ inl (set arr i v, rw (put_elem, l) refl)
    | inr out ↦ inr (rw (put_elem, out) refl)
  ]

  shift_up-length :
      (c pos : ℕ) (arr arr' : List A) → shift_up c pos arr ≡ ok arr' → length arr' ≡ length arr
  unfolding shift_up
  shift_up-length zero pos arr arr' e = ap (λ t. length t) (sym (ok-injective e))
  shift_up-length (suc c) pos arr arr' e = elim (Option-cases (get_elem? arr (pos + c))) [
    | inl none_there ↦
        absurd (let e' : fault ≡ ok arr' = sym (rw (shift_up, none_there) refl) ∙ e in cc)
    | inr (x, at) ↦ elim (put_elem-cases arr (pos + (c + 1)) x) [
      | inl (arr1, w) ↦
          shift_up-length c pos arr1 arr' (sym (rw (shift_up, at, w) refl) ∙ e)
          ∙ put_elem-length arr arr1 (pos + (c + 1)) x w
      | inr w ↦ absurd (let e' : fault ≡ ok arr' = sym (rw (shift_up, at, w) refl) ∙ e in cc)
    ]
  ]

  pub open_at-length :
      (arr arr' : List A) (n pos : ℕ) (v : A)
      → open_at arr n pos v ≡ ok arr'
      → length arr' ≡ length arr
  unfolding open_at
  open_at-length arr arr' n pos v e = go (shift_up (n - pos) pos arr) refl e
    where
      go :
          (r : Run (List A))
          → shift_up (n - pos) pos arr ≡ r
          → (r >>= λ moved. put_elem moved pos v) ≡ ok arr'
          → length arr' ≡ length arr
      go (ok moved) run e =
          put_elem-length moved arr' pos v e ∙ shift_up-length (n - pos) pos arr moved run
      go fault run e = cc
      go exited run e = cc
      go blocked run e = cc
      go unfinished run e = cc
