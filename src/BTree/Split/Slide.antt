-- ===== src/BTree/Split/Slide.antt =====
-- The first half of `split` of BTree.c, on a full inner node: its keys and children, and the new ones,
-- in order.
use Prim.Native.Nat.{lt, gt}
use gaveta.Base.{
  ℕ, zero, suc, ◌+◌, ◌≡◌, refl, sym, ◌∙◌, ap, ap₂, subst, false, some, List, [], ◌∷◌, ◌++◌,
  append_assoc, arith, length, length-append, unsnoc, get_elem?, get_elem?-append_right, ok, ◌>>=◌,
}
use gaveta.Heap.{Bytes}
use gaveta.BTree.{Key, strcmp, put_elem}
use gaveta.BTree.Shift.{put_elem-append}
use gaveta.BTree.Search.{Before, cons, Ascending, strcmp-swap}
use gaveta.BTree.Split.{slide}
use gaveta.BTree.Split.Gather.{All, all_nil, all_cons, All-unsnoc}

module _ {A : Type 0} where
  -- The last element of `ys ++ y ∷ []` in front of a free cell, and its move into that.
  pub last-cell :
      (pre ys : List A) (y r : A) (spare : List A) (n : ℕ)
      → length pre + length ys ≡ n
      → (get_elem? (pre ++ ((ys ++ y ∷ []) ++ r ∷ spare)) n ≡ some y)
        × (put_elem (pre ++ ((ys ++ y ∷ []) ++ r ∷ spare)) (n + 1) y
            ≡ ok (pre ++ (ys ++ y ∷ y ∷ spare)))
  last-cell pre ys y r spare n len =
      let front : pre ++ ((ys ++ y ∷ []) ++ r ∷ spare) ≡ (pre ++ ys) ++ y ∷ r ∷ spare =
        ap (λ t. pre ++ t) (append_assoc ys (y ∷ []) (r ∷ spare))
        ∙ sym (append_assoc pre ys (y ∷ r ∷ spare)) in
      let here : length (pre ++ ys) + 0 ≡ n = omega (arith, length-append pre ys, len) in
      let there : length (pre ++ ys) + 1 ≡ n + 1 = omega (arith, length-append pre ys, len) in
      (
        ap (λ t. get_elem? t n) front
            ∙ subst (λ j. get_elem? ((pre ++ ys) ++ y ∷ r ∷ spare) j ≡ some y) here
                (get_elem?-append_right (pre ++ ys) (y ∷ r ∷ spare) 0),
        ap (λ t. put_elem t (n + 1) y) front
            ∙ subst
                (λ j.
                  put_elem ((pre ++ ys) ++ y ∷ r ∷ spare) j y ≡ ok ((pre ++ ys) ++ y ∷ y ∷ spare))
                there (put_elem-append (pre ++ ys) (y ∷ r ∷ spare) 1 y (omega arith))
            ∙ ap (λ t. ok t) (append_assoc pre ys (y ∷ y ∷ spare)),
      )

-- The loop stops at a smaller key.
slide-stop :
    (n : ℕ) (id : Bytes) (pre spare : List Key) (children : List ℕ)
    → length pre ≡ n
    → All lt id pre
    → slide n false id (pre ++ spare) children ≡ ok (n, pre ++ spare, children)
unfolding slide
slide-stop zero id pre spare children len all = refl
slide-stop (suc n) id pre spare children len all =
    let (ys, y, is, len') = unsnoc n pre len in
    let (_, last) = All-unsnoc ys y (subst (λ t. All lt id t) is all) in
    let here : length ys + 0 ≡ n = omega (arith, len') in
    let at : get_elem? (pre ++ spare) n ≡ some y =
      ap (λ t. get_elem? t n) (ap (λ t. t ++ spare) is ∙ append_assoc ys (y ∷ []) spare)
      ∙ subst (λ j. get_elem? (ys ++ y ∷ spare) j ≡ some y) here
          (get_elem?-append_right ys (y ∷ spare) 0) in
    rw (slide, at, last)

-- It passes over the bigger keys, which move up by one cell with the children to their right.
pub slide-children :
    (n c : ℕ) (id : Bytes) (pre post : List Key) (r : Key) (spare : List Key) (cpre cpost : List ℕ)
    (g : ℕ) (cspare : List ℕ)
    → length pre + length post ≡ n
    → length post ≡ c
    → length cpre ≡ length pre + 1
    → length cpost ≡ c
    → All lt id pre
    → All gt id post
    → (v : Key) × (w : ℕ) × (slide n false id
          (pre ++ (post ++ r ∷ spare))
          (cpre ++ (cpost ++ g ∷ cspare))
        ≡ ok (length pre, pre ++ v ∷ (post ++ spare), cpre ++ w ∷ (cpost ++ cspare)))
unfolding slide
slide-children n zero id pre [] r spare cpre [] g cspare len size clen csize below above =
    let e : length pre ≡ n = omega (arith, len) in
    (
      r,
      g,
      slide-stop n id pre (r ∷ spare) (cpre ++ g ∷ cspare) e below
          ∙ ap (λ j. ok (j, pre ++ r ∷ spare, cpre ++ g ∷ cspare)) (sym e),
    )
slide-children n zero id pre (k ∷ post) r spare cpre cpost g cspare len size clen csize below
      above =
    absurd (omega (arith, size))
slide-children n zero id pre post r spare cpre (k ∷ cpost) g cspare len size clen csize below
      above =
    absurd (omega (arith, csize))
slide-children zero (suc c) id pre post r spare cpre cpost g cspare len size clen csize below
      above =
    absurd (omega (arith, len, size))
slide-children (suc n) (suc c) id pre post r spare cpre cpost g cspare len size clen csize below
      above =
    let (ys, y, is, len') = unsnoc c post size in
    let (cs, x, is_c, clen') = unsnoc c cpost csize in
    let (above', last) = All-unsnoc ys y (subst (λ t. All gt id t) is above) in
    let (v, w, run) =
      slide-children n c id pre ys y (y ∷ spare) cpre cs x (x ∷ cspare)
        (omega (arith, len, size, len')) len' clen clen' below above' in
    let (at, write) = last-cell pre ys y r spare n (omega (arith, len, size, len')) in
    let (at_c, write_c) =
      last-cell cpre cs x g cspare (n + 1) (omega (arith, len, size, len', clen, clen')) in
    let two : n + 1 + 1 ≡ n + 2 = omega arith in
    let write_c' : put_elem (cpre ++ ((cs ++ x ∷ []) ++ g ∷ cspare)) (n + 2) x
        ≡ ok (cpre ++ (cs ++ x ∷ x ∷ cspare)) =
      subst
        (λ j.
          put_elem (cpre ++ ((cs ++ x ∷ []) ++ g ∷ cspare)) j x
          ≡ ok (cpre ++ (cs ++ x ∷ x ∷ cspare)))
        two write_c in
    (
      v,
      w,
      ap₂ (λ a b. slide (suc n) false id (pre ++ (a ++ r ∷ spare)) (cpre ++ (b ++ g ∷ cspare))) is
            is_c
          ∙ rw (slide, at, last, write, at_c, write_c', ◌>>=◌) run
          ∙ ap₂ (λ a b. ok (length pre, pre ++ v ∷ a, cpre ++ w ∷ b))
              (sym (append_assoc ys (y ∷ []) spare) ∙ ap (λ t. t ++ spare) (sym is))
              (sym (append_assoc cs (x ∷ []) cspare) ∙ ap (λ t. t ++ cspare) (sym is_c)),
    )

-- In ascending keys, those before one are smaller, and those behind it bigger.
pub Before-right :
    {k : Key} (pre : List Key) {post : List Key} → Before k (pre ++ post) → Before k post
Before-right [] b = b
Before-right (l ∷ pre) (cons e b) = Before-right pre b

Before-head : {k l : Key} {ks : List Key} → Before k (l ∷ ks) → strcmp k.id l.id ≡ lt
Before-head (cons e b) = e

pub Ascending-below :
    (pre : List Key) (k : Key) (post : List Key) → Ascending (pre ++ k ∷ post) → All lt k.id pre
Ascending-below [] k post asc = all_nil
Ascending-below (l ∷ pre) k post (cons ne b asc) =
    all_cons (Before-head (Before-right pre b)) (Ascending-below pre k post asc)

Before-above : {k : Key} (ks : List Key) → Before k ks → All gt k.id ks
Before-above [] b = all_nil
Before-above {k} (l ∷ ks) (cons e b) = all_cons (strcmp-swap k.id l.id e) (Before-above ks b)

pub Ascending-above :
    (pre : List Key) (k : Key) (post : List Key) → Ascending (pre ++ k ∷ post) → All gt k.id post
Ascending-above [] k post (cons ne b asc) = Before-above post b
Ascending-above (l ∷ pre) k post (cons ne b asc) = Ascending-above pre k post asc
