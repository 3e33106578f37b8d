-- ===== src/BTree/Split/Children.antt =====
-- What `split` of BTree.c gathers of a full inner node, and the copies from one array to another.
use gaveta.Base.{
  ℕ, zero, suc, ◌+◌, ◌≤◌, ◌<◌, ◌≡◌, refl, sym, ◌∙◌, ap, ap₂, subst, false, some, List, [], ◌∷◌,
  ◌++◌, append_assoc, append-nil, arith, length, length-append, length-replicate, take, drop,
  replicate, get_elem?, ok, ◌>>=◌,
}
use gaveta.BTree.{Key, BTreeNode, put_elem, copy_up}
use gaveta.BTree.Shift.{put_elem-append}
use gaveta.BTree.Search.{Holds, Ascending}
use gaveta.BTree.Insert.{HoldsChildren}
use gaveta.BTree.Split.{zero_key, no_child, add_child, gather}
use gaveta.BTree.Balance.{copy_up-copied}
use gaveta.BTree.Split.Slide.{slide-children, Ascending-below, Ascending-above}

module _ {A : Type 0} where
  -- A list around its element at an index.
  pub around :
      (n : ℕ) (xs : List A)
      → n < length xs
      → (x : A) × (xs ≡ take n xs ++ x ∷ drop (n + 1) xs) × (get_elem? xs n ≡ some x)
  around n [] l = absurd (omega arith)
  around zero (x ∷ xs) l = (x, refl, refl)
  around (suc n) (x ∷ xs) l =
      let (y, is, at) = around n xs (omega arith) in
      let e : suc n + 1 ≡ suc (n + 1) = omega arith in
      (y, ap (λ t. x ∷ t) is ∙ ap (λ m. x ∷ (take n xs ++ y ∷ drop m (x ∷ xs))) (sym e), at)

  pub take-drop : (n : ℕ) (xs : List A) → take n xs ++ drop n xs ≡ xs
  take-drop zero xs = refl
  take-drop (suc n) [] = refl
  take-drop (suc n) (x ∷ xs) = ap (λ t. x ∷ t) (take-drop n xs)

  -- The first `n` cells of an array are copied to the front of another.
  pub copied-front :
      (n : ℕ) {arr : List A} (xs behind room : List A)
      → arr ≡ xs ++ behind
      → length xs ≡ n
      → n ≤ length room
      → (rest : List A) × (copy_up n 0 0 arr room ≡ ok (xs ++ rest))
        × (n + length rest ≡ length room)
  copied-front n xs behind room is len fits =
      let (rest, run, size) = copy_up-copied [] xs behind [] room (omega (arith, len, fits)) in
      (rest, ap₂ (λ m t. copy_up m 0 0 t room) (sym len) is ∙ run, omega (arith, size, len))

  pub one-more : (rest : List A) → 0 < length rest → (x : A) × (xs : List A) × (rest ≡ x ∷ xs)
  one-more [] l = absurd (omega arith)
  one-more (x ∷ xs) l = (x, xs, refl)

  one-more' : (rest : List A) → length rest ≡ 1 → (x : A) × (rest ≡ x ∷ [])
  one-more' [] e = absurd (omega (arith, e))
  one-more' (x ∷ []) e = (x, refl)
  one-more' (x ∷ y ∷ xs) e = absurd (omega (arith, e))

  no-cell : (rest : List A) → length rest ≡ 0 → rest ≡ []
  no-cell [] e = refl
  no-cell (x ∷ xs) e = absurd (omega (arith, e))

  -- A write over the first cell behind a prefix.
  over :
      (pre : List A) (v x : A) (post : List A) (n : ℕ)
      → length pre ≡ n
      → put_elem (pre ++ v ∷ (post ++ [])) n x ≡ ok (pre ++ x ∷ post)
  over pre v x post n len =
      let here : length pre + 0 ≡ n = omega (arith, len) in
      subst (λ j. put_elem (pre ++ v ∷ (post ++ [])) j x ≡ ok (pre ++ x ∷ (post ++ []))) here
        (put_elem-append pre (v ∷ (post ++ [])) 0 x (omega arith))
      ∙ ap (λ t. ok (pre ++ x ∷ t)) (append-nil post)

  -- An array one cell longer than its contents takes these, with a cell left.
  pub front-and-one :
      (n : ℕ) {arr : List A} (pre post behind room : List A)
      → arr ≡ (pre ++ post) ++ behind
      → length (pre ++ post) ≡ n
      → length room ≡ n + 1
      → (r : A) × (copy_up n 0 0 arr room ≡ ok (pre ++ (post ++ r ∷ [])))
  front-and-one n pre post behind room is len size =
      let (rest, copy, left) =
        copied-front n (pre ++ post) behind room is len (omega (arith, size)) in
      let (r, one) = one-more' rest (omega (arith, left, size)) in
      (r, copy ∙ ap (λ t. ok t) (ap (λ t. (pre ++ post) ++ t) one ∙ append_assoc pre post (r ∷ [])))

  -- An array of the same length takes the contents and the cell behind them.
  front-and-next :
      (n : ℕ) {arr : List A} (pre post : List A) (g : A) (behind room : List A)
      → arr ≡ (pre ++ post) ++ g ∷ behind
      → length (pre ++ post) ≡ n
      → length room ≡ n + 1
      → copy_up (n + 1) 0 0 arr room ≡ ok (pre ++ (post ++ g ∷ []))
  front-and-next n pre post g behind room is len size =
      let front = is ∙ sym (append_assoc (pre ++ post) (g ∷ []) behind) in
      let longer : length ((pre ++ post) ++ g ∷ []) ≡ n + 1 =
        omega (arith, length-append (pre ++ post) (g ∷ []), len) in
      let (rest, copy, left) =
        copied-front (n + 1) ((pre ++ post) ++ g ∷ []) behind room front longer
          (omega (arith, size)) in
      let none_left = no-cell rest (omega (arith, left, size)) in
      copy
      ∙ ap (λ t. ok (((pre ++ post) ++ g ∷ []) ++ t)) none_left
      ∙ ap (λ t. ok t) (append-nil ((pre ++ post) ++ g ∷ []) ∙ append_assoc pre post (g ∷ []))

-- Of a full inner node, `temp_keys` and `temp_children` become its keys and children with the new ones
-- in their places.
pub gather-children :
    {p : BTreeNode} (order : ℕ) (pre post : List Key) (cpre cpost : List ℕ) (rrn : ℕ) (k : Key)
    → Holds p (pre ++ post)
    → HoldsChildren p (cpre ++ cpost)
    → Ascending (pre ++ k ∷ post)
    → length cpre ≡ length pre + 1
    → length cpost ≡ length post
    → p.leaf ≡ false
    → p.keys_num + 1 ≡ order
    → order < length p.children
    → gather order p (some rrn) k ≡ ok (pre ++ k ∷ post, cpre ++ rrn ∷ cpost)
unfolding gather add_child
gather-children {p} order pre post cpre cpost rrn k holds holds_cs asc clen csize inner full room =
    let zeros : List Key = replicate order zero_key in
    let kids : List ℕ = replicate (order + 1) no_child in
    let n : length pre + length post ≡ p.keys_num = sym (length-append pre post) ∙ holds.count in
    let cn : p.child_num ≡ order =
      omega (arith, length-append cpre cpost, holds_cs.count, n, clen, csize, full) in
    let (r, copy) =
      front-and-one p.keys_num pre post holds.spare zeros holds.cells holds.count
        (omega (arith, full, length-replicate order zero_key)) in
    let cells : length p.children ≡ order + length holds_cs.spare =
      ap (λ t. length t) holds_cs.cells
      ∙ omega (arith, length-append (cpre ++ cpost) holds_cs.spare, holds_cs.count, cn) in
    let (g, behind, spare_is) = one-more holds_cs.spare (omega (arith, cells, room)) in
    let ccopy =
      front-and-next p.child_num cpre cpost g behind kids
        (holds_cs.cells ∙ ap (λ t. (cpre ++ cpost) ++ t) spare_is) holds_cs.count
        (omega (arith, cn, length-replicate (order + 1) no_child)) in
    let (v, w, slid) =
      slide-children p.keys_num (length post) k.id pre post r [] cpre cpost g [] n refl clen csize
        (Ascending-below pre k post asc) (Ascending-above pre k post asc) in
    rw (
      gather,
      copy,
      inner,
      ccopy,
      slid,
      over pre v k post (length pre) refl,
      over cpre w rrn cpost (length pre + 1) clen,
      ◌>>=◌,
    )
