-- ===== src/BTree/Split/Gather.antt =====
-- The first half of `split` of BTree.c, on a full leaf: its keys and the new one in order.
use Prim.Native.Nat.{Ordering, lt, gt}
use gaveta.Base.{
  ℕ, zero, suc, ◌+◌, ◌≤◌, ◌≡◌, refl, sym, ◌∙◌, ap, ap₂, subst, true, false, Option, none, some,
  List, [], ◌∷◌, ◌++◌, append_assoc, append-nil, arith, length, length-append, length-replicate,
  replicate, unsnoc, get_elem?, get_elem?-append_right, inl, inr, ◌==◌, ok, ◌>>=◌,
}
use gaveta.Heap.{Bytes}
use gaveta.BTree.{Key, BTreeNode, strcmp, put_elem, copy_up}
use gaveta.BTree.Shift.{put_elem-append}
use gaveta.BTree.Search.{Holds, Before, nil, cons, Ascending, has_key, strcmp_trans, Ordering-cases}
use gaveta.BTree.Insert.{insert_key}
use gaveta.BTree.Balance.{copy_up-copied}
use gaveta.BTree.Split.{zero_key, no_child, slide, add_child, gather, no_memory, no_rrn, split}

-- The keys are all related to `id` by this comparison.
pub data All (o : Ordering) (id : Bytes) : List Key → Type 0 where
  all_nil : All o id []
  all_cons : {k : Key} {ks : List Key} → strcmp k.id id ≡ o → All o id ks → All o id (k ∷ ks)

pub All-unsnoc :
    {o : Ordering} {id : Bytes} (ys : List Key) (y : Key)
    → All o id (ys ++ y ∷ [])
    → All o id ys × (strcmp y.id id ≡ o)
All-unsnoc [] y (all_cons e all_nil) = (all_nil, e)
All-unsnoc (x ∷ ys) y (all_cons e all) =
    let (before, last) = All-unsnoc ys y all in (all_cons e before, last)

-- The loop passes over the bigger keys, which move up by one cell, and stops at a smaller one.
slide-stops :
    (n : ℕ) (id : Bytes) (pre : List Key) (spare : List Key) (children : List ℕ)
    → length pre ≡ n
    → All lt id pre
    → slide n true id (pre ++ spare) children ≡ ok (n, pre ++ spare, children)
unfolding slide
slide-stops zero id pre spare children len all = refl
slide-stops (suc n) id pre spare children len all =
    let (ys, y, is, len') = unsnoc n pre len in
    let (_, last) = All-unsnoc ys y (subst (λ t. All lt id t) is all) in
    let here : length ys + 0 ≡ n = omega (arith, len') in
    let at : get_elem? (pre ++ spare) n ≡ some y =
      ap (λ t. get_elem? t n) (ap (λ t. t ++ spare) is ∙ append_assoc ys (y ∷ []) spare)
      ∙ subst (λ j. get_elem? (ys ++ y ∷ spare) j ≡ some y) here
          (get_elem?-append_right ys (y ∷ spare) 0) in
    rw (slide, at, last)

slide-moved :
    (n c : ℕ) (id : Bytes) (pre post : List Key) (r : Key) (spare : List Key) (children : List ℕ)
    → length pre + length post ≡ n
    → length post ≡ c
    → All lt id pre
    → All gt id post
    → (v : Key) × (slide n true id (pre ++ (post ++ r ∷ spare)) children
        ≡ ok (length pre, pre ++ v ∷ (post ++ spare), children))
unfolding slide
slide-moved n zero id pre [] r spare children len size below above =
    let e : length pre ≡ n = omega (arith, len) in
    (
      r,
      slide-stops n id pre (r ∷ spare) children e below
          ∙ ap (λ j. ok (j, pre ++ r ∷ spare, children)) (sym e),
    )
slide-moved n zero id pre (k ∷ post) r spare children len size below above =
    absurd (omega (arith, size))
slide-moved zero (suc c) id pre post r spare children len size below above =
    absurd (omega (arith, len, size))
slide-moved (suc n) (suc c) id pre post r spare children len size below above =
    let (ys, y, is, len') = unsnoc c post size in
    let (above', last) = All-unsnoc ys y (subst (λ t. All gt id t) is above) in
    let (v, run) =
      slide-moved n c id pre ys y (y ∷ spare) children (omega (arith, len, size, len')) len' below
        above' in
    let front : pre ++ (post ++ r ∷ spare) ≡ (pre ++ ys) ++ y ∷ r ∷ spare =
      ap (λ t. pre ++ t) (ap (λ t. t ++ r ∷ spare) is ∙ append_assoc ys (y ∷ []) (r ∷ spare))
      ∙ sym (append_assoc pre ys (y ∷ r ∷ spare)) in
    let back : post ++ spare ≡ ys ++ y ∷ spare =
      ap (λ t. t ++ spare) is ∙ append_assoc ys (y ∷ []) spare in
    let joined : length (pre ++ ys) ≡ n = omega (arith, length-append pre ys, len, size, len') in
    let here : length (pre ++ ys) + 0 ≡ n = omega (arith, joined) in
    let there : length (pre ++ ys) + 1 ≡ n + 1 = omega (arith, joined) in
    let at : get_elem? ((pre ++ ys) ++ y ∷ r ∷ spare) n ≡ some y =
      subst (λ j. get_elem? ((pre ++ ys) ++ y ∷ r ∷ spare) j ≡ some y) here
        (get_elem?-append_right (pre ++ ys) (y ∷ r ∷ spare) 0) in
    let write : put_elem ((pre ++ ys) ++ y ∷ r ∷ spare) (n + 1) y
        ≡ ok ((pre ++ ys) ++ y ∷ y ∷ spare) =
      subst (λ j. put_elem ((pre ++ ys) ++ y ∷ r ∷ spare) j y ≡ ok ((pre ++ ys) ++ y ∷ y ∷ spare))
        there (put_elem-append (pre ++ ys) (y ∷ r ∷ spare) 1 y (omega arith)) in
    (
      v,
      ap (λ t. slide (suc n) true id t children) front
          ∙ rw (slide, at, last, write, ◌>>=◌)
              (ap (λ t. slide n true id t children) (append_assoc pre ys (y ∷ y ∷ spare))
                ∙ run
                ∙ ap (λ t. ok (length pre, pre ++ v ∷ t, children)) (sym back)),
    )

pub above-Before :
    (id : Bytes) (k : Key) (ks : List Key) → strcmp k.id id ≡ gt → Before k ks → All gt id ks
above-Before id k [] g nil = all_nil
above-Before id k (l ∷ ks) g (cons b before) =
    all_cons (strcmp_trans k.id id l.id g b) (above-Before id k ks g before)

-- The place of a new key is between the smaller and the bigger ones.
insert_key-parts :
    (k : Key) (ks : List Key)
    → has_key k.id ks ≡ false
    → Ascending ks
    → (pre post : List Key) × (ks ≡ pre ++ post)
      × All lt k.id pre
      × All gt k.id post
      × (insert_key k ks ≡ pre ++ k ∷ post)
unfolding insert_key has_key
insert_key-parts k [] new nil = ([], [], refl, all_nil, all_nil, refl)
insert_key-parts k (l ∷ ks) new (cons l_id before asc) = elim (Ordering-cases (strcmp l.id k.id)) [
  | inl e ↦
      let later : has_key k.id ks ≡ false = ground (arith, new, e) in
      let (pre, post, is, below, above, ins) = insert_key-parts k ks later asc in
      (l ∷ pre, post, ap (λ t. l ∷ t) is, all_cons e below, above, rw e (ap (λ t. l ∷ t) ins))
  | inr (inl e) ↦ absurd (ground (arith, new, e))
  | inr (inr e) ↦
      ([], l ∷ ks, refl, all_nil, all_cons e (above-Before k.id l ks e before), rw e refl)
]

-- The first cells of an array are copied to the front of another.
pub copied :
    (ks behind room : List Key)
    → length ks ≤ length room
    → (rest : List Key) × (copy_up (length ks) 0 0 (ks ++ behind) room ≡ ok (ks ++ rest))
      × (length ks + length rest ≡ length room)
copied ks behind room fits = copy_up-copied [] ks behind [] room fits

pub one-cell : (rest : List Key) → length rest ≡ 1 → (r : Key) × (rest ≡ r ∷ [])
one-cell [] e = absurd (omega (arith, e))
one-cell (r ∷ []) e = (r, refl)
one-cell (r ∷ x ∷ rest) e = absurd (omega (arith, e))

add_child-leaf :
    (r_child : Option ℕ) (n : ℕ) (children : List ℕ)
    → add_child r_child true n children ≡ ok children
unfolding add_child
add_child-leaf none n children = refl
add_child-leaf (some rrn) n children = refl

-- Of a full leaf, with one key less than the order and the keys ascending, `temp_keys` becomes its keys
-- with the new one in its place, where the leaf does not hold this key, and `temp_children` stays empty.
pub gathered :
    {p : BTreeNode} {ks : List Key} (order : ℕ) (r_child : Option ℕ) (k : Key)
    → Holds p ks
    → Ascending ks
    → p.leaf ≡ true
    → p.keys_num + 1 ≡ order
    → has_key k.id ks ≡ false
    → gather order p r_child k ≡ ok (insert_key k ks, replicate (order + 1) no_child)
unfolding gather
gathered {p} {ks} order r_child k holds asc leaf full new =
    let (pre, post, is, below, above, ins) = insert_key-parts k ks new asc in
    let zeros : List Key = replicate order zero_key in
    let zeros_len : length zeros ≡ order = length-replicate order zero_key in
    let (rest, copy, len) =
      copied ks holds.spare zeros (omega (arith, holds.count, full, zeros_len)) in
    let (r, rest_is) = one-cell rest (omega (arith, len, holds.count, full, zeros_len)) in
    let kids : List ℕ = replicate (order + 1) no_child in
    let copy' : copy_up p.keys_num 0 0 p.keys zeros ≡ ok (pre ++ (post ++ r ∷ [])) =
      ap₂ (λ n t. copy_up n 0 0 t zeros) (sym holds.count) holds.cells
      ∙ copy
      ∙ ap (λ t. ok t) (ap₂ (λ a b. a ++ b) is rest_is ∙ append_assoc pre post (r ∷ [])) in
    let n : length pre + length post ≡ p.keys_num =
      sym (length-append pre post) ∙ ap (λ t. length t) (sym is) ∙ holds.count in
    let (v, slid) =
      slide-moved p.keys_num (length post) k.id pre post r [] kids n refl below above in
    let here : length pre + 0 ≡ length pre = omega arith in
    let write : put_elem (pre ++ v ∷ (post ++ [])) (length pre) k ≡ ok (pre ++ k ∷ (post ++ [])) =
      subst (λ j. put_elem (pre ++ v ∷ (post ++ [])) j k ≡ ok (pre ++ k ∷ (post ++ []))) here
        (put_elem-append pre (v ∷ (post ++ [])) 0 k (omega arith)) in
    let done : pre ++ k ∷ (post ++ []) ≡ insert_key k ks =
      ap (λ t. pre ++ k ∷ t) (append-nil post) ∙ sym ins in
    rw (gather, copy', leaf, slid, write, add_child-leaf r_child (length pre) kids, ◌>>=◌)
      (ap (λ t. ok (t, kids)) done)

-- Without a record number for the new node nothing is split.
pub split-no_rrn :
    (order : ℕ) (p new : BTreeNode) (r_child : Option ℕ) (k : Key) {t : List Key × List ℕ}
    → gather order p r_child k ≡ ok t
    → new.rrn ≡ no_child
    → split order p r_child k (some new) ≡ ok no_rrn
unfolding split
split-no_rrn order p new r_child k run gone =
    let out : (new.rrn == no_child) ≡ true = ground (arith, gone) in rw (run, ◌>>=◌, out) refl

-- Without memory for the new node nothing is split.
pub split-no_memory :
    (order : ℕ) (p : BTreeNode) (r_child : Option ℕ) (k : Key)
    → split order p r_child k none ≡ (gather order p r_child k >>= λ t. ok no_memory)
unfolding split
split-no_memory order p r_child k = refl
