-- ===== src/BTree/Split/Halves.antt =====
-- The second half of `split` of BTree.c, on a full leaf: two leaves and a promoted key. The new node is one
-- with room for its keys, which the program's own `alloc_btree_node` never makes.
use gaveta.Base.{
  ℕ, zero, suc, ◌+◌, ◌-◌, ◌/◌, ◌%◌, ◌^◌, ◌≤◌, ◌<◌, ◌≡◌, ◌≢◌, refl, sym, ◌∙◌, ap, ap₂, Bool, true,
  false, Option, some, List, [], ◌∷◌, ◌++◌, append-nil, arith, ◌==◌, if◌then◌else◌, length,
  length-append, length-take, length-drop, take, drop, get_elem?, inl, inr, ok, ◌>>=◌,
}
use gaveta.BTree.{Key, BTreeNode, strcmp, copy_up}
use gaveta.BTree.Search.{Holds, Ascending, has_key, Ordering-cases}
use gaveta.BTree.Insert.{insert_key, insert_key-Ascending}
use gaveta.BTree.Split.{promotion, no_child, split_leaf_at, split_leaf, split}
use gaveta.BTree.Split.Gather.{copied, gathered}

length-insert_key : (k : Key) (ks : List Key) → length (insert_key k ks) ≡ length ks + 1
unfolding insert_key
length-insert_key k [] = refl
length-insert_key k (l ∷ ks) = elim (Ordering-cases (strcmp l.id k.id)) [
  | inl e ↦ rw e (omega (arith, length-insert_key k ks))
  | inr (inl e) ↦ rw e (omega arith)
  | inr (inr e) ↦ rw e (omega arith)
]

take-drop : (n : ℕ) (xs : List Key) → take n xs ++ drop n xs ≡ xs
take-drop zero xs = refl
take-drop (suc n) [] = refl
take-drop (suc n) (x ∷ xs) = ap (λ t. x ∷ t) (take-drop n xs)

first-key :
    (rs rest : List Key)
    → 0 < length rs
    → (k : Key) × (get_elem? (rs ++ rest) 0 ≡ some k) × (get_elem? rs 0 ≡ some k)
first-key [] rest l = absurd (omega arith)
first-key (k ∷ rs) rest l = (k, refl, refl)

-- The two leaves of a split hold the keys `all` of both.
pub record Halves (order : ℕ) (p new : BTreeNode) (all : List Key) (q right : BTreeNode)
    (promo : Key) : Type 0 where
  pub ls : List Key
  pub rs : List Key
  pub left_keys : Holds q ls
  pub right_keys : Holds right rs
  pub together : ls ++ rs ≡ all
  pub middle : length ls ≡ (order - 1) / 2 + 1
  pub promoted : get_elem? rs 0 ≡ some promo
  pub left_next : q.next_leaf ≡ new.rrn
  pub right_next : right.next_leaf ≡ p.next_leaf
  pub right_size : length ls + length rs ≡ order
  pub left_rrn : q.rrn ≡ p.rrn
  pub right_rrn : right.rrn ≡ new.rrn
  pub left_leaf : q.leaf ≡ p.leaf
  pub right_leaf : right.leaf ≡ true
  pub left_cells : length q.keys ≡ length p.keys
  pub right_cells : length right.keys ≡ length new.keys
  pub left_children : q.children ≡ p.children
  pub right_children : right.children ≡ new.children

split_leaf_at-run :
    (p new : BTreeNode) (middle kept moved : ℕ) (all left right : List Key) (k : Key)
    → copy_up kept 0 0 all p.keys ≡ ok left
    → copy_up moved 0 0 (drop (middle + 1) all) new.keys ≡ ok right
    → get_elem? right 0 ≡ some k
    → split_leaf_at middle kept moved p new all
      ≡ ok (
          promotion
            (record p { keys = left; keys_num = kept; next_leaf = new.rrn })
            (record new { keys = right; keys_num = moved; next_leaf = p.next_leaf; leaf = true })
            k)
unfolding split_leaf_at
split_leaf_at-run p new middle kept moved all left right k copy copy' at =
    rw (split_leaf_at, copy, ◌>>=◌, copy', at)

if-true : {A : Type 0} (b : Bool) (x y : A) → b ≡ true → (if b then x else y) ≡ x
if-true b x y e = rw e refl

split_leaf-Halves :
    (p new : BTreeNode) (order : ℕ) (all : List Key)
    → length all ≡ order
    → 2 ≤ order
    → order < 256
    → order ≤ length p.keys + 1
    → order ≤ length new.keys
    → (q right : BTreeNode) × (promo : Key) × (split_leaf order p new all
        ≡ ok (promotion q right promo))
      × Halves order p new all q right promo
unfolding split_leaf
split_leaf-Halves p new order all len two byte room room_new =
    let m : ℕ = (order - 1) / 2 in
    let ls : List Key = take (m + 1) all in
    let rs : List Key = drop (m + 1) all in
    let both : ls ++ rs ≡ all = take-drop (m + 1) all in
    let small : m + 1 ≤ order - 1 = omega (arith, two) in
    let ll : length ls ≡ m + 1 = omega (arith, length-take (m + 1) all, len, small) in
    let lr : length rs ≡ order - (m + 1) = omega (arith, length-drop (m + 1) all, len) in
    let (rest, copy, size) = copied ls rs p.keys (omega (arith, ll, small, room)) in
    let (rest', copy', size') = copied rs [] new.keys (omega (arith, lr, room_new)) in
    let (promo, at, first) = first-key rs rest' (omega (arith, lr, small)) in
    let kept : (m + 1) % 2 ^ 8 ≡ m + 1 = omega (arith, small, byte) in
    let moved : (order - (m + 1)) % 2 ^ 8 ≡ order - (m + 1) = omega (arith, byte) in
    let left : copy_up (m + 1) 0 0 all p.keys ≡ ok (ls ++ rest) =
      ap₂ (λ n t. copy_up n 0 0 t p.keys) (sym ll) (sym both) ∙ copy in
    let right : copy_up (order - (m + 1)) 0 0 rs new.keys ≡ ok (rs ++ rest') =
      ap₂ (λ n t. copy_up n 0 0 t new.keys) (sym lr) (sym (append-nil rs)) ∙ copy' in
    (
      record p { keys = ls ++ rest; keys_num = m + 1; next_leaf = new.rrn },
      record new {
        keys = rs ++ rest';
        keys_num = order - (m + 1);
        next_leaf = p.next_leaf;
        leaf = true;
      },
      promo,
      ap₂ (λ k n. split_leaf_at m k n p new all) kept moved
          ∙ split_leaf_at-run p new m (m + 1) (order - (m + 1)) all (ls ++ rest) (rs ++ rest') promo
              left right at,
      record {
        ls = ls;
        rs = rs;
        left_keys = record { spare = rest; cells = refl; count = ll };
        right_keys = record { spare = rest'; cells = refl; count = lr };
        together = both;
        middle = ll;
        promoted = first;
        left_next = refl;
        right_next = refl;
        right_size = omega (arith, ll, lr, small);
        left_rrn = refl;
        right_rrn = refl;
        left_leaf = refl;
        right_leaf = refl;
        left_cells = omega (arith, length-append ls rest, size);
        right_cells = omega (arith, length-append rs rest', size');
        left_children = refl;
        right_children = refl;
      },
    )

-- On a full leaf of ascending keys, with a key that is neither empty nor there, and a new node with
-- `order` cells and a record number, `split` leaves all keys and the new one in order in two leaves,
-- `(order - 1) / 2 + 1` of them in the old one. It promotes the first key of the new leaf, which comes
-- behind the old one in the chain of leaves. The order is from 2 to 255.
pub split-Halves :
    {p new : BTreeNode} {ks : List Key} (order : ℕ) (r_child : Option ℕ) (k : Key)
    → Holds p ks
    → Ascending ks
    → p.leaf ≡ true
    → p.keys_num + 1 ≡ order
    → 2 ≤ order
    → order < 256
    → order ≤ length new.keys
    → new.rrn ≢ no_child
    → k.id ≢ []
    → has_key k.id ks ≡ false
    → (q right : BTreeNode) × (promo : Key) × (split order p r_child k (some new)
        ≡ ok (promotion q right promo))
      × Halves order p new (insert_key k ks) q right promo
      × Ascending (insert_key k ks)
unfolding split
split-Halves {p} {new} {ks} order r_child k holds asc leaf full two byte room rrn some_id fresh =
    let cells : length p.keys ≡ length ks + length holds.spare =
      ap (λ t. length t) holds.cells ∙ length-append ks holds.spare in
    let (q, right, promo, run, halves) =
      split_leaf-Halves p new order (insert_key k ks)
        (omega (arith, length-insert_key k ks, holds.count, full)) two byte
        (omega (arith, cells, holds.count, full)) room in
    let named : (new.rrn == no_child) ≡ false = ground (arith, rrn) in
    (
      q,
      right,
      promo,
      rw (gathered order r_child k holds asc leaf full fresh, ◌>>=◌, named)
          (if-true p.leaf _ _ leaf ∙ run),
      halves,
      insert_key-Ascending k ks some_id fresh asc,
    )
