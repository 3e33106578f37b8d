-- ===== src/BTree/Split/Inner.antt =====
-- `split` of BTree.c on a full inner node, with a new node that has room for its keys and children, which
-- the program's own `alloc_btree_node` never makes.
use gaveta.Base.{
  ℕ, ◌+◌, ◌-◌, ◌/◌, ◌%◌, ◌^◌, ◌≤◌, ◌<◌, ◌≡◌, ◌≢◌, refl, sym, ◌∙◌, ap, ap₂, Bool, false, some, List,
  [], ◌∷◌, ◌++◌, append-nil, arith, ◌==◌, length, length-append, length-take, length-drop, take,
  drop, get_elem?, ok, ◌>>=◌, if◌then◌else◌,
}
use gaveta.BTree.{Key, BTreeNode, copy_up}
use gaveta.BTree.Search.{Holds, Ascending}
use gaveta.BTree.Insert.{HoldsChildren}
use gaveta.BTree.Split.{promotion, no_child, split_inner_at, split_inner, split}
use gaveta.BTree.Split.Children.{around, take-drop, copied-front, gather-children}

-- Two inner nodes with the keys and children of one, around a promoted key.
pub record InnerHalves (order : ℕ) (p new : BTreeNode) (all : List Key) (cs : List ℕ)
    (q right : BTreeNode) (promo : Key) : Type 0 where
  pub ls : List Key
  pub rs : List Key
  pub lc : List ℕ
  pub rc : List ℕ
  pub keys_around : all ≡ ls ++ promo ∷ rs
  pub children_around : cs ≡ lc ++ rc
  pub middle : length ls ≡ (order - 1) / 2
  pub left_more : length lc ≡ length ls + 1
  pub right_size : length rs + 1 + length ls ≡ order
  pub left_keys : Holds q ls
  pub right_keys : Holds right rs
  pub left_children : HoldsChildren q lc
  pub right_children : HoldsChildren right rc
  pub left_rrn : q.rrn ≡ p.rrn
  pub right_rrn : right.rrn ≡ new.rrn
  pub left_inner : q.leaf ≡ false
  pub right_inner : right.leaf ≡ false
  pub left_cells : length q.keys ≡ length p.keys
  pub right_cells : length right.keys ≡ length new.keys
  pub left_child_cells : length q.children ≡ length p.children
  pub right_child_cells : length right.children ≡ length new.children

split_inner_at-run :
    (p new : BTreeNode) (middle kept moved ck cm : ℕ) (all : List Key) (cs : List ℕ)
    (left right : List Key) (cleft cright : List ℕ) (k : Key)
    → copy_up kept 0 0 all p.keys ≡ ok left
    → get_elem? all middle ≡ some k
    → copy_up moved 0 0 (drop (middle + 1) all) new.keys ≡ ok right
    → copy_up (kept + 1) 0 0 cs p.children ≡ ok cleft
    → copy_up (moved + 1) 0 0 (drop (middle + 1) cs) new.children ≡ ok cright
    → (kept + 1) % 2 ^ 8 ≡ ck
    → (moved + 1) % 2 ^ 8 ≡ cm
    → split_inner_at middle kept moved p new all cs
      ≡ ok (
          promotion
            (record p { keys = left; keys_num = kept; children = cleft; child_num = ck })
            (record new {
              keys = right;
              keys_num = moved;
              children = cright;
              child_num = cm;
              leaf = false;
            })
            k)
unfolding split_inner_at
split_inner_at-run p new middle kept moved ck cm all cs left right cleft cright k a b c d e f g =
    rw (split_inner_at, a, b, c, d, e, f, g, ◌>>=◌) refl

if_false : {A : Type 0} (b : Bool) (x y : A) → b ≡ false → (if b then x else y) ≡ y
if_false b x y e = rw e refl

split_inner-halves :
    (p new : BTreeNode) (order : ℕ) (all : List Key) (cs : List ℕ)
    → p.leaf ≡ false
    → length all ≡ order
    → length cs ≡ order + 1
    → 2 ≤ order
    → order < 256
    → order ≤ length p.keys + 1
    → order ≤ length new.keys
    → order < length p.children
    → order < length new.children
    → (q right : BTreeNode) × (promo : Key) × (split_inner order p new all cs
        ≡ ok (promotion q right promo))
      × InnerHalves order p new all cs q right promo
unfolding split_inner
split_inner-halves p new order all cs inner len clen two byte room room_new croom croom_new =
    let m : ℕ = (order - 1) / 2 in
    let small : m + 1 ≤ order = omega (arith, two) in
    let (promo, is, at) = around m all (omega (arith, len, small)) in
    let ls : List Key = take m all in
    let rs : List Key = drop (m + 1) all in
    let lc : List ℕ = take (m + 1) cs in
    let rc : List ℕ = drop (m + 1) cs in
    let ll : length ls ≡ m = omega (arith, length-take m all, len, small) in
    let lr : length rs ≡ order - m - 1 = omega (arith, length-drop (m + 1) all, len) in
    let cl : length lc ≡ m + 1 = omega (arith, length-take (m + 1) cs, clen, small) in
    let cr : length rc ≡ order - m - 1 + 1 = omega (arith, length-drop (m + 1) cs, clen, small) in
    let kept : m % 2 ^ 8 ≡ m = omega (arith, small, byte) in
    let moved : (order - m - 1) % 2 ^ 8 ≡ order - m - 1 = omega (arith, byte) in
    let kept_c : (m + 1) % 2 ^ 8 ≡ m + 1 = omega (arith, small, byte) in
    let moved_c : (order - m - 1 + 1) % 2 ^ 8 ≡ order - m - 1 + 1 = omega (arith, two, byte) in
    let (rest, copy, size) =
      copied-front m ls (promo ∷ rs) p.keys is ll (omega (arith, small, room)) in
    let (rest', copy', size') =
      copied-front (order - m - 1) rs [] new.keys (sym (append-nil rs)) lr
        (omega (arith, room_new)) in
    let (crest, ccopy, csize) =
      copied-front (m + 1) lc rc p.children (sym (take-drop (m + 1) cs)) cl
        (omega (arith, small, croom)) in
    let (crest', ccopy', csize') =
      copied-front (order - m - 1 + 1) rc [] new.children (sym (append-nil rc)) cr
        (omega (arith, small, croom_new)) in
    (
      record p { keys = ls ++ rest; keys_num = m; children = lc ++ crest; child_num = m + 1 },
      record new {
        keys = rs ++ rest';
        keys_num = order - m - 1;
        children = rc ++ crest';
        child_num = order - m - 1 + 1;
        leaf = false;
      },
      promo,
      ap₂ (λ a b. split_inner_at m a b p new all cs) kept moved
          ∙ split_inner_at-run p new m m (order - m - 1) (m + 1) (order - m - 1 + 1) all cs
              (ls ++ rest) (rs ++ rest') (lc ++ crest) (rc ++ crest') promo copy at copy' ccopy
              ccopy' kept_c moved_c,
      record {
        ls = ls;
        rs = rs;
        lc = lc;
        rc = rc;
        keys_around = is;
        children_around = sym (take-drop (m + 1) cs);
        middle = ll;
        left_more = omega (arith, cl, ll);
        right_size = omega (arith, ll, lr, small);
        left_keys = record { spare = rest; cells = refl; count = ll };
        right_keys = record { spare = rest'; cells = refl; count = lr };
        left_children = record { spare = crest; cells = refl; count = cl };
        right_children = record { spare = crest'; cells = refl; count = cr };
        left_rrn = refl;
        right_rrn = refl;
        left_inner = inner;
        right_inner = refl;
        left_cells = omega (arith, length-append ls rest, ll, size);
        right_cells = omega (arith, length-append rs rest', lr, size');
        left_child_cells = omega (arith, length-append lc crest, cl, csize);
        right_child_cells = omega (arith, length-append rc crest', cr, csize');
      },
    )

-- On a full inner node of ascending keys, with a new key for the place behind `pre` and a child to its
-- right, and a new node with room for `order` keys and `order + 1` children, `split` leaves
-- `(order - 1) / 2` keys in the old node, promotes the next one alone, and moves the others; the
-- children go with the keys, one more than these on each side. The order is from 2 to 255.
pub split-InnerHalves :
    {p new : BTreeNode} (order : ℕ) (pre post : List Key) (cpre cpost : List ℕ) (rrn : ℕ) (k : Key)
    → Holds p (pre ++ post)
    → HoldsChildren p (cpre ++ cpost)
    → Ascending (pre ++ k ∷ post)
    → length cpre ≡ length pre + 1
    → length cpost ≡ length post
    → p.leaf ≡ false
    → p.keys_num + 1 ≡ order
    → 2 ≤ order
    → order < 256
    → order < length p.children
    → order ≤ length new.keys
    → order < length new.children
    → new.rrn ≢ no_child
    → (q right : BTreeNode) × (promo : Key) × (split order p (some rrn) k (some new)
        ≡ ok (promotion q right promo))
      × InnerHalves order p new (pre ++ k ∷ post) (cpre ++ rrn ∷ cpost) q right promo
unfolding split
split-InnerHalves {p} {new} order pre post cpre cpost rrn k holds holds_cs asc clen csize inner full
      two byte croom room_new croom_new named =
    let n : length (pre ++ k ∷ post) ≡ order =
      omega (arith, length-append pre (k ∷ post), length-append pre post, holds.count, full) in
    let cn : length (cpre ++ rrn ∷ cpost) ≡ order + 1 = omega (
      arith,
      length-append cpre (rrn ∷ cpost),
      length-append pre post,
      holds.count,
      full,
      clen,
      csize,
    ) in
    let cells : length p.keys ≡ length (pre ++ post) + length holds.spare =
      ap (λ t. length t) holds.cells ∙ length-append (pre ++ post) holds.spare in
    let (q, right, promo, run, halves) =
      split_inner-halves p new order (pre ++ k ∷ post) (cpre ++ rrn ∷ cpost) inner n cn two byte
        (omega (arith, cells, holds.count, full)) room_new croom croom_new in
    let has_rrn : (new.rrn == no_child) ≡ false = ground (arith, named) in
    let gathered =
      gather-children order pre post cpre cpost rrn k holds holds_cs asc clen csize inner full
        croom in
    (q, right, promo, rw (gathered, ◌>>=◌, has_rrn) (if_false p.leaf _ _ inner ∙ run), halves)
