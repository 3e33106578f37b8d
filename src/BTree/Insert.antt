-- ===== src/BTree/Insert.antt =====
-- `insert_in_btree_node` of BTree.c at the position that `search_in_btree_node` returns.
use Prim.Native.Nat.{lt, gt}
use gaveta.Base.{
  ℕ, ◌+◌, ◌-◌, ◌%◌, ◌^◌, ◌<◌, ◌≡◌, ◌≢◌, refl, sym, ◌∙◌, ap, ap₂, subst, true, false, Option, none,
  some, List, [], ◌∷◌, ◌++◌, append_assoc, arith, if◌then◌else◌, length, length-append, inl, inr,
  ok, ◌>>=◌,
}
use gaveta.Heap.{Bytes}
use gaveta.BTree.{
  Key, BTreeNode, strcmp, put_elem, shift_up, open_at, insert_child, search_in_btree_node,
  insert_in_btree_node,
}
use gaveta.BTree.Shift.{shift_up-put_elem, open_at-length}
use gaveta.BTree.Search.{
  Holds, Before, nil, cons, Ascending, is_lt, has_key, count_smaller, none-after, Ordering-cases,
  search_in_btree_node-count,
}

-- The key at its place in the order.
unfoldable pub insert_key : Key → List Key → List Key
insert_key k [] = k ∷ []
insert_key k (l ∷ ks) = if is_lt (strcmp l.id k.id) then l ∷ insert_key k ks else k ∷ l ∷ ks

Before-insert_key :
    (l k : Key) (ks : List Key) → strcmp l.id k.id ≡ lt → Before l ks → Before l (insert_key k ks)
unfolding insert_key
Before-insert_key l k [] lk nil = cons lk nil
Before-insert_key l k (m ∷ ks) lk (cons b before) = elim (Ordering-cases (strcmp m.id k.id)) [
  | inl e ↦ rw e (cons b (Before-insert_key l k ks lk before))
  | inr (inl e) ↦ rw e (cons lk (cons b before))
  | inr (inr e) ↦ rw e (cons lk (cons b before))
]

pub strcmp-back : (s t : Bytes) → strcmp s t ≡ gt → strcmp t s ≡ lt
unfolding strcmp
strcmp-back [] [] e = cc
strcmp-back [] (b ∷ t) e = cc
strcmp-back (a ∷ s) [] e = refl
strcmp-back (a ∷ s) (b ∷ t) e = ground (arith, strcmp-back s t, e)

pub strcmp-lt_trans : (s t u : Bytes) → strcmp s t ≡ lt → strcmp t u ≡ lt → strcmp s u ≡ lt
unfolding strcmp
strcmp-lt_trans s [] [] a b = cc
strcmp-lt_trans [] [] (c ∷ u) a b = refl
strcmp-lt_trans (x ∷ s) [] u a b = cc
strcmp-lt_trans s (y ∷ t) [] a b = cc
strcmp-lt_trans [] (y ∷ t) (c ∷ u) a b = refl
strcmp-lt_trans (x ∷ s) (y ∷ t) (c ∷ u) a b = ground (arith, strcmp-lt_trans s t u, a, b)

pub Before-below : (k l : Key) (ks : List Key) → strcmp k.id l.id ≡ lt → Before l ks → Before k ks
Before-below k l [] kl nil = nil
Before-below k l (m ∷ ks) kl (cons b before) =
    cons (strcmp-lt_trans k.id l.id m.id kl b) (Before-below k l ks kl before)

-- A new key in its place keeps the order.
pub insert_key-Ascending :
    (k : Key) (ks : List Key)
    → k.id ≢ []
    → has_key k.id ks ≡ false
    → Ascending ks
    → Ascending (insert_key k ks)
unfolding insert_key has_key
insert_key-Ascending k [] some_id new nil = cons some_id nil nil
insert_key-Ascending k (l ∷ ks) some_id new (cons l_id before asc) =
    elim (Ordering-cases (strcmp l.id k.id)) [
      | inl e ↦
          let later : has_key k.id ks ≡ false = ground (arith, new, e) in
          rw e (
            cons l_id (Before-insert_key l k ks e before)
              (insert_key-Ascending k ks some_id later asc))
      | inr (inl e) ↦ absurd (ground (arith, new, e))
      | inr (inr e) ↦
          let kl = strcmp-back l.id k.id e in
          rw e (cons some_id (cons kl (Before-below k l ks kl before)) (cons l_id before asc))
    ]

-- The place is behind the smaller keys.
pub insert_key-split :
    (k : Key) (ks : List Key)
    → has_key k.id ks ≡ false
    → Ascending ks
    → (pre post : List Key) × (ks ≡ pre ++ post)
      × (length pre ≡ count_smaller k.id ks)
      × (insert_key k ks ≡ pre ++ k ∷ post)
unfolding insert_key has_key count_smaller
insert_key-split k [] new nil = ([], [], refl, refl, refl)
insert_key-split k (l ∷ ks) new (cons l_id before asc) = elim (Ordering-cases (strcmp l.id k.id)) [
  | inl e ↦
      let later : has_key k.id ks ≡ false = ground (arith, new, e) in
      let (pre, post, is, at, ins) = insert_key-split k ks later asc in
      (l ∷ pre, post, ap (λ t. l ∷ t) is, rw e (omega (arith, at)), rw e (ap (λ t. l ∷ t) ins))
  | inr (inl e) ↦ absurd (ground (arith, new, e))
  | inr (inr e) ↦
      let (_, c) = none-after k.id l ks e before in
      ([], l ∷ ks, refl, rw e (omega (arith, c)), rw e refl)
]

-- The first cells of an array of record numbers.
pub record HoldsChildren (p : BTreeNode) (cs : List ℕ) : Type 0 where
  pub spare : List ℕ
  pub cells : p.children ≡ cs ++ spare
  pub count : length cs ≡ p.child_num

-- What an insertion leaves alone: the number of the page, its kind, its neighbour, and the room.
pub record SameRoom (p q : BTreeNode) : Type 0 where
  pub rrn : q.rrn ≡ p.rrn
  pub kind : q.leaf ≡ p.leaf
  pub next : q.next_leaf ≡ p.next_leaf
  pub key_cells : length q.keys ≡ length p.keys
  pub child_cells : length q.children ≡ length p.children

-- With a cell to spare, both loops insert.
pub open_at-inserted :
    {A : Type 0} (n : ℕ) (arr pre post spare : List A) (v : A)
    → arr ≡ (pre ++ post) ++ spare
    → length pre + length post ≡ n
    → n < length arr
    → (rest : List A) × (open_at arr n (length pre) v ≡ ok ((pre ++ v ∷ post) ++ rest))
unfolding open_at
open_at-inserted n arr pre post [] v is len room =
    let short : length arr ≡ length pre + length post + 0 =
      ap (λ t. length t) is
      ∙ omega (arith, length-append (pre ++ post) [], length-append pre post) in
    absurd (omega (arith, short, len, room))
open_at-inserted n arr pre post (r ∷ spare) v is len room =
    let at : n - length pre ≡ length post = omega (arith, len) in
    let front : arr ≡ pre ++ (post ++ r ∷ spare) = is ∙ append_assoc pre post (r ∷ spare) in
    (
      spare,
      ap₂ (λ c t. shift_up c (length pre) t >>= λ moved. put_elem moved (length pre) v) at front
          ∙ shift_up-put_elem pre post r v spare
          ∙ ap (λ t. ok t) (sym (append_assoc pre (v ∷ post) spare)),
    )

module _ {p : BTreeNode} (pre post : List Key) (k : Key) (holds : Holds p (pre ++ post))
    (room : p.keys_num < length p.keys) (small : p.keys_num < 255) where
  len : length pre + length post ≡ p.keys_num
  len = omega (arith, length-append pre post, holds.count)

  with_keys :
      (rest : List Key) × (open_at p.keys p.keys_num (length pre) k
        ≡ ok ((pre ++ k ∷ post) ++ rest))
  with_keys = open_at-inserted p.keys_num p.keys pre post holds.spare k holds.cells len room

  abbrev keyed : BTreeNode
  keyed = record p { keys = (pre ++ k ∷ post) ++ with_keys.0; keys_num = p.keys_num + 1 }

  keyed-Holds : Holds keyed (pre ++ k ∷ post)
  keyed-Holds = record {
    spare = with_keys.0;
    cells = refl;
    count = omega (arith, length-append pre (k ∷ post), len);
  }

  keyed-SameRoom : SameRoom p keyed
  keyed-SameRoom = record {
    rrn = refl;
    kind = refl;
    next = refl;
    key_cells =
        open_at-length p.keys ((pre ++ k ∷ post) ++ with_keys.0) p.keys_num (length pre) k
          with_keys.1;
    child_cells = refl;
  }

  insert-run :
      (r_child : Option ℕ)
      → insert_in_btree_node (some p) k r_child (length pre)
        ≡ (insert_child keyed r_child (length pre) >>= λ q. ok (some q))
  unfolding insert_in_btree_node
  insert-run r_child =
      let n : (p.keys_num + 1) % 2 ^ 8 ≡ p.keys_num + 1 = omega (arith, small) in
      rw (with_keys.1, n)

  -- Of a leaf only the keys change: the new one stands at its position.
  pub insert_in_btree_node-leaf :
      (r_child : Option ℕ)
      → p.leaf ≡ true
      → (q : BTreeNode) × (insert_in_btree_node (some p) k r_child (length pre) ≡ ok (some q))
        × Holds q (pre ++ k ∷ post)
        × (q.children ≡ p.children)
        × SameRoom p q
  unfolding insert_child
  insert_in_btree_node-leaf none leaf = (keyed, insert-run none, keyed-Holds, refl, keyed-SameRoom)
  insert_in_btree_node-leaf (some rrn) leaf =
      (keyed, insert-run (some rrn) ∙ rw leaf refl, keyed-Holds, refl, keyed-SameRoom)

  -- With cells to spare and counters below 255, a key and the child to its right are inserted into an
  -- inner node together: the child goes one place further than the key. The node keeps its number, kind, neighbour and room.
  pub insert_in_btree_node-child :
      (lpre lpost : List ℕ) (rrn : ℕ)
      → HoldsChildren p (lpre ++ lpost)
      → length lpre ≡ length pre + 1
      → p.leaf ≡ false
      → p.child_num < length p.children
      → p.child_num < 255
      → (q : BTreeNode) × (insert_in_btree_node (some p) k (some rrn) (length pre) ≡ ok (some q))
        × Holds q (pre ++ k ∷ post)
        × HoldsChildren q (lpre ++ rrn ∷ lpost)
        × SameRoom p q
  unfolding insert_child
  insert_in_btree_node-child lpre lpost rrn hc at leaf room_c small_c =
      let len_c : length lpre + length lpost ≡ p.child_num =
        omega (arith, length-append lpre lpost, hc.count) in
      let (rest, run) =
        open_at-inserted p.child_num p.children lpre lpost hc.spare rrn hc.cells len_c room_c in
      let n : (p.child_num + 1) % 2 ^ 8 ≡ p.child_num + 1 = omega (arith, small_c) in
      (
        record keyed { children = (lpre ++ rrn ∷ lpost) ++ rest; child_num = p.child_num + 1 },
        insert-run (some rrn) ∙ rw (leaf, ← at, run, n),
        record { spare = with_keys.0; cells = refl; count = keyed-Holds.count },
        record {
          spare = rest;
          cells = refl;
          count = omega (arith, length-append lpre (rrn ∷ lpost), len_c);
        },
        record {
          rrn = refl;
          kind = refl;
          next = refl;
          key_cells = keyed-SameRoom.key_cells;
          child_cells =
              open_at-length p.children ((lpre ++ rrn ∷ lpost) ++ rest) p.child_num (length lpre)
                rrn run;
        },
      )

-- On a leaf with ascending keys, a cell to spare and fewer than 255 keys, a key that is not there and
-- not empty goes where the search says: the leaf then holds the keys with it in its place, and they
-- ascend.
pub insert_in_btree_node-Ascending :
    {p : BTreeNode} {ks : List Key} (k : Key) (r_child : Option ℕ)
    → Holds p ks
    → Ascending ks
    → p.leaf ≡ true
    → p.keys_num < length p.keys
    → p.keys_num < 255
    → k.id ≢ []
    → has_key k.id ks ≡ false
    → (pos : ℕ) × (q : BTreeNode) × (search_in_btree_node (some p) k.id ≡ ok (some (false, pos)))
      × (insert_in_btree_node (some p) k r_child pos ≡ ok (some q))
      × Holds q (insert_key k ks)
      × Ascending (insert_key k ks)
insert_in_btree_node-Ascending {p} {ks} k r_child holds asc leaf room small some_id new =
    let (pre, post, is, at, ins) = insert_key-split k ks new asc in
    let holds' : Holds p (pre ++ post) = subst (λ t. Holds p t) is holds in
    let (q, run, hq, _, _) = insert_in_btree_node-leaf pre post k holds' room small r_child leaf in
    (
      length pre,
      q,
      search_in_btree_node-count k.id holds asc ∙ ap₂ (λ b n. ok (some (b, n))) new (sym at),
      run,
      subst (λ t. Holds q t) (sym ins) hq,
      insert_key-Ascending k ks some_id new asc,
    )
