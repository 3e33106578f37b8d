-- ===== src/BTree/Tree/Way.antt =====
-- The child of an inner node that a search of BTree.c goes to.
use gaveta.Base.{
  ℕ, suc, ◌+◌, ◌≡◌, refl, ◌∙◌, ap, subst, true, false, Option, some, List, ◌∷◌, arith, get_elem?,
  inl, inr,
}
use gaveta.Heap.{Bytes}
use gaveta.BTree.{Key, BTreeNode, strcmp}
use gaveta.BTree.Search.{has_key, count_smaller, Ordering-cases, none-after}
use gaveta.BTree.Tree.Trace.{
  Item, sep, keys_of, seps_of, Sorted, Sorted-left, Sorted-right, Sorted-Leads, Sorted-Follows,
}
use gaveta.BTree.Tree.Shape.{Subtree, Children, last, more, find_key}
use gaveta.BTree.Tree.Order.{
  find_key-Below, has_key-Below, find_key-AtLeast, find_key-append, has_key-append, keys_of-Below,
  seps_of-Below, keys_of-AtLeast, seps_of-Before, keys_of-around, seps_of-around, Sorted-tail,
  or_true, has_key-or, seps-Before,
}

-- The child that the search goes to.
pub record Way (order : ℕ) (page : ℕ → Option BTreeNode) (depth : ℕ) (id : Bytes) (i : ℕ)
    (cs : List ℕ) (t : List Item) : Type 0 where
  pub rrn : ℕ
  pub node : BTreeNode
  pub trace : List Item
  pub own : List ℕ
  pub at : get_elem? cs i ≡ some rrn
  pub page_at : page rrn ≡ some node
  pub tree : Subtree order page depth node trace own
  pub sorted : Sorted trace
  pub same_key : find_key id (keys_of t) ≡ find_key id (keys_of trace)
  pub same_sep : has_key id (seps_of t) ≡ has_key id (seps_of trace)

-- Only in this child can the key be.
pub way :
    {order : ℕ} {page : ℕ → Option BTreeNode} {depth : ℕ} {seps : List Key} {cs : List ℕ}
    {t : List Item} {own : List ℕ} (id : Bytes)
    → Children order page depth seps cs t own
    → Sorted t
    → has_key id seps ≡ false
    → Way order page depth id (count_smaller id seps) cs t
unfolding has_key count_smaller
way id (last q {t} {own} r at is tree) sorted new = record {
  rrn = r;
  node = q;
  trace = t;
  own = own;
  at = refl;
  page_at = at;
  tree = tree;
  sorted = sorted;
  same_key = refl;
  same_sep = refl;
}
way id (more q s seps cs t u own rest r at is tree others) sorted new =
    let from_sep = Sorted-right t sorted in
    let front = Sorted-Follows t (sep s) u sorted in
    elim (Ordering-cases (strcmp s.id id)) [
      | inl o ↦
          let w = way id others (Sorted-tail from_sep) (ground (arith, new, o)) in
          let e : suc (count_smaller id seps) ≡ 1 + count_smaller id seps = omega arith in
          rw o (record {
            rrn = w.rrn;
            node = w.node;
            trace = w.trace;
            own = w.own;
            at = subst (λ n. get_elem? (r ∷ cs) n ≡ some w.rrn) e w.at;
            page_at = w.page_at;
            tree = w.tree;
            sorted = w.sorted;
            same_key =
                ap (λ ks. find_key id ks) (keys_of-around t s u)
                ∙ find_key-Below s.id id (keys_of t) (keys_of u) o (keys_of-Below t front)
                ∙ w.same_key;
            same_sep =
                ap (λ ks. has_key id ks) (seps_of-around t s u)
                ∙ has_key-Below s.id id (seps_of t) (s ∷ seps_of u) o (seps_of-Below t front)
                ∙ rw o w.same_sep;
          })
      | inr (inl o) ↦ absurd (ground (arith, new, o))
      | inr (inr o) ↦
          let behind = Sorted-Leads from_sep in
          let (_, c) = none-after id s seps o (seps-Before others behind) in
          let (nb, _) = none-after id s (seps_of u) o (seps_of-Before u behind) in
          let none_left : has_key id (s ∷ seps_of u) ≡ false = rw o nb in
          rw (o, c)
            (record {
              rrn = r;
              node = q;
              trace = t;
              own = own;
              at = refl;
              page_at = at;
              tree = tree;
              sorted = Sorted-left t (sep s ∷ u) sorted;
              same_key =
                  ap (λ ks. find_key id ks) (keys_of-around t s u)
                  ∙ find_key-append id (keys_of t) (keys_of u)
                      (find_key-AtLeast s.id id (keys_of u) o (keys_of-AtLeast u behind));
              same_sep =
                  ap (λ ks. has_key id ks) (seps_of-around t s u)
                  ∙ has_key-append id (seps_of t) (s ∷ seps_of u) none_left;
            })
    ]

-- A separator of the node is one of the tree.
pub seps-has_key :
    {order : ℕ} {page : ℕ → Option BTreeNode} {depth : ℕ} {seps : List Key} {cs : List ℕ}
    {t : List Item} {own : List ℕ} (id : Bytes)
    → Children order page depth seps cs t own
    → has_key id seps ≡ true
    → has_key id (seps_of t) ≡ true
unfolding has_key
seps-has_key id (last q r at is tree) hit = cc
seps-has_key id (more q s seps cs t u own rest r at is tree others) hit =
    ap (λ ks. has_key id ks) (seps_of-around t s u)
    ∙ has_key-or id (seps_of t) (s ∷ seps_of u)
    ∙ elim (Ordering-cases (strcmp s.id id)) [
      | inl o ↦
          rw o (or_true (has_key id (seps_of t)) (seps-has_key id others (ground (arith, hit, o))))
      | inr (inl o) ↦ rw o (or_true (has_key id (seps_of t)) refl)
      | inr (inr o) ↦
          rw o (or_true (has_key id (seps_of t)) (seps-has_key id others (ground (arith, hit, o))))
    ]
