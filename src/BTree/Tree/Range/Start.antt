-- ===== src/BTree/Tree/Range/Start.antt =====
-- The child of an inner node that the descent of `b_range_search` of BTree.c goes to.
use Prim.Native.Nat.{lt, eq, gt}
use gaveta.Base.{
  ℕ, zero, suc, ◌+◌, ◌≤◌, ◌≡◌, ◌⊎◌, inl, inr, refl, sym, ◌∙◌, ap, subst, Bool, true, false, ◌&&◌,
  Option, some, List, [], ◌∷◌, ◌++◌, append_assoc, arith, length, length-append, get_elem?,
  get_elem?-append_right, ok,
}
use gaveta.Heap.{Bytes}
use gaveta.BTree.{Key, BTreeNode, strcmp}
use gaveta.BTree.Search.{Before, Ascending, Ordering-cases, strcmp-eq}
use gaveta.BTree.Insert.{strcmp-back, strcmp-lt_trans}
use gaveta.BTree.Tree.Trace.{
  Item, entry, sep, keys_of, by_id, Leads, Sorted, Sorted-right, Sorted-left, Sorted-Follows,
}
use gaveta.BTree.Tree.Shape.{Subtree, Children, last, more}
use gaveta.BTree.Tree.Order.{Below, keys_of-Below, Sorted-tail}
use gaveta.BTree.Tree.Range.{not_gt, not_lt, child_for}
use gaveta.BTree.Tree.Range.Leaves.{records_in_range}
use gaveta.BTree.Tree.Range.Linked.{
  Links, ChildLinks, Tail, more_leaves, Children-Chain, keys-apart,
}

keys_of-Before : {k : Key} (t : List Item) → Leads (entry k) t → Before k (keys_of t)
unfolding keys_of
keys_of-Before [] l = Before.nil
keys_of-Before (entry j ∷ t) (Leads.cons (by_id p) l) = Before.cons p (keys_of-Before t l)
keys_of-Before (sep j ∷ t) (Leads.cons p l) = keys_of-Before t l

pub keys_of-Ascending : (t : List Item) → Sorted t → Ascending (keys_of t)
unfolding keys_of
keys_of-Ascending [] s = Ascending.nil
keys_of-Ascending (entry k ∷ t) (Sorted.cons ne l s) =
    Ascending.cons ne (keys_of-Before t l) (keys_of-Ascending t s)
keys_of-Ascending (sep k ∷ t) (Sorted.cons ne l s) = keys_of-Ascending t s

pub Ascending-behind :
    (ks : List Key) {ls all : List Key} → all ≡ ks ++ ls → Ascending all → Ascending ls
Ascending-behind ks {ls} is asc = right ks (subst (λ l. Ascending l) is asc)
  where
    right : (ks : List Key) → Ascending (ks ++ ls) → Ascending ls
    right [] asc = asc
    right (k ∷ ks) (Ascending.cons ne b asc) = right ks asc

-- Keys before the range do not count.
pub records-Below :
    (start until : Bytes) (ks ls : List Key)
    → Below start ks
    → records_in_range start until (ks ++ ls) ≡ records_in_range start until ls
unfolding records_in_range
records-Below start until [] ls b = refl
records-Below start until (k ∷ ks) ls (Below.cons l b) =
    let out : not_gt (strcmp k.id until) && not_lt (strcmp k.id start) ≡ false =
      rw l (and_false (not_gt (strcmp k.id until))) in
    rw out (records-Below start until ks ls b)
  where
    and_false : (a : Bool) → a && false ≡ false
    and_false true = refl
    and_false false = refl

Below-up :
    {s start : Bytes} {ks : List Key}
    → (s ≡ start) ⊎ (strcmp s start ≡ lt)
    → Below s ks
    → Below start ks
Below-up {ks} (inl e) b = subst (λ t. Below t ks) e b
Below-up (inr l) Below.nil = Below.nil
Below-up {s} {start} (inr l) (Below.cons {k = k} m b) =
    Below.cons (strcmp-lt_trans k.id s start m l) (Below-up (inr l) b)

pub Below-append : {id : Bytes} {ks ls : List Key} → Below id ks → Below id ls → Below id (ks ++ ls)
Below-append Below.nil b = b
Below-append (Below.cons e a) b = Below.cons e (Below-append a b)

-- The number of separators that are not behind `start`, up to the first that is.
unfoldable pub child_at : Bytes → List Key → ℕ
child_at start [] = 0
child_at start (k ∷ ks) = elim (strcmp start k.id) [
  | lt ↦ 0
  | eq ↦ suc (child_at start ks)
  | gt ↦ suc (child_at start ks)
]

pub child_for-at :
    (n i : ℕ) (pre ks spare : List Key) (start : Bytes)
    → length pre ≡ i
    → length ks ≡ n
    → child_for n i (pre ++ (ks ++ spare)) start ≡ ok (i + child_at start ks)
unfolding child_for child_at
child_for-at zero i pre [] spare start at len = ap (λ j. ok j) (omega arith)
child_for-at (suc n) i pre [] spare start at len = absurd (omega (arith, len))
child_for-at zero i pre (k ∷ ks) spare start at len = absurd (omega (arith, len))
child_for-at (suc n) i pre (k ∷ ks) spare start at len =
    let here : length pre + 0 ≡ i = omega (arith, at) in
    let cell : get_elem? (pre ++ (k ∷ ks ++ spare)) i ≡ some k =
      subst (λ j. get_elem? (pre ++ (k ∷ ks ++ spare)) j ≡ some k) here
        (get_elem?-append_right pre (k ∷ ks ++ spare) 0) in
    let later : child_for n (i + 1) (pre ++ (k ∷ ks ++ spare)) start
        ≡ ok (i + suc (child_at start ks)) =
      ap (λ t. child_for n (i + 1) t start) (sym (append_assoc pre (k ∷ []) (ks ++ spare)))
      ∙ child_for-at n (i + 1) (pre ++ k ∷ []) ks spare start
          (omega (arith, length-append pre (k ∷ []), at)) (omega (arith, len))
      ∙ ap (λ j. ok j) (omega arith) in
    elim (Ordering-cases (strcmp start k.id)) [
      | inl o ↦ rw (child_for, child_at, cell, o) (ap (λ j. ok j) (omega arith))
      | inr (inl o) ↦ rw (child_for, child_at, cell, o) later
      | inr (inr o) ↦ rw (child_for, child_at, cell, o) later
    ]

-- The child where a range from `start` begins: the keys `before` it are before the range, and the leaves
-- behind it are `tail`.
pub record Start (order : ℕ) (page : ℕ → Option BTreeNode) (depth most : ℕ) (start : Bytes) (i : ℕ)
    (cs : List ℕ) (all : List Key) : Type 0 where
  pub rrn : ℕ
  pub node : BTreeNode
  pub trace : List Item
  pub own : List ℕ
  pub first : ℕ
  pub next : ℕ
  pub m : ℕ
  pub before : List Key
  pub rest : List Key
  pub at : get_elem? cs i ≡ some rrn
  pub page_at : page rrn ≡ some node
  pub is_rrn : node.rrn ≡ rrn
  pub tree : Subtree order page depth node trace own
  pub sorted : Sorted trace
  pub links : Links tree first next
  pub tail : Tail page m next rest
  pub parts : all ≡ before ++ (keys_of trace ++ rest)
  pub below : Below start before
  pub few : m + length own + 1 ≤ most

pub Start-at :
    {order : ℕ} {page : ℕ → Option BTreeNode} {depth : ℕ} {seps : List Key} {cs : List ℕ}
    {t : List Item} {own : List ℕ} (start : Bytes)
    (children : Children order page depth seps cs t own) (first : ℕ) {m next : ℕ} {rest : List Key}
    → Sorted t
    → ChildLinks children first next
    → Tail page m next rest
    → Start order page depth (m + length own) start (child_at start seps) cs (keys_of t ++ rest)
unfolding child_at ChildLinks
Start-at start (last q {t} {own} r at is tree) first {m} {next} {rest} sorted links tail = record {
  rrn = r;
  node = q;
  trace = t;
  own = own;
  first = first;
  next = next;
  m = m;
  before = [];
  rest = rest;
  at = refl;
  page_at = at;
  is_rrn = is;
  tree = tree;
  sorted = sorted;
  links = links;
  tail = tail;
  parts = refl;
  below = Below.nil;
  few = omega arith;
}
Start-at {order} {page} {depth} start (more q s seps cs t u own under r at is tree others) first {m}
      {next} {rest} sorted (mid, here, ne, links) tail =
    let apart : keys_of (t ++ sep s ∷ u) ++ rest ≡ keys_of t ++ (keys_of u ++ rest) =
      keys-apart t s u rest in
    let size = length-append (r ∷ own) under in
    let beyond = λ (o : (s.id ≡ start) ⊎ (strcmp s.id start ≡ lt)).
      let w = Start-at start others mid (Sorted-tail (Sorted-right t sorted)) links tail in
      let front = keys_of-Below t (Sorted-Follows t (sep s) u sorted) in
      let all : Start order page depth (m + length ((r ∷ own) ++ under)) start
          (suc (child_at start seps)) (r ∷ cs) (keys_of (t ++ sep s ∷ u) ++ rest) =
        record {
          rrn = w.rrn;
          node = w.node;
          trace = w.trace;
          own = w.own;
          first = w.first;
          next = w.next;
          m = w.m;
          before = keys_of t ++ w.before;
          rest = w.rest;
          at = w.at;
          page_at = w.page_at;
          is_rrn = w.is_rrn;
          tree = w.tree;
          sorted = w.sorted;
          links = w.links;
          tail = w.tail;
          parts =
              apart
              ∙ ap (λ l. keys_of t ++ l) w.parts
              ∙ sym (append_assoc (keys_of t) w.before (keys_of w.trace ++ w.rest));
          below = Below-append (Below-up o front) w.below;
          few = omega (arith, w.few, size);
        } in
      all in
    elim (Ordering-cases (strcmp start s.id)) [
      | inl o ↦
          let c = Children-Chain others links tail in
          rw (child_at, o)
            (record {
              rrn = r;
              node = q;
              trace = t;
              own = own;
              first = first;
              next = mid;
              m = c.size;
              before = [];
              rest = keys_of u ++ rest;
              at = refl;
              page_at = at;
              is_rrn = is;
              tree = tree;
              sorted = Sorted-left t (sep s ∷ u) sorted;
              links = here;
              tail = more_leaves ne c.at c.chain;
              parts = apart;
              below = Below.nil;
              few = omega (arith, c.few, size);
            })
      | inr (inl o) ↦ rw (child_at, o) (beyond (inl (sym (strcmp-eq start s.id o))))
      | inr (inr o) ↦ rw (child_at, o) (beyond (inr (strcmp-back start s.id o)))
    ]
