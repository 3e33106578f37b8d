-- ===== src/BTree/Tree/Order.antt =====
-- Where a key can be found in a search tree of BTree.c: on the one side of a separator or the other.
use Prim.Native.Nat.{lt, eq, gt}
use gaveta.Base.{
  ℕ, suc, ◌+◌, ◌<◌, ◌≡◌, ◌≢◌, refl, ap, subst, Bool, true, false, ◌||◌, Option, none, some, List,
  [], ◌∷◌, ◌++◌, arith, length, map, get_elem?, inl, inr,
}
use gaveta.Heap.{Bytes}
use gaveta.BTree.{Key, BTreeNode, strcmp}
use gaveta.BTree.Search.{
  Ascending, Before, has_key, count_smaller, Ordering-cases, none-after, none-behind, strcmp_trans,
  strcmp-eq, strcmp_refl,
}
use gaveta.BTree.Insert.{strcmp-lt_trans}
use gaveta.BTree.Tree.Trace.{
  Item, entry, sep, keys_of, seps_of, id_of, Precedes, by_id, same_id, Leads, Sorted, Follows,
  Sorted-right, Sorted-Leads,
}
use gaveta.BTree.Tree.Shape.{Children, last, more, find_key}

-- All of the keys are before `id`.
pub data Below (id : Bytes) : List Key → Type 0 where
  nil : Below id []
  cons : {k : Key} {ks : List Key} → strcmp k.id id ≡ lt → Below id ks → Below id (k ∷ ks)

-- None of the keys is before `id`.
pub data AtLeast (id : Bytes) : List Key → Type 0 where
  nil : AtLeast id []
  cons : {k : Key} {ks : List Key} → strcmp id k.id ≢ gt → AtLeast id ks → AtLeast id (k ∷ ks)

pub find_key-Below :
    (id key : Bytes) (ks all : List Key)
    → strcmp id key ≡ lt
    → Below id ks
    → find_key key (ks ++ all) ≡ find_key key all
unfolding find_key
find_key-Below id key [] all l b = refl
find_key-Below id key (k ∷ ks) all l (Below.cons kl b) =
    rw (strcmp-lt_trans k.id id key kl l) (find_key-Below id key ks all l b)

pub has_key-Below :
    (id key : Bytes) (ks all : List Key)
    → strcmp id key ≡ lt
    → Below id ks
    → has_key key (ks ++ all) ≡ has_key key all
unfolding has_key
has_key-Below id key [] all l b = refl
has_key-Below id key (k ∷ ks) all l (Below.cons kl b) =
    rw (strcmp-lt_trans k.id id key kl l) (has_key-Below id key ks all l b)

at_least-gt : (id key k : Bytes) → strcmp id key ≡ gt → strcmp id k ≢ gt → strcmp k key ≡ gt
at_least-gt id key k g ne = elim (Ordering-cases (strcmp id k)) [
  | inl l ↦ strcmp_trans id key k g l
  | inr (inl e) ↦ subst (λ t. strcmp t key ≡ gt) (strcmp-eq id k e) g
  | inr (inr g') ↦ absurd (ne g')
]

pub find_key-AtLeast :
    (id key : Bytes) (ks : List Key) → strcmp id key ≡ gt → AtLeast id ks → find_key key ks ≡ none
unfolding find_key
find_key-AtLeast id key [] g a = refl
find_key-AtLeast id key (k ∷ ks) g (AtLeast.cons ne a) =
    rw (at_least-gt id key k.id g ne) (find_key-AtLeast id key ks g a)

pub find_key-append :
    (key : Bytes) (ks all : List Key)
    → find_key key all ≡ none
    → find_key key (ks ++ all) ≡ find_key key ks
unfolding find_key
find_key-append key [] all e = e
find_key-append key (k ∷ ks) all e = elim (Ordering-cases (strcmp k.id key)) [
  | inl o ↦ rw o (find_key-append key ks all e)
  | inr (inl o) ↦ rw o refl
  | inr (inr o) ↦ rw o (find_key-append key ks all e)
]

pub has_key-append :
    (key : Bytes) (ks all : List Key)
    → has_key key all ≡ false
    → has_key key (ks ++ all) ≡ has_key key ks
unfolding has_key
has_key-append key [] all e = e
has_key-append key (k ∷ ks) all e = elim (Ordering-cases (strcmp k.id key)) [
  | inl o ↦ rw o (has_key-append key ks all e)
  | inr (inl o) ↦ rw o refl
  | inr (inr o) ↦ rw o (has_key-append key ks all e)
]

-- In ascending keys, the number of smaller keys is the index of the one that is found.
pub find_key-at :
    (key : Bytes) (ks : List Key)
    → Ascending ks
    → has_key key ks ≡ true
    → (k : Key) × (find_key key ks ≡ some k)
      × (get_elem? ks (count_smaller key ks) ≡ some k)
      × (k.id ≡ key)
      × (count_smaller key ks < length ks)
unfolding find_key has_key count_smaller
find_key-at key [] asc h = cc
find_key-at key (k ∷ ks) (Ascending.cons some_id before asc) h =
    elim (Ordering-cases (strcmp k.id key)) [
      | inl o ↦
          let (l, f, at, is, len) = find_key-at key ks asc (ground (arith, h, o)) in
          let e : suc (count_smaller key ks) ≡ 1 + count_smaller key ks = omega arith in
          let at' : get_elem? (k ∷ ks) (1 + count_smaller key ks) ≡ some l =
            subst (λ n. get_elem? (k ∷ ks) n ≡ some l) e at in
          (l, rw o f, rw o at', is, rw o (omega (arith, len)))
      | inr (inl o) ↦
          let c = none-behind key k ks o before in
          (k, rw o refl, rw (o, c) refl, strcmp-eq k.id key o, rw (o, c) (omega arith))
      | inr (inr o) ↦ absurd (
          let (f, _) = none-after key k ks o before in
          let t : has_key key ks ≡ true = ground (arith, h, o) in cc)
    ]

pub find_key-none : (key : Bytes) (ks : List Key) → has_key key ks ≡ false → find_key key ks ≡ none
unfolding find_key has_key
find_key-none key [] h = refl
find_key-none key (k ∷ ks) h = elim (Ordering-cases (strcmp k.id key)) [
  | inl o ↦ rw o (find_key-none key ks (ground (arith, h, o)))
  | inr (inl o) ↦ absurd (ground (arith, h, o))
  | inr (inr o) ↦ rw o (find_key-none key ks (ground (arith, h, o)))
]

-- What the order of the items says of the keys and separators on the two sides of a separator.
pub keys_of-Below : {s : Key} (t : List Item) → Follows (sep s) t → Below s.id (keys_of t)
unfolding keys_of
keys_of-Below [] f = Below.nil
keys_of-Below (entry k ∷ t) (Follows.cons (by_id p) f) = Below.cons p (keys_of-Below t f)
keys_of-Below (sep k ∷ t) (Follows.cons p f) = keys_of-Below t f

pub seps_of-Below : {s : Key} (t : List Item) → Follows (sep s) t → Below s.id (seps_of t)
unfolding seps_of
seps_of-Below [] f = Below.nil
seps_of-Below (entry k ∷ t) (Follows.cons p f) = seps_of-Below t f
seps_of-Below (sep k ∷ t) (Follows.cons (by_id p) f) = Below.cons p (seps_of-Below t f)

not_behind : {a b : Key} → Precedes (sep a) (entry b) → strcmp a.id b.id ≢ gt
not_behind (by_id p) = λ e. cc
not_behind {a} (same_id same) =
    let eq : strcmp a.id a.id ≡ eq = strcmp_refl a.id in
    subst (λ t. strcmp a.id t ≢ gt) same (λ e. cc)

pub keys_of-AtLeast : {s : Key} (t : List Item) → Leads (sep s) t → AtLeast s.id (keys_of t)
unfolding keys_of
keys_of-AtLeast [] l = AtLeast.nil
keys_of-AtLeast (entry k ∷ t) (Leads.cons p l) = AtLeast.cons (not_behind p) (keys_of-AtLeast t l)
keys_of-AtLeast (sep k ∷ t) (Leads.cons p l) = keys_of-AtLeast t l

pub seps_of-Before : {s : Key} (t : List Item) → Leads (sep s) t → Before s (seps_of t)
unfolding seps_of
seps_of-Before [] l = Before.nil
seps_of-Before (entry k ∷ t) (Leads.cons p l) = seps_of-Before t l
seps_of-Before (sep k ∷ t) (Leads.cons (by_id p) l) = Before.cons p (seps_of-Before t l)

pub keys_of-around :
    (t : List Item) (s : Key) (u : List Item) → keys_of (t ++ sep s ∷ u) ≡ keys_of t ++ keys_of u
unfolding keys_of
keys_of-around [] s u = refl
keys_of-around (entry k ∷ t) s u = ap (λ ks. k ∷ ks) (keys_of-around t s u)
keys_of-around (sep k ∷ t) s u = keys_of-around t s u

pub seps_of-around :
    (t : List Item) (s : Key) (u : List Item)
    → seps_of (t ++ sep s ∷ u) ≡ seps_of t ++ s ∷ seps_of u
unfolding seps_of
seps_of-around [] s u = refl
seps_of-around (entry k ∷ t) s u = seps_of-around t s u
seps_of-around (sep k ∷ t) s u = ap (λ ks. k ∷ ks) (seps_of-around t s u)

Leads-behind :
    {x y : Item} (t : List Item) {u : List Item} → Leads x (t ++ y ∷ u) → Precedes x y × Leads x u
Leads-behind [] (Leads.cons p l) = (p, l)
Leads-behind (z ∷ t) (Leads.cons p l) = Leads-behind t l

pub head_id : {x : Item} {t : List Item} → Sorted (x ∷ t) → id_of x ≢ []
head_id (Sorted.cons ne l s) = ne

pub Sorted-tail : {x : Item} {t : List Item} → Sorted (x ∷ t) → Sorted t
Sorted-tail (Sorted.cons ne l s) = s

pub or_true : (b : Bool) {c : Bool} → c ≡ true → b || c ≡ true
or_true true e = refl
or_true false e = e

pub has_key-or :
    (id : Bytes) (ks ls : List Key) → has_key id (ks ++ ls) ≡ has_key id ks || has_key id ls
unfolding has_key
has_key-or id [] ls = refl
has_key-or id (k ∷ ks) ls = ground (arith, has_key-or id ks ls)

sep-lt : {a b : Key} → Precedes (sep a) (sep b) → strcmp a.id b.id ≡ lt
sep-lt (by_id p) = p

-- The separators of a node are before, or behind, what their items are.
pub seps-Before :
    {order : ℕ} {page : ℕ → Option BTreeNode} {depth : ℕ} {s : Key} {seps : List Key} {cs : List ℕ}
    {t : List Item} {own : List ℕ}
    → Children order page depth seps cs t own
    → Leads (sep s) t
    → Before s seps
seps-Before (last q r at is tree) l = Before.nil
seps-Before (more q s seps cs t u own rest r at is tree others) l =
    let (p, l) = Leads-behind t l in Before.cons (sep-lt p) (seps-Before others l)

pub seps-Ascending :
    {order : ℕ} {page : ℕ → Option BTreeNode} {depth : ℕ} {seps : List Key} {cs : List ℕ}
    {t : List Item} {own : List ℕ}
    → Children order page depth seps cs t own
    → Sorted t
    → Ascending seps
seps-Ascending (last q r at is tree) sorted = Ascending.nil
seps-Ascending (more q s seps cs t u own rest r at is tree others) sorted =
    let from_sep = Sorted-right t sorted in
    Ascending.cons (head_id from_sep) (seps-Before others (Sorted-Leads from_sep))
      (seps-Ascending others (Sorted-tail from_sep))

-- The keys of a leaf.
pub keys_of-map : (ks : List Key) → keys_of (map entry ks) ≡ ks
unfolding keys_of
keys_of-map [] = refl
keys_of-map (k ∷ ks) = ap (λ t. k ∷ t) (keys_of-map ks)

pub seps_of-map : (ks : List Key) → seps_of (map entry ks) ≡ []
unfolding seps_of
seps_of-map [] = refl
seps_of-map (k ∷ ks) = seps_of-map ks

map-Before : {k : Key} (ks : List Key) → Leads (entry k) (map entry ks) → Before k ks
map-Before [] l = Before.nil
map-Before (a ∷ ks) (Leads.cons (by_id p) l) = Before.cons p (map-Before ks l)

pub map-Ascending : (ks : List Key) → Sorted (map entry ks) → Ascending ks
map-Ascending [] s = Ascending.nil
map-Ascending (k ∷ ks) (Sorted.cons ne l s) =
    Ascending.cons ne (map-Before ks l) (map-Ascending ks s)
