-- ===== src/BTree/Tree/Trace.antt =====
-- A search tree of BTree.c read from left to right: the keys of its leaves, and between them the
-- separators of its inner nodes.
use Prim.Native.Nat.{lt}
use gaveta.Base.{◌≡◌, ◌≢◌, sym, subst, List, [], ◌∷◌, ◌++◌}
use gaveta.Heap.{Bytes}
use gaveta.BTree.{Key, strcmp}
use gaveta.BTree.Insert.{strcmp-lt_trans}

pub data Item : Type 0 where
  entry sep : Key → Item

unfoldable pub keys_of : List Item → List Key
keys_of [] = []
keys_of (entry k ∷ t) = k ∷ keys_of t
keys_of (sep k ∷ t) = keys_of t

unfoldable pub seps_of : List Item → List Key
seps_of [] = []
seps_of (entry k ∷ t) = seps_of t
seps_of (sep k ∷ t) = k ∷ seps_of t

abbrev pub id_of : Item → Bytes
id_of (entry k) = k.id
id_of (sep k) = k.id

-- The order of the items: by their strings, a separator before the key that is the same.
pub data Precedes : Item → Item → Type 0 where
  by_id : {x y : Item} → strcmp (id_of x) (id_of y) ≡ lt → Precedes x y
  same_id : {a b : Key} → a.id ≡ b.id → Precedes (sep a) (entry b)

pub data Leads (x : Item) : List Item → Type 0 where
  nil : Leads x []
  cons : {y : Item} {t : List Item} → Precedes x y → Leads x t → Leads x (y ∷ t)

pub data Follows (x : Item) : List Item → Type 0 where
  nil : Follows x []
  cons : {y : Item} {t : List Item} → Precedes y x → Follows x t → Follows x (y ∷ t)

-- The items ascend, and none has the empty string.
pub data Sorted : List Item → Type 0 where
  nil : Sorted []
  cons : {x : Item} {t : List Item} → id_of x ≢ [] → Leads x t → Sorted t → Sorted (x ∷ t)

pub Precedes-trans : {x y z : Item} → Precedes x y → Precedes y z → Precedes x z
Precedes-trans {x} {y} {z} (by_id a) (by_id b) =
    by_id (strcmp-lt_trans (id_of x) (id_of y) (id_of z) a b)
Precedes-trans {x} (by_id a) (same_id e) = by_id (subst (λ t. strcmp (id_of x) t ≡ lt) e a)
Precedes-trans {z} (same_id e) (by_id b) = by_id (subst (λ t. strcmp t (id_of z) ≡ lt) (sym e) b)

pub Leads-trans : {x y : Item} {t : List Item} → Precedes x y → Leads y t → Leads x t
Leads-trans p nil = nil
Leads-trans p (cons q l) = cons (Precedes-trans p q) (Leads-trans p l)

pub Follows-trans : {x y : Item} {t : List Item} → Follows x t → Precedes x y → Follows y t
Follows-trans nil p = nil
Follows-trans (cons q f) p = cons (Precedes-trans q p) (Follows-trans f p)

pub Leads-append : {x : Item} {t u : List Item} → Leads x t → Leads x u → Leads x (t ++ u)
Leads-append nil l = l
Leads-append (cons p k) l = cons p (Leads-append k l)

Leads-left : {x : Item} (t u : List Item) → Leads x (t ++ u) → Leads x t
Leads-left [] u l = nil
Leads-left (y ∷ t) u (cons p l) = cons p (Leads-left t u l)

Leads-right : {x : Item} (t : List Item) {u : List Item} → Leads x (t ++ u) → Leads x u
Leads-right [] l = l
Leads-right (y ∷ t) (cons p l) = Leads-right t l

pub Sorted-left : (t u : List Item) → Sorted (t ++ u) → Sorted t
Sorted-left [] u s = nil
Sorted-left (x ∷ t) u (cons ne l s) = cons ne (Leads-left t u l) (Sorted-left t u s)

pub Sorted-right : (t : List Item) {u : List Item} → Sorted (t ++ u) → Sorted u
Sorted-right [] s = s
Sorted-right (x ∷ t) (cons ne l s) = Sorted-right t s

-- What stands before an item precedes it.
Leads-head : {x y : Item} {t : List Item} → Leads x (y ∷ t) → Precedes x y
Leads-head (cons p l) = p

pub Sorted-Follows : (t : List Item) (x : Item) (u : List Item) → Sorted (t ++ x ∷ u) → Follows x t
Sorted-Follows [] x u s = nil
Sorted-Follows (y ∷ t) x u (cons ne l s) =
    cons (Leads-head (Leads-right t l)) (Sorted-Follows t x u s)

pub Sorted-Leads : {x : Item} {t : List Item} → Sorted (x ∷ t) → Leads x t
Sorted-Leads (cons ne l s) = l

-- The second trace is the first with the key in its place.
pub data Inserted (k : Key) : List Item → List Item → Type 0 where
  here : {t : List Item} → Leads (entry k) t → Inserted k t (entry k ∷ t)
  later :
      {x : Item} {t t' : List Item}
      → Precedes x (entry k)
      → Inserted k t t'
      → Inserted k (x ∷ t) (x ∷ t')

-- The second trace is the first with new separators, each just before the key that is the same and
-- behind another key.
pub data Marked : List Item → List Item → Type 0 where
  nil : Marked [] []
  keep : {x : Item} {t t' : List Item} → Marked t t' → Marked (x ∷ t) (x ∷ t')
  mark :
      {a b : Key} {t t' : List Item}
      → Marked (entry b ∷ t) (entry b ∷ t')
      → Marked (entry a ∷ entry b ∷ t) (entry a ∷ sep b ∷ entry b ∷ t')

pub Inserted-left :
    {k : Key} {t t' : List Item} (u : List Item)
    → Leads (entry k) u
    → Inserted k t t'
    → Inserted k (t ++ u) (t' ++ u)
Inserted-left u l (here h) = here (Leads-append h l)
Inserted-left u l (later p i) = later p (Inserted-left u l i)

pub Inserted-right :
    {k : Key} {u u' : List Item} (t : List Item)
    → Follows (entry k) t
    → Inserted k u u'
    → Inserted k (t ++ u) (t ++ u')
Inserted-right [] f i = i
Inserted-right (x ∷ t) (cons p f) i = later p (Inserted-right t f i)

pub Marked-refl : (t : List Item) → Marked t t
Marked-refl [] = nil
Marked-refl (x ∷ t) = keep (Marked-refl t)

pub Marked-append : {t t' u u' : List Item} → Marked t t' → Marked u u' → Marked (t ++ u) (t' ++ u')
Marked-append nil m = m
Marked-append (keep l) m = keep (Marked-append l m)
Marked-append (mark l) m = mark (Marked-append l m)
