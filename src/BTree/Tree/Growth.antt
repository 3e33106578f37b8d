-- ===== src/BTree/Tree/Growth.antt =====
-- What the insertion of a key does to the trace of a search tree of BTree.c.
use gaveta.Base.{
  ◌≡◌, ◌≢◌, refl, sym, ◌∙◌, ap, Bool, true, false, ◌||◌, List, [], ◌∷◌, arith, ◌⊎◌, inl, inr,
}
use gaveta.Heap.{Bytes}
use gaveta.BTree.{Key, strcmp}
use gaveta.BTree.Search.{is_eq, has_key, strcmp-swap}
use gaveta.BTree.Insert.{insert_key}
use gaveta.BTree.Tree.Trace.{
  Item, entry, sep, keys_of, seps_of, id_of, Precedes, by_id, same_id, Leads, Sorted, Inserted,
  here, later, Marked, keep, mark, Precedes-trans, Leads-trans, Sorted-Leads,
}

or_true : (b : Bool) {c : Bool} → c ≡ true → b || c ≡ true
or_true true e = refl
or_true false e = e

or-cases : (b : Bool) {c : Bool} → b || c ≡ true → (b ≡ true) ⊎ (c ≡ true)
or-cases true e = inl refl
or-cases false e = inr e

Leads-Inserted :
    {k : Key} {x : Item} {t t' : List Item}
    → Precedes x (entry k)
    → Leads x t
    → Inserted k t t'
    → Leads x t'
Leads-Inserted p l (here h) = Leads.cons p l
Leads-Inserted p (Leads.cons q l) (later r i) = Leads.cons q (Leads-Inserted p l i)

pub Sorted-Inserted :
    {k : Key} {t t' : List Item} → k.id ≢ [] → Sorted t → Inserted k t t' → Sorted t'
Sorted-Inserted ne s (here h) = Sorted.cons ne h s
Sorted-Inserted ne (Sorted.cons x_ne l s) (later p i) =
    Sorted.cons x_ne (Leads-Inserted p l i) (Sorted-Inserted ne s i)

Precedes-sep : {a b : Key} → Precedes (entry a) (entry b) → Precedes (entry a) (sep b)
Precedes-sep (by_id p) = by_id p

Leads-Marked : {x : Item} {t t' : List Item} → Sorted t → Leads x t → Marked t t' → Leads x t'
Leads-Marked s l Marked.nil = l
Leads-Marked (Sorted.cons ne k s) (Leads.cons p l) (keep m) = Leads.cons p (Leads-Marked s l m)
Leads-Marked (Sorted.cons ne (Leads.cons ab k) s) (Leads.cons p l) (mark m) =
    Leads.cons p (Leads.cons (Precedes-trans p (Precedes-sep ab)) (Leads-Marked s l m))

head_id : {x : Item} {t : List Item} → Sorted (x ∷ t) → id_of x ≢ []
head_id (Sorted.cons ne l s) = ne

pub Sorted-Marked : {t t' : List Item} → Sorted t → Marked t t' → Sorted t'
Sorted-Marked s Marked.nil = s
Sorted-Marked (Sorted.cons ne l s) (keep m) =
    Sorted.cons ne (Leads-Marked s l m) (Sorted-Marked s m)
Sorted-Marked (Sorted.cons ne (Leads.cons ab l) s) (mark m) =
    let s' = Sorted-Marked s m in
    let ids = head_id s in
    let rest = Leads-trans (same_id refl) (Sorted-Leads s') in
    Sorted.cons ne (Leads.cons (Precedes-sep ab) (Leads.cons ab (Leads-trans ab (Sorted-Leads s'))))
      (Sorted.cons ids (Leads.cons (same_id refl) rest) s')

pub keys_of-Marked : {t t' : List Item} → Marked t t' → keys_of t' ≡ keys_of t
unfolding keys_of
keys_of-Marked Marked.nil = refl
keys_of-Marked (keep {x = entry k} m) = ap (λ t. k ∷ t) (keys_of-Marked m)
keys_of-Marked (keep {x = sep k} m) = keys_of-Marked m
keys_of-Marked (mark {a} m) = ap (λ t. a ∷ t) (keys_of-Marked m)

insert_key-first :
    {k : Key} (t : List Item) → Leads (entry k) t → insert_key k (keys_of t) ≡ k ∷ keys_of t
unfolding insert_key keys_of
insert_key-first [] l = refl
insert_key-first (sep a ∷ t) (Leads.cons p l) = insert_key-first t l
insert_key-first {k} (entry a ∷ t) (Leads.cons (by_id p) l) = rw (strcmp-swap k.id a.id p) refl

pub keys_of-Inserted :
    {k : Key} {t t' : List Item} → Inserted k t t' → keys_of t' ≡ insert_key k (keys_of t)
unfolding insert_key keys_of
keys_of-Inserted (here {t} h) = sym (insert_key-first t h)
keys_of-Inserted (later {x = sep a} p i) = keys_of-Inserted i
keys_of-Inserted (later {x = entry a} (by_id p) i) = rw p (ap (λ t. a ∷ t) (keys_of-Inserted i))

-- A key that is inserted leaves the separators as they are.
seps_of-Inserted : {k : Key} {t t' : List Item} → Inserted k t t' → seps_of t' ≡ seps_of t
unfolding seps_of
seps_of-Inserted (here h) = refl
seps_of-Inserted (later {x = sep a} p i) = ap (λ t. a ∷ t) (seps_of-Inserted i)
seps_of-Inserted (later {x = entry a} p i) = seps_of-Inserted i

-- A new separator is one of the keys.
seps_of-Marked :
    {t t' : List Item} (id : Bytes)
    → Marked t t'
    → has_key id (seps_of t') ≡ true
    → (has_key id (seps_of t) ≡ true) ⊎ (has_key id (keys_of t) ≡ true)
unfolding seps_of keys_of has_key
seps_of-Marked id Marked.nil hit = inl hit
seps_of-Marked id (keep {x = entry a} m) hit = elim (seps_of-Marked id m hit) [
  | inl old ↦ inl old
  | inr new ↦ inr (or_true (is_eq (strcmp a.id id)) new)
]
seps_of-Marked id (keep {x = sep a} m) hit = elim (or-cases (is_eq (strcmp a.id id)) hit) [
  | inl first ↦ inl (ground (arith, first))
  | inr behind ↦ elim (seps_of-Marked id m behind) [
    | inl old ↦ inl (or_true (is_eq (strcmp a.id id)) old)
    | inr new ↦ inr new
  ]
]
seps_of-Marked id (mark {a} {b} m) hit = elim (or-cases (is_eq (strcmp b.id id)) hit) [
  | inl first ↦ inr (or_true (is_eq (strcmp a.id id)) (ground (arith, first)))
  | inr behind ↦ elim (seps_of-Marked id m behind) [
    | inl old ↦ inl old
    | inr new ↦ inr (or_true (is_eq (strcmp a.id id)) new)
  ]
]

-- A separator after an insertion was one before it, or is one of the keys.
pub seps_of-grown :
    {k : Key} {t mid t' : List Item} (id : Bytes)
    → Inserted k t mid
    → Marked mid t'
    → has_key id (seps_of t') ≡ true
    → (has_key id (seps_of t) ≡ true) ⊎ (has_key id (keys_of t') ≡ true)
seps_of-grown id i m hit = elim (seps_of-Marked id m hit) [
  | inl old ↦ inl (ap (λ ks. has_key id ks) (sym (seps_of-Inserted i)) ∙ old)
  | inr new ↦ inr (ap (λ ks. has_key id ks) (keys_of-Marked m) ∙ new)
]
