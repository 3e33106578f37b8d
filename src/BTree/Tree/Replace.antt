-- ===== src/BTree/Tree/Replace.antt =====
-- The child of an inner node that an insertion goes into: with a new tree in its place, or two, the
-- children are again those of a search tree.
use Prim.Native.Nat.{lt}
use gaveta.Base.{
  ℕ, suc, ◌+◌, ◌≡◌, ◌≢◌, refl, sym, ◌∙◌, ap, subst, Bool, false, ◌||◌, Option, none, some, List, [],
  ◌∷◌, ◌++◌, append_assoc, arith, take, drop, get_elem?, inl, inr,
}
use gaveta.Heap.{Bytes}
use gaveta.BTree.{Key, BTreeNode, strcmp}
use gaveta.BTree.Search.{has_key, is_eq, count_smaller, Ordering-cases, none-after}
use gaveta.BTree.Insert.{strcmp-back}
use gaveta.BTree.Tree.Trace.{
  Item, entry, sep, keys_of, seps_of, Precedes, by_id, Precedes-trans, Leads, Leads-trans, Follows,
  Sorted, Sorted-left, Sorted-right, Sorted-Leads, Sorted-Follows,
}
use gaveta.BTree.Tree.Shape.{Subtree, Children, last, more, In, NoDup}
use gaveta.BTree.Tree.Order.{Sorted-tail, seps-Before, seps_of-around, keys_of-around, has_key-or}
use gaveta.BTree.Tree.Frame.{
  NoDup-left, NoDup-right, Subtree-page, Children-page, own_page, Subtree-frame, Children-frame,
  Regrown, SameOn, same-left, same-right, Regrown-left, Regrown-right,
}

or_false-left : (a b : Bool) → a || b ≡ false → a ≡ false
or_false-left a b e = ground (arith, e)

or_false-right : (a b : Bool) → a || b ≡ false → b ≡ false
or_false-right a b e = ground (arith, e)

-- A key that is no separator is none of either side.
fresh_sides :
    (id : Bytes) (t : List Item) (s : Key) (u : List Item)
    → has_key id (seps_of (t ++ sep s ∷ u)) ≡ false
    → (has_key id (seps_of t) ≡ false) × (has_key id (seps_of u) ≡ false)
unfolding has_key
fresh_sides id t s u e =
    let both =
      sym (
        ap (λ ks. has_key id ks) (seps_of-around t s u) ∙ has_key-or id (seps_of t) (s ∷ seps_of u))
      ∙ e in
    (
      or_false-left (has_key id (seps_of t)) (has_key id (s ∷ seps_of u)) both,
      or_false-right (is_eq (strcmp s.id id)) (has_key id (seps_of u))
          (or_false-right (has_key id (seps_of t)) (has_key id (s ∷ seps_of u)) both),
    )

fresh_keys :
    (id : Bytes) (t : List Item) (s : Key) (u : List Item)
    → has_key id (keys_of (t ++ sep s ∷ u)) ≡ false
    → (has_key id (keys_of t) ≡ false) × (has_key id (keys_of u) ≡ false)
fresh_keys id t s u e =
    let both =
      sym (ap (λ ks. has_key id ks) (keys_of-around t s u) ∙ has_key-or id (keys_of t) (keys_of u))
      ∙ e in
    (
      or_false-left (has_key id (keys_of t)) (has_key id (keys_of u)) both,
      or_false-right (has_key id (keys_of t)) (has_key id (keys_of u)) both,
    )

module _ (order : ℕ) (page : ℕ → Option BTreeNode) (k : Key) where
  -- The children are again those of a tree, on the pages `page'`.
  pub record Regrowth (page' : ℕ → Option BTreeNode) (depth : ℕ) (seps : List Key) (cs : List ℕ)
      (t : List Item) (own : List ℕ) : Type 0 where
    pub trace : List Item
    pub pages : List ℕ
    pub children : Children order page' depth seps cs trace pages
    pub grown : Regrown k page page' t trace own pages

  -- The child at index `i`, and what may take its place.
  pub record Spot (depth : ℕ) (seps : List Key) (cs : List ℕ) (t : List Item) (own : List ℕ) (i : ℕ)
      : Type 0 where
    pub rrn : ℕ
    pub node : BTreeNode
    pub trace : List Item
    pub below : List ℕ
    pub at : get_elem? cs i ≡ some rrn
    pub page_at : page rrn ≡ some node
    pub is_rrn : node.rrn ≡ rrn
    pub tree : Subtree order page depth node trace below
    pub sorted : Sorted trace
    pub fresh_sep : has_key k.id (seps_of t) ≡ false → has_key k.id (seps_of trace) ≡ false
    pub fresh_key : has_key k.id (keys_of t) ≡ false → has_key k.id (keys_of trace) ≡ false
    pub apart : NoDup (rrn ∷ below)
    pub put :
        (page' : ℕ → Option BTreeNode) (q : BTreeNode) (t' : List Item) (below' : List ℕ)
        → page' rrn ≡ some q
        → q.rrn ≡ rrn
        → Subtree order page' depth q t' below'
        → Regrown k page page' trace t' (rrn ∷ below) (rrn ∷ below')
        → Regrowth page' depth seps cs t own
    pub put_both :
        (page' : ℕ → Option BTreeNode) (l r : BTreeNode) (promo : Key) (tl tr : List Item)
        (bl br : List ℕ)
        → page' rrn ≡ some l
        → l.rrn ≡ rrn
        → page' r.rrn ≡ some r
        → Subtree order page' depth l tl bl
        → Subtree order page' depth r tr br
        → Regrown k page page' trace
            (tl ++ sep promo ∷ tr)
            (rrn ∷ below)
            ((rrn ∷ bl) ++ (r.rrn ∷ br))
        → Regrowth page' depth
            (take i seps ++ promo ∷ drop i seps)
            (take (suc i) cs ++ r.rrn ∷ drop (suc i) cs)
            t
            own

  Spot-last :
      {depth : ℕ} (q : BTreeNode) (t : List Item) (own : List ℕ) (r : ℕ)
      → page r ≡ some q
      → q.rrn ≡ r
      → Subtree order page depth q t own
      → Sorted t
      → NoDup (r ∷ own)
      → Spot depth [] (r ∷ []) t (r ∷ own) 0
  Spot-last q t own r at is tree sorted apart = record {
    rrn = r;
    node = q;
    trace = t;
    below = own;
    at = refl;
    page_at = at;
    is_rrn = is;
    tree = tree;
    sorted = sorted;
    fresh_sep = λ e. e;
    fresh_key = λ e. e;
    apart = apart;
    put = λ page' q' t' below' at' is' tree' g. record {
      trace = t';
      pages = r ∷ below';
      children = last q' r at' is' tree';
      grown = g;
    };
    put_both = λ page' l right promo tl tr bl br at_l is_l at_r left_tree right_tree g. record {
      trace = tl ++ sep promo ∷ tr;
      pages = (r ∷ bl) ++ (right.rrn ∷ br);
      children =
          more l promo [] (right.rrn ∷ []) tl tr bl (right.rrn ∷ br) r at_l is_l left_tree
            (last right right.rrn at_r refl right_tree);
      grown = g;
    };
  }

  -- The first child, before a separator that is behind the key.
  Spot-first :
      {depth : ℕ} (q : BTreeNode) (s : Key) (seps : List Key) (cs : List ℕ) (t u : List Item)
      (own rest : List ℕ) (r : ℕ)
      → page r ≡ some q
      → q.rrn ≡ r
      → Subtree order page depth q t own
      → Children order page depth seps cs u rest
      → Sorted (t ++ sep s ∷ u)
      → NoDup ((r ∷ own) ++ rest)
      → strcmp k.id s.id ≡ lt
      → Spot depth (s ∷ seps) (r ∷ cs) (t ++ sep s ∷ u) ((r ∷ own) ++ rest) 0
  Spot-first q s seps cs t u own rest r at is tree others sorted apart before =
      let behind : Leads (entry k) (sep s ∷ u) =
        let p : Precedes (entry k) (sep s) = by_id before in
        Leads.cons p (Leads-trans p (Sorted-Leads (Sorted-right t sorted))) in
      let pages : (x : ℕ) → In x rest → page x ≢ none = λ x i. Children-page x others i in
      record {
        rrn = r;
        node = q;
        trace = t;
        below = own;
        at = refl;
        page_at = at;
        is_rrn = is;
        tree = tree;
        sorted = Sorted-left t (sep s ∷ u) sorted;
        fresh_sep = λ e. (fresh_sides k.id t s u e).0;
        fresh_key = λ e. (fresh_keys k.id t s u e).0;
        apart = NoDup-left (r ∷ own) rest apart;
        put = λ page' q' t' below' at' is' tree' g. record {
          trace = t' ++ sep s ∷ u;
          pages = (r ∷ below') ++ rest;
          children =
              more q' s seps cs t' u below' rest r at' is' tree'
                (Children-frame (same-right (r ∷ own) rest apart pages g) others);
          grown = Regrown-left (r ∷ own) rest apart pages behind g;
        };
        put_both = λ page' l right promo tl tr bl br at_l is_l at_r left_tree right_tree g. record {
          trace = tl ++ sep promo ∷ (tr ++ sep s ∷ u);
          pages = (r ∷ bl) ++ ((right.rrn ∷ br) ++ rest);
          children =
              more l promo (s ∷ seps) (right.rrn ∷ cs) tl (tr ++ sep s ∷ u) bl
                ((right.rrn ∷ br) ++ rest) r at_l is_l left_tree
                (more right s seps cs tr u br rest right.rrn at_r refl right_tree
                  (Children-frame (same-right (r ∷ own) rest apart pages g) others));
          grown =
              subst
                (λ t'.
                  Regrown k page page' (t ++ sep s ∷ u) t' ((r ∷ own) ++ rest)
                    ((r ∷ bl) ++ ((right.rrn ∷ br) ++ rest)))
                (append_assoc tl (sep promo ∷ tr) (sep s ∷ u))
                (subst
                  (λ o.
                    Regrown k page page' (t ++ sep s ∷ u) ((tl ++ sep promo ∷ tr) ++ sep s ∷ u)
                      ((r ∷ own) ++ rest) o)
                  (append_assoc (r ∷ bl) (right.rrn ∷ br) rest)
                  (Regrown-left (r ∷ own) rest apart pages behind g));
        };
      }

  -- A child behind the first separator.
  Spot-later :
      {depth : ℕ} (q : BTreeNode) (s : Key) (seps : List Key) (cs : List ℕ) (t u : List Item)
      (own rest : List ℕ) (r : ℕ) (i : ℕ)
      → page r ≡ some q
      → q.rrn ≡ r
      → Subtree order page depth q t own
      → Children order page depth seps cs u rest
      → Sorted (t ++ sep s ∷ u)
      → NoDup ((r ∷ own) ++ rest)
      → strcmp s.id k.id ≡ lt
      → Spot depth seps cs u rest i
      → Spot depth (s ∷ seps) (r ∷ cs) (t ++ sep s ∷ u) ((r ∷ own) ++ rest) (suc i)
  Spot-later {depth} q s seps cs t u own rest r i at is tree others sorted apart behind spot =
      record {
        rrn = spot.rrn;
        node = spot.node;
        trace = spot.trace;
        below = spot.below;
        at = spot.at;
        page_at = spot.page_at;
        is_rrn = spot.is_rrn;
        tree = spot.tree;
        sorted = spot.sorted;
        fresh_sep = λ e. spot.fresh_sep (fresh_sides k.id t s u e).1;
        fresh_key = λ e. spot.fresh_key (fresh_keys k.id t s u e).1;
        apart = spot.apart;
        put = λ page' q' t' below' at' is' tree' g.
            kept_first page' seps cs (spot.put page' q' t' below' at' is' tree' g);
        put_both = λ page' left right promo tl tr bl br at_l is_l at_r left_tree right_tree g.
            kept_first page' (take i seps ++ promo ∷ drop i seps)
              (take (suc i) cs ++ right.rrn ∷ drop (suc i) cs)
              (spot.put_both page' left right promo tl tr bl br at_l is_l at_r left_tree right_tree
                g);
      }
    where
      front_of :
          (t : List Item)
          → Follows (sep s) t
          → Precedes (sep s) (entry k)
          → Follows (entry k) (t ++ sep s ∷ [])
      front_of [] f p = Follows.cons p Follows.nil
      front_of (x ∷ t) (Follows.cons q f) p = Follows.cons (Precedes-trans q p) (front_of t f p)

      kept_first :
          (page' : ℕ → Option BTreeNode) (seps' : List Key) (cs' : List ℕ)
          → Regrowth page' depth seps' cs' u rest
          → Regrowth page' depth (s ∷ seps') (r ∷ cs') (t ++ sep s ∷ u) ((r ∷ own) ++ rest)
      kept_first page' seps' cs' new =
          let pages : (x : ℕ) → In x (r ∷ own) → page x ≢ none =
            λ x j. own_page page at (λ i. Subtree-page x tree i) j in
          let same : SameOn (r ∷ own) page page' = same-left (r ∷ own) rest apart pages new.grown in
          let front : Follows (entry k) (t ++ sep s ∷ []) =
            front_of t (Sorted-Follows t (sep s) u sorted) (by_id behind) in
          record {
            trace = t ++ sep s ∷ new.trace;
            pages = (r ∷ own) ++ new.pages;
            children =
                more q s seps' cs' t new.trace own new.pages r (same r In.here ∙ at) is
                  (Subtree-frame (λ x i. same x (In.there i)) tree) new.children;
            grown = Regrown-right (r ∷ own) rest apart s t pages front new.grown;
          }

  -- The child that the search goes to is the one for the insertion.
  pub spot :
      {depth : ℕ} {seps : List Key} {cs : List ℕ} {t : List Item} {own : List ℕ}
      → Children order page depth seps cs t own
      → Sorted t
      → NoDup own
      → has_key k.id seps ≡ false
      → Spot depth seps cs t own (count_smaller k.id seps)
  unfolding has_key count_smaller
  spot (last q {t} {own} r at is tree) sorted apart new =
      Spot-last q t own r at is tree sorted apart
  spot (more {depth} q s seps cs t u own rest r at is tree others) sorted apart new =
      elim (Ordering-cases (strcmp s.id k.id)) [
        | inl o ↦
            let behind = Sorted-tail (Sorted-right t sorted) in
            let later = spot others behind (NoDup-right (r ∷ own) apart) (ground (arith, new, o)) in
            let e : suc (count_smaller k.id seps) ≡ 1 + count_smaller k.id seps = omega arith in
            rw o (
              subst (λ n. Spot depth (s ∷ seps) (r ∷ cs) (t ++ sep s ∷ u) ((r ∷ own) ++ rest) n) e
                (Spot-later q s seps cs t u own rest r (count_smaller k.id seps) at is tree others
                  sorted apart o later))
        | inr (inl o) ↦ absurd (ground (arith, new, o))
        | inr (inr o) ↦
            let (_, c) =
              none-after k.id s seps o
                (seps-Before others (Sorted-Leads (Sorted-right t sorted))) in
            rw (o, c)
              (Spot-first q s seps cs t u own rest r at is tree others sorted apart
                (strcmp-back s.id k.id o))
      ]
