-- ===== src/BTree/Tree/Grown.antt =====
-- What `insert_key` of BTree.c does to a search tree; on a leaf.
use gaveta.Base.{
  ℕ, ◌+◌, ◌-◌, ◌≤◌, ◌<◌, ◌≡◌, ◌≢◌, refl, sym, ◌∙◌, ap, subst, true, false, Option, none, some, List,
  [], ◌∷◌, ◌++◌, map, arith, ltb, length, length-append, get_elem?, inl, inr, some-injective,
  Returns, Bool-cases,
}
use gaveta.BTree.{Key, BTreeNode, strcmp, insert_in_btree_node}
use gaveta.BTree.Search.{Holds, Before, Ascending, has_key, count_smaller, Ordering-cases}
use gaveta.BTree.Insert.{
  insert_key, insert_key-split, insert_in_btree_node-leaf, strcmp-back, SameRoom,
}
use gaveta.BTree.Split.Gather.{gathered, split-no_rrn}
use gaveta.BTree.Split.Halves.{Halves, split-Halves}
use gaveta.BTree.Pager.{Pager, PagerLaws, NoNumber}
use gaveta.BTree.Tree.{success, error_io, Insertion, done, promoted, insert_here}
use gaveta.BTree.Tree.Trace.{
  Item, entry, sep, Precedes, by_id, Leads, Leads-trans, Inserted, Marked, keep, mark, Marked-refl,
}
use gaveta.BTree.Tree.Shape.{Subtree, leaf, Fits, nil}
use gaveta.BTree.Tree.Frame.{Regrown}
use gaveta.BTree.Tree.Written.{one-Regrown, two-Regrown}
use gaveta.BTree.Tree.Pages.{Divided, write_done-page, split_page-Divided}

-- The node `p` of a search tree has taken the key, or has been divided in two; or no record number was
-- left.
pub data Grown (order : ℕ) (NoNumber : Type 0) (page page' : ℕ → Option BTreeNode) (k : Key)
    (depth : ℕ) (p : BTreeNode) (t : List Item) (own : List ℕ) : Insertion → Type 0 where
  kept :
      (q : BTreeNode) (t' : List Item) (own' : List ℕ)
      → q.rrn ≡ p.rrn
      → page' p.rrn ≡ some q
      → Subtree order page' depth q t' own'
      → Regrown k page page' t t' (p.rrn ∷ own) (p.rrn ∷ own')
      → Grown order NoNumber page page' k depth p t own (done success q)
  divided :
      (l r : BTreeNode) (promo : Key) (tl tr : List Item) (ol or : List ℕ)
      → l.rrn ≡ p.rrn
      → page' p.rrn ≡ some l
      → page' r.rrn ≡ some r
      → Subtree order page' depth l tl ol
      → Subtree order page' depth r tr or
      → Regrown k page page' t (tl ++ sep promo ∷ tr) (p.rrn ∷ own) ((p.rrn ∷ ol) ++ (r.rrn ∷ or))
      → Grown order NoNumber page page' k depth p t own (promoted l r promo)
  no_number :
      (q : BTreeNode) → NoNumber → Grown order NoNumber page page' k depth p t own (done error_io q)

map-Leads : {k : Key} (ks : List Key) → Before k ks → Leads (entry k) (map entry ks)
map-Leads [] b = Leads.nil
map-Leads (l ∷ ks) (Before.cons e b) = Leads.cons (by_id e) (map-Leads ks b)

-- A new key in a leaf is inserted into its trace.
map-Inserted :
    (k : Key) (ks : List Key)
    → Ascending ks
    → has_key k.id ks ≡ false
    → Inserted k (map entry ks) (map entry (insert_key k ks))
unfolding insert_key has_key
map-Inserted k [] asc new = Inserted.here Leads.nil
map-Inserted k (l ∷ ks) (Ascending.cons ne before asc) new =
    elim (Ordering-cases (strcmp l.id k.id)) [
      | inl o ↦ rw o (Inserted.later (by_id o) (map-Inserted k ks asc (ground (arith, new, o))))
      | inr (inl o) ↦ absurd (ground (arith, new, o))
      | inr (inr o) ↦
          let first : Precedes (entry k) (entry l) = by_id (strcmp-back l.id k.id o) in
          rw o (Inserted.here (Leads.cons first (Leads-trans first (map-Leads ks before))))
    ]

-- The first key of the right half becomes a separator.
map-Marked :
    (ls rs : List Key) (promo : Key)
    → 0 < length ls
    → get_elem? rs 0 ≡ some promo
    → Marked (map entry (ls ++ rs)) (map entry ls ++ sep promo ∷ map entry rs)
map-Marked [] rs promo some_left first = absurd (omega arith)
map-Marked (l ∷ []) [] promo some_left first = cc
map-Marked (l ∷ []) (r ∷ rs) promo some_left first =
    subst
      (λ x. Marked (entry l ∷ entry r ∷ map entry rs) (entry l ∷ sep x ∷ entry r ∷ map entry rs))
      (some-injective r promo first) (mark (Marked-refl (entry r ∷ map entry rs)))
map-Marked (l ∷ m ∷ ls) rs promo some_left first =
    keep (map-Marked (m ∷ ls) rs promo (omega arith) first)

module _ {S : Type 0} {pager : Pager S} {order : ℕ} (laws : PagerLaws pager order) (two : 2 ≤ order)
    (byte : order < 256) where
  abbrev Outcome : S → Key → ℕ → BTreeNode → List Item → List ℕ → Insertion × S → Type 0
  Outcome s k depth p t own r =
      Grown order (NoNumber pager r.1) (laws.page s) (laws.page r.1) k depth p t own r.0

  module _ {s : S} {p : BTreeNode} (ks : List Key) (k : Key) (is_leaf : p.leaf ≡ true)
      (holds : Holds p ks) (fits : Fits order p) (asc : Ascending ks)
      (at : laws.page s p.rrn ≡ some p) (some_id : k.id ≢ []) (new : has_key k.id ks ≡ false) where
    -- Below a leaf there are no pages.
    leaf-Regrown :
        (t' : List Item)
        → Marked (map entry (insert_key k ks)) t'
        → Regrown k (laws.page s) (laws.page s) (map entry ks) t' [] []
    leaf-Regrown t' m = record {
      mid = map entry (insert_key k ks);
      inserted = map-Inserted k ks asc new;
      marked = m;
      apart = nil;
      from = λ x i. elim i [ ];
      kept = λ x out some_page. refl;
      stay = λ x some_page. some_page;
    }

    used : laws.page s p.rrn ≢ none
    used = λ e. let c = sym at ∙ e in cc

    leaf-kept :
        (r : Insertion × S) (q : BTreeNode)
        → r.0 ≡ done success q
        → p.keys_num < order - 1
        → SameRoom p q
        → Holds q (insert_key k ks)
        → length (insert_key k ks) ≡ p.keys_num + 1
        → laws.page r.1 q.rrn ≡ some q
        → ((x : ℕ) → x ≢ q.rrn → laws.page r.1 x ≡ laws.page s x)
        → Outcome s k 0 p (map entry ks) [] r
    leaf-kept r q is room same holds_q more at_q others =
        let g =
          leaf-Regrown (map entry (insert_key k ks)) (Marked-refl (map entry (insert_key k ks))) in
        let at_p = ap (λ n. laws.page r.1 n) (sym same.rrn) ∙ at_q in
        subst
          (λ i.
            Grown order (NoNumber pager r.1) (laws.page s) (laws.page r.1) k 0 p (map entry ks) []
              i)
          (sym is)
          (kept q (map entry (insert_key k ks)) [] same.rrn at_p
            (leaf (insert_key k ks) (same.kind ∙ is_leaf) holds_q (record {
              key_room = omega (arith, fits.key_room, same.key_cells);
              key_cells = omega (arith, fits.key_cells, same.key_cells);
              child_room = omega (arith, fits.child_room, same.child_cells);
              few = omega (arith, room, more, holds_q.count);
            }))
            (one-Regrown p.rrn used (λ i. elim i [ ]) g q at_p
              (λ x ne. others x (λ e. ne (e ∙ same.rrn)))))

    leaf-Divided :
        (r : Insertion × S)
        → Divided laws s r.1 p
            (λ new q right promo. Halves order p new (insert_key k ks) q right promo)
            r.0
        → Outcome s k 0 p (map entry ks) [] r
    leaf-Divided r d =
        let h = d.good in
        let t' : List Item = map entry h.ls ++ sep d.key ∷ map entry h.rs in
        let m : Marked (map entry (insert_key k ks)) t' =
          subst (λ l. Marked (map entry l) t') h.together
            (map-Marked h.ls h.rs d.key (omega (arith, h.middle)) h.promoted) in
        subst
          (λ i.
            Grown order (NoNumber pager r.1) (laws.page s) (laws.page r.1) k 0 p (map entry ks) []
              i)
          (sym d.is)
          (divided d.left d.right d.key (map entry h.ls) (map entry h.rs) [] [] d.same_rrn
            (ap (λ n. laws.page r.1 n) (sym d.same_rrn) ∙ d.pages.left_page) d.pages.right_page
            (leaf h.ls (h.left_leaf ∙ is_leaf) h.left_keys (record {
              key_room = omega (arith, fits.key_room, h.left_cells);
              key_cells = omega (arith, fits.key_cells, h.left_cells);
              child_room = omega (arith, fits.child_room, ap (λ c. length c) h.left_children);
              few = omega (arith, h.middle, h.left_keys.count, two);
            }))
            (leaf h.rs h.right_leaf h.right_keys (record {
              key_room = omega (arith, d.key_room, h.right_cells);
              key_cells = omega (arith, d.key_cells, h.right_cells);
              child_room = omega (arith, d.child_room, ap (λ c. length c) h.right_children);
              few = omega (arith, h.middle, h.right_keys.count, h.right_size, two);
            }))
            (two-Regrown p.rrn used (λ i. elim i [ ]) (leaf-Regrown t' m) d.left d.right d.same_rrn
              d.fresh d.pages (λ i. elim i [ ]) [] [] refl))

    -- A leaf takes the key, or is divided.
    pub insert_here-leaf :
        Returns
          (insert_here pager order s p none k (count_smaller k.id ks))
          (Outcome s k 0 p (map entry ks) [])
    unfolding insert_here
    insert_here-leaf = elim (Bool-cases (ltb p.keys_num (order - 1))) [
      | inl room ↦
          let few : p.keys_num < order - 1 = ground (arith, room) in
          let (pre, post, is, at_pos, ins) = insert_key-split k ks new asc in
          let holds' : Holds p (pre ++ post) = subst (λ t. Holds p t) is holds in
          let (q, run, hq, _, same) =
            insert_in_btree_node-leaf pre post k holds' (omega (arith, few, fits.key_room))
              (omega (arith, few, byte)) none is_leaf in
          let run' = ap (λ n. insert_in_btree_node (some p) k none n) (sym at_pos) ∙ run in
          let (r, write, (is_r, at_q, others)) = write_done-page laws s q in
          let more : length (insert_key k ks) ≡ p.keys_num + 1 =
            ap (λ t. length t) ins
            ∙ omega (arith, length-append pre (k ∷ post), length-append pre post, holds'.count) in
          (
            r,
            simp (insert_here, room, run', write),
            leaf-kept r q is_r few same (subst (λ t. Holds q t) (sym ins) hq) more at_q others,
          )
      | inr full ↦
          let filled : p.keys_num + 1 ≡ order = ground (arith, full, fits.few) in
          let (r, run, end) =
            split_page-Divided laws s p none k
              (λ new q right promo. Halves order p new (insert_key k ks) q right promo) used
              (λ b gone.
                split-no_rrn order p b none k (gathered order none k holds asc is_leaf filled new)
                  gone)
              (λ b room croom named.
                let (q, right, promo, cut, halves, _) =
                  split-Halves order none k holds asc is_leaf filled two byte room named some_id
                    new in
                (q, right, promo, cut, halves.left_rrn, halves.right_rrn, halves)) in
          (
            r,
            simp (insert_here, full, run),
            (elim end [
              | inl (gone, is) ↦
                  subst
                    (λ i.
                      Grown order (NoNumber pager r.1) (laws.page s) (laws.page r.1) k 0 p
                        (map entry ks) [] i)
                    (sym is) (no_number p gone)
              | inr d ↦ leaf-Divided r d
            ]),
          )
    ]
