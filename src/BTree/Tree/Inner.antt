-- ===== src/BTree/Tree/Inner.antt =====
-- `insert_key` of BTree.c on an inner node of a search tree, after the call on its child.
use gaveta.Base.{
  ℕ, suc, ◌+◌, ◌-◌, ◌≤◌, ◌<◌, ◌≡◌, ◌≢◌, refl, sym, ◌∙◌, ap, subst, false, Option, none, some, List,
  [], ◌∷◌, ◌++◌, append_assoc, arith, ltb, length, length-append, length-take, length-drop, take,
  drop, inl, inr, Returns, Bool-cases,
}
use gaveta.BTree.{Key, BTreeNode, insert_in_btree_node}
use gaveta.BTree.Search.{Holds}
use gaveta.BTree.Insert.{HoldsChildren, SameRoom, insert_in_btree_node-child}
use gaveta.BTree.Split.Gather.{split-no_rrn}
use gaveta.BTree.Split.Inner.{InnerHalves, split-InnerHalves}
use gaveta.BTree.Split.Children.{take-drop, gather-children}
use gaveta.BTree.Pager.{Pager, PagerLaws, NoNumber}
use gaveta.BTree.Tree.{success, Insertion, done, insert_here}
use gaveta.BTree.Tree.Trace.{Item, sep, Sorted}
use gaveta.BTree.Tree.Shape.{Subtree, inner, Children, last, more, Fits, In}
use gaveta.BTree.Tree.Order.{seps-Ascending}
use gaveta.BTree.Tree.Frame.{In-left, In-right, Children-page, Children-frame, Regrown}
use gaveta.BTree.Tree.Pages.{Divided, write_done-page, split_page-Divided}
use gaveta.BTree.Tree.Written.{one-SameOn, one-Regrown, two-SameOn, two-Regrown}
use gaveta.BTree.Tree.Grown.{Grown, kept, divided, no_number}

module _ {order : ℕ} {page : ℕ → Option BTreeNode} {depth : ℕ} where
  -- There is one child more than separators.
  pub Children-length :
      {seps : List Key} {cs : List ℕ} {t : List Item} {own : List ℕ}
      → Children order page depth seps cs t own
      → length cs ≡ length seps + 1
  Children-length (last q r at is tree) = refl
  Children-length (more q s seps cs t u own rest r at is tree others) =
      omega (arith, Children-length others)

module _ (order : ℕ) (page : ℕ → Option BTreeNode) (depth : ℕ) where
  -- The children of two nodes around a separator.
  pub record Cut (ls rs : List Key) (promo : Key) (lc rc : List ℕ) (t : List Item) (own : List ℕ)
      : Type 0 where
    pub tl : List Item
    pub tr : List Item
    pub ol : List ℕ
    pub or : List ℕ
    pub trace_is : t ≡ tl ++ sep promo ∷ tr
    pub own_is : own ≡ ol ++ or
    pub left : Children order page depth ls lc tl ol
    pub right : Children order page depth rs rc tr or

  Cut-more :
      {ls rs : List Key} {promo : Key} {lc rc : List ℕ} {u : List Item} {rest : List ℕ}
      (q : BTreeNode) (s : Key) (t : List Item) (own : List ℕ) (r : ℕ)
      → page r ≡ some q
      → q.rrn ≡ r
      → Subtree order page depth q t own
      → Cut ls rs promo lc rc u rest
      → Cut (s ∷ ls) rs promo (r ∷ lc) rc (t ++ sep s ∷ u) ((r ∷ own) ++ rest)
  Cut-more {ls} {promo} {lc} q s t own r at is tree c = record {
    tl = t ++ sep s ∷ c.tl;
    tr = c.tr;
    ol = (r ∷ own) ++ c.ol;
    or = c.or;
    trace_is =
        ap (λ u. t ++ sep s ∷ u) c.trace_is
        ∙ sym (append_assoc t (sep s ∷ c.tl) (sep promo ∷ c.tr));
    own_is = ap (λ u. (r ∷ own) ++ u) c.own_is ∙ sym (append_assoc (r ∷ own) c.ol c.or);
    left = more q s ls lc t c.tl own c.ol r at is tree c.left;
    right = c.right;
  }

  pub cut :
      (ls rs : List Key) (promo : Key) (lc rc : List ℕ) {t : List Item} {own : List ℕ}
      → length lc ≡ length ls + 1
      → Children order page depth (ls ++ promo ∷ rs) (lc ++ rc) t own
      → Cut ls rs promo lc rc t own
  cut [] rs promo [] rc len children = absurd (omega (arith, len))
  cut [] rs promo (x ∷ y ∷ lc) rc len children = absurd (omega (arith, len))
  cut (l ∷ ls) rs promo [] rc len children = absurd (omega (arith, len))
  cut [] rs promo (x ∷ []) rc len (more q s seps cs t u own rest r at is_r tree others) = record {
    tl = t;
    tr = u;
    ol = x ∷ own;
    or = rest;
    trace_is = refl;
    own_is = refl;
    left = last q x at is_r tree;
    right = others;
  }
  cut (l ∷ ls) rs promo (x ∷ lc) rc len (more q s seps cs t u own rest r at is_r tree others) =
      Cut-more q l t own x at is_r tree (cut ls rs promo lc rc (omega (arith, len)) others)

module _ {S : Type 0} {pager : Pager S} {order : ℕ} (laws : PagerLaws pager order) (two : 2 ≤ order)
    (byte : order < 256) where
  -- The node `p` in memory, with its children on the pages of `s` after an insertion below it.
  module _ {page : ℕ → Option BTreeNode} {s : S} {p : BTreeNode} {k : Key} {depth : ℕ}
      (seps : List Key) (cs : List ℕ) (i : ℕ) (promo : Key) (rrn : ℕ) {t t' : List Item}
      {own own' : List ℕ} (is_inner : p.leaf ≡ false) (holds : Holds p seps)
      (holds_cs : HoldsChildren p cs) (fits : Fits order p) (within : i ≤ length seps)
      (lengths : length cs ≡ length seps + 1) (used : page p.rrn ≢ none) (apart : ¬ In p.rrn own)
      (children : Children order
        (laws.page s)
        depth
        (take i seps ++ promo ∷ drop i seps)
        (take (suc i) cs ++ rrn ∷ drop (suc i) cs)
        t'
        own')
      (sorted : Sorted t') (g : Regrown k page (laws.page s) t t' own own') where
    abbrev Result : Insertion × S → Type 0
    Result r = Grown order (NoNumber pager r.1) page (laws.page r.1) k (suc depth) p t own r.0

    holds' : Holds p (take i seps ++ drop i seps)
    holds' = subst (λ ks. Holds p ks) (sym (take-drop i seps)) holds

    holds_cs' : HoldsChildren p (take (suc i) cs ++ drop (suc i) cs)
    holds_cs' = subst (λ ks. HoldsChildren p ks) (sym (take-drop (suc i) cs)) holds_cs

    at_i : length (take i seps) ≡ i
    at_i = omega (arith, length-take i seps, within)

    at_c : length (take (suc i) cs) ≡ length (take i seps) + 1
    at_c = omega (arith, length-take (suc i) cs, lengths, at_i, within)

    behind : length (drop (suc i) cs) ≡ length (drop i seps)
    behind = omega (arith, length-drop (suc i) cs, length-drop i seps, lengths)

    inner-kept :
        (r : Insertion × S) (q : BTreeNode)
        → r.0 ≡ done success q
        → p.keys_num < order - 1
        → SameRoom p q
        → Holds q (take i seps ++ promo ∷ drop i seps)
        → HoldsChildren q (take (suc i) cs ++ rrn ∷ drop (suc i) cs)
        → laws.page r.1 q.rrn ≡ some q
        → ((x : ℕ) → x ≢ q.rrn → laws.page r.1 x ≡ laws.page s x)
        → Result r
    inner-kept r q is room same hq hc at_q others =
        let at_p = ap (λ n. laws.page r.1 n) (sym same.rrn) ∙ at_q in
        let others' : (x : ℕ) → x ≢ p.rrn → laws.page r.1 x ≡ laws.page s x =
          λ x ne. others x (λ e. ne (e ∙ same.rrn)) in
        subst (λ i. Grown order (NoNumber pager r.1) page (laws.page r.1) k (suc depth) p t own i)
          (sym is)
          (kept q t' own' same.rrn at_p
            (inner (take i seps ++ promo ∷ drop i seps) (take (suc i) cs ++ rrn ∷ drop (suc i) cs)
              (same.kind ∙ is_inner) hq hc
              (record {
                key_room = omega (arith, fits.key_room, same.key_cells);
                key_cells = omega (arith, fits.key_cells, same.key_cells);
                child_room = omega (arith, fits.child_room, same.child_cells);
                few = omega (
                  arith,
                  room,
                  hq.count,
                  holds'.count,
                  length-append (take i seps) (promo ∷ drop i seps),
                  length-append (take i seps) (drop i seps),
                );
              })
              (Children-frame (one-SameOn p.rrn used apart g q at_p others') children))
            (one-Regrown p.rrn used apart g q at_p others'))

    inner-Divided :
        (r : Insertion × S)
        → Divided laws s r.1 p
            (λ new q right key.
              InnerHalves order p new
                (take i seps ++ promo ∷ drop i seps)
                (take (suc i) cs ++ rrn ∷ drop (suc i) cs)
                q
                right
                key)
            r.0
        → Result r
    inner-Divided r d =
        let h = d.good in
        let c = cut order (laws.page s) depth h.ls h.rs d.key h.lc h.rc h.left_more (
          subst (λ x. Children order (laws.page s) depth (h.ls ++ d.key ∷ h.rs) x t' own')
            h.children_around
            (subst
              (λ x.
                Children order (laws.page s) depth x (take (suc i) cs ++ rrn ∷ drop (suc i) cs) t'
                  own')
              h.keys_around children)) in
        let unused : ¬ In d.right.rrn own' = λ j. Children-page d.right.rrn children j d.fresh in
        let same = two-SameOn p.rrn used apart g d.left d.right d.same_rrn d.fresh d.pages unused in
        let back : (x : ℕ) → In x (c.ol ++ c.or) → In x own' =
          λ x j. subst (λ ys. In x ys) (sym c.own_is) j in
        subst (λ i. Grown order (NoNumber pager r.1) page (laws.page r.1) k (suc depth) p t own i)
          (sym d.is)
          (divided d.left d.right d.key c.tl c.tr c.ol c.or d.same_rrn
            (ap (λ n. laws.page r.1 n) (sym d.same_rrn) ∙ d.pages.left_page) d.pages.right_page
            (inner h.ls h.lc h.left_inner h.left_keys h.left_children
              (record {
                key_room = omega (arith, fits.key_room, h.left_cells);
                key_cells = omega (arith, fits.key_cells, h.left_cells);
                child_room = omega (arith, fits.child_room, h.left_child_cells);
                few = omega (arith, h.middle, h.left_keys.count, two);
              })
              (Children-frame (λ x j. same x (back x (In-left c.or j))) c.left))
            (inner h.rs h.rc h.right_inner h.right_keys h.right_children
              (record {
                key_room = omega (arith, d.key_room, h.right_cells);
                key_cells = omega (arith, d.key_cells, h.right_cells);
                child_room = omega (arith, d.child_room, h.right_child_cells);
                few = omega (arith, h.right_size, h.right_keys.count, two);
              })
              (Children-frame (λ x j. same x (back x (In-right c.ol j))) c.right))
            (subst
              (λ u.
                Regrown k page (laws.page r.1) t u (p.rrn ∷ own)
                  ((p.rrn ∷ c.ol) ++ (d.right.rrn ∷ c.or)))
              c.trace_is
              (two-Regrown p.rrn used apart g d.left d.right d.same_rrn d.fresh d.pages unused c.ol
                c.or c.own_is)))

    -- An inner node takes the promoted key and the new child, or is divided.
    pub insert_here-inner : Returns (insert_here pager order s p (some rrn) promo i) Result
    unfolding insert_here
    insert_here-inner = elim (Bool-cases (ltb p.keys_num (order - 1))) [
      | inl room ↦
          let few : p.keys_num < order - 1 = ground (arith, room) in
          let n : p.child_num ≡ p.keys_num + 1 =
            omega (arith, lengths, holds.count, holds_cs.count) in
          let (q, run, hq, hc, same) =
            insert_in_btree_node-child (take i seps) (drop i seps) promo holds'
              (omega (arith, few, fits.key_room)) (omega (arith, few, byte)) (take (suc i) cs)
              (drop (suc i) cs) rrn holds_cs' at_c is_inner (omega (arith, n, few, fits.child_room))
              (omega (arith, n, few, byte)) in
          let run' = ap (λ n. insert_in_btree_node (some p) promo (some rrn) n) (sym at_i) ∙ run in
          let (r, write, (is_r, at_q, others)) = write_done-page laws s q in
          (r, simp (insert_here, room, run', write), inner-kept r q is_r few same hq hc at_q others)
      | inr full ↦
          let filled : p.keys_num + 1 ≡ order = ground (arith, full, fits.few) in
          let asc = seps-Ascending children sorted in
          let gathered =
            gather-children order (take i seps) (drop i seps) (take (suc i) cs) (drop (suc i) cs)
              rrn promo holds' holds_cs' asc at_c behind is_inner filled fits.child_room in
          let (r, run, end) =
            split_page-Divided laws s p (some rrn) promo
              (λ new q right key.
                InnerHalves order p new (take i seps ++ promo ∷ drop i seps)
                  (take (suc i) cs ++ rrn ∷ drop (suc i) cs) q right key)
              (g.stay p.rrn used) (λ b gone. split-no_rrn order p b (some rrn) promo gathered gone)
              (λ b room croom named.
                let (q, right, key, halved, halves) =
                  split-InnerHalves order (take i seps) (drop i seps) (take (suc i) cs)
                    (drop (suc i) cs) rrn promo holds' holds_cs' asc at_c behind is_inner filled two
                    byte fits.child_room room croom named in
                (q, right, key, halved, halves.left_rrn, halves.right_rrn, halves)) in
          (
            r,
            simp (insert_here, full, run),
            (elim end [
              | inl (gone, is) ↦
                  subst
                    (λ i.
                      Grown order (NoNumber pager r.1) page (laws.page r.1) k (suc depth) p t own i)
                    (sym is) (no_number p gone)
              | inr d ↦ inner-Divided r d
            ]),
          )
    ]
