-- ===== src/BTree/Tree/Written.antt =====
-- A node of BTree.c is written after the insertion below it, or both of its halves are.
use gaveta.Base.{
  ℕ, ◌≡◌, ◌≢◌, refl, sym, ◌∙◌, ap, subst, true, Option, none, some, List, ◌∷◌, ◌++◌, arith, ◌==◌,
  ◌⊎◌, inl, inr, Bool-cases, Option-cases,
}
use gaveta.BTree.{Key, BTreeNode}
use gaveta.BTree.Tree.Trace.{Item}
use gaveta.BTree.Tree.Shape.{In, here, there, NoDup, cons}
use gaveta.BTree.Tree.Frame.{
  In-left, In-right, In-append, NoDup-left, NoDup-right, NoDup-apart, NoDup-append, Regrown, SameOn,
}
use gaveta.BTree.Tree.Pages.{TwoPages}

equal? : (x y : ℕ) → (x ≡ y) ⊎ (x ≢ y)
equal? x y = elim (Bool-cases (x == y)) [
  | inl e ↦ inl (ground (arith, e))
  | inr ne ↦ inr (λ e. let t : (x == y) ≡ true = ground (arith, e) in cc)
]

In-cons : {x y : ℕ} {ys : List ℕ} → In x (y ∷ ys) → (x ≡ y) ⊎ In x ys
In-cons here = inl refl
In-cons (there i) = inr i

module _ {k : Key} {page page1 : ℕ → Option BTreeNode} {t t' : List Item} {own own' : List ℕ}
    (p : ℕ) (used : page p ≢ none) (apart : ¬ In p own)
    (g : Regrown k page page1 t t' own own') where
  -- The insertion below does not touch the node.
  pub not_below : ¬ In p own'
  not_below i = elim (g.from p i) [ inl old ↦ apart old | inr free ↦ used free ]

  -- A page without a node after the insertion had none before it.
  free_before : (r : ℕ) → page1 r ≡ none → page r ≡ none
  free_before r free = elim (Option-cases (page r)) [
    | inl e ↦ e
    | inr (q, e) ↦ absurd (g.stay r (λ e'. let c = sym e ∙ e' in cc) free)
  ]

  module _ {page2 : ℕ → Option BTreeNode} (q : BTreeNode) (at : page2 p ≡ some q)
      (others : (x : ℕ) → x ≢ p → page2 x ≡ page1 x) where
    pub one-SameOn : SameOn own' page1 page2
    one-SameOn x i = others x (λ e. not_below (subst (λ y. In y own') e i))

    pub one-Regrown : Regrown k page page2 t t' (p ∷ own) (p ∷ own')
    one-Regrown = record {
      mid = g.mid;
      inserted = g.inserted;
      marked = g.marked;
      apart = cons not_below g.apart;
      from = λ x i. own_or_free x i;
      kept = λ x out some_page.
          others x (λ e. out (subst (λ y. In y (p ∷ own)) (sym e) here))
          ∙ g.kept x (λ i. out (there i)) some_page;
      stay = λ x some_page. elim (equal? x p) [
        | inl e ↦ λ gone. let c = sym at ∙ ap page2 (sym e) ∙ gone in cc
        | inr ne ↦ λ gone. g.stay x some_page (sym (others x ne) ∙ gone)
      ];
    }
      where
        own_or_free : (x : ℕ) → In x (p ∷ own') → In x (p ∷ own) ⊎ (page x ≡ none)
        own_or_free x here = inl here
        own_or_free x (there i) = elim (g.from x i) [
          | inl old ↦ inl (there old)
          | inr free ↦ inr free
        ]

  module _ {page2 : ℕ → Option BTreeNode} (l r : BTreeNode) (is_p : l.rrn ≡ p)
      (free : page1 r.rrn ≡ none) (pages : TwoPages page1 page2 l r)
      (unused : ¬ In r.rrn own') where
    pub not_p : r.rrn ≢ p
    not_p e = used (ap page (sym e) ∙ free_before r.rrn free)

    pub two-SameOn : SameOn own' page1 page2
    two-SameOn x i =
        pages.others x (λ e. not_below (subst (λ y. In y own') (e ∙ is_p) i))
          (λ e. unused (subst (λ y. In y own') e i))

    pub two-Regrown :
        (ol or : List ℕ)
        → own' ≡ ol ++ or
        → Regrown k page page2 t t' (p ∷ own) ((p ∷ ol) ++ (r.rrn ∷ or))
    two-Regrown ol or is = record {
      mid = g.mid;
      inserted = g.inserted;
      marked = g.marked;
      apart =
          NoDup-append (cons (λ i. not_below (back (In-left or i))) (NoDup-left ol or both))
            (cons (λ i. unused (back (In-right ol i))) (NoDup-right ol both)) (λ x i j. meet x i j);
      from = λ x i. elim (In-append (p ∷ ol) i) [ inl j ↦ left_from x j | inr j ↦ right_from x j ];
      kept = λ x out some_page.
          pages.others x (λ e. out (subst (λ y. In y (p ∷ own)) (sym (e ∙ is_p)) here))
            (λ e. some_page (ap page e ∙ free_before r.rrn free))
          ∙ g.kept x (λ i. out (there i)) some_page;
      stay = λ x some_page. elim (equal? x l.rrn) [
        | inl e ↦ λ gone. let c = sym pages.left_page ∙ ap page2 (sym e) ∙ gone in cc
        | inr nl ↦ elim (equal? x r.rrn) [
          | inl e ↦ λ gone. let c = sym pages.right_page ∙ ap page2 (sym e) ∙ gone in cc
          | inr nr ↦ λ gone. g.stay x some_page (sym (pages.others x nl nr) ∙ gone)
        ]
      ];
    }
      where
        both : NoDup (ol ++ or)
        both = subst NoDup is g.apart

        back : {x : ℕ} → In x (ol ++ or) → In x own'
        back {x} i = subst (λ ys. In x ys) (sym is) i

        below : (x : ℕ) → In x own' → In x (p ∷ own) ⊎ (page x ≡ none)
        below x i = elim (g.from x i) [ inl old ↦ inl (there old) | inr free ↦ inr free ]

        left_from : (x : ℕ) → In x (p ∷ ol) → In x (p ∷ own) ⊎ (page x ≡ none)
        left_from x here = inl here
        left_from x (there i) = below x (back (In-left or i))

        right_from : (x : ℕ) → In x (r.rrn ∷ or) → In x (p ∷ own) ⊎ (page x ≡ none)
        right_from x here = inr (free_before r.rrn free)
        right_from x (there i) = below x (back (In-right ol i))

        meet : (x : ℕ) → In x (p ∷ ol) → ¬ In x (r.rrn ∷ or)
        meet x i j = elim (In-cons i) [
          | inl e ↦ elim (In-cons j) [
            | inl e' ↦ not_p (sym e' ∙ e)
            | inr j ↦ not_below (back (In-right ol (subst (λ y. In y or) e j)))
          ]
          | inr i ↦ elim (In-cons j) [
            | inl e' ↦ unused (back (In-left or (subst (λ y. In y ol) e' i)))
            | inr j ↦ NoDup-apart ol both i j
          ]
        ]
