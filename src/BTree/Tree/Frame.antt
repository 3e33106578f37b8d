-- ===== src/BTree/Tree/Frame.antt =====
-- A search tree of BTree.c on pages that change elsewhere, and lists of record numbers without
-- duplicates.
use gaveta.Base.{ℕ, ◌≡◌, ◌≢◌, sym, ◌∙◌, Option, none, some, List, [], ◌∷◌, ◌++◌, ◌⊎◌, inl, inr}
use gaveta.BTree.{Key, BTreeNode}
use gaveta.BTree.Tree.Trace.{
  Item, entry, sep, Leads, Follows, Inserted, Inserted-left, Marked, Marked-refl, Marked-append,
}
use gaveta.BTree.Tree.Shape.{
  Subtree, leaf, inner, Children, last, more, In, here, there, NoDup, nil, cons,
}

pub In-left : {r : ℕ} {xs : List ℕ} (ys : List ℕ) → In r xs → In r (xs ++ ys)
In-left ys here = here
In-left ys (there i) = there (In-left ys i)

pub In-right : {r : ℕ} (xs : List ℕ) {ys : List ℕ} → In r ys → In r (xs ++ ys)
In-right [] i = i
In-right (x ∷ xs) i = there (In-right xs i)

pub In-append : {r : ℕ} (xs : List ℕ) {ys : List ℕ} → In r (xs ++ ys) → In r xs ⊎ In r ys
In-append [] i = inr i
In-append (x ∷ xs) here = inl here
In-append (x ∷ xs) (there i) = elim (In-append xs i) [ inl l ↦ inl (there l) | inr r ↦ inr r ]

pub NoDup-left : (xs ys : List ℕ) → NoDup (xs ++ ys) → NoDup xs
NoDup-left [] ys n = nil
NoDup-left (x ∷ xs) ys (cons ne n) = cons (λ i. ne (In-left ys i)) (NoDup-left xs ys n)

pub NoDup-right : (xs : List ℕ) {ys : List ℕ} → NoDup (xs ++ ys) → NoDup ys
NoDup-right [] n = n
NoDup-right (x ∷ xs) (cons ne n) = NoDup-right xs n

pub NoDup-apart : {r : ℕ} (xs : List ℕ) {ys : List ℕ} → NoDup (xs ++ ys) → In r xs → ¬ In r ys
NoDup-apart [] n i = elim i [ ]
NoDup-apart (x ∷ xs) (cons ne n) here = λ j. ne (In-right xs j)
NoDup-apart (x ∷ xs) (cons ne n) (there i) = NoDup-apart xs n i

pub NoDup-append :
    {xs ys : List ℕ} → NoDup xs → NoDup ys → ((r : ℕ) → In r xs → ¬ In r ys) → NoDup (xs ++ ys)
NoDup-append nil m apart = m
NoDup-append {ys} (cons {r} {rs} ne n) m apart =
    cons (λ i. elim (In-append rs i) [ inl l ↦ ne l | inr j ↦ apart r here j ])
      (NoDup-append n m (λ x i. apart x (there i)))

pub own_page :
    (page : ℕ → Option BTreeNode) {r c : ℕ} {q : BTreeNode} {own : List ℕ}
    → page c ≡ some q
    → (In r own → page r ≢ none)
    → In r (c ∷ own)
    → page r ≢ none
own_page page at pages here = λ e. let e' = sym at ∙ e in cc
own_page page at pages (there i) = pages i

mutual
  -- Every page of a tree has a node.
  pub Subtree-page :
      {order : ℕ} {page : ℕ → Option BTreeNode} {depth : ℕ} {p : BTreeNode} {t : List Item}
      {own : List ℕ} (r : ℕ)
      → Subtree order page depth p t own
      → In r own
      → page r ≢ none
  Subtree-page r (leaf ks _ _ _) i = elim i [ ]
  Subtree-page r (inner seps cs _ _ _ _ children) i = Children-page r children i

  pub Children-page :
      {order : ℕ} {page : ℕ → Option BTreeNode} {depth : ℕ} {seps : List Key} {cs : List ℕ}
      {t : List Item} {own : List ℕ} (r : ℕ)
      → Children order page depth seps cs t own
      → In r own
      → page r ≢ none
  Children-page {page} r (last q c at is tree) i = own_page page at (λ i. Subtree-page r tree i) i
  Children-page {page} r (more q s seps cs t u own rest c at is tree others) i =
      elim (In-append (c ∷ own) i) [
        | inl l ↦ own_page page at (λ i. Subtree-page r tree i) l
        | inr j ↦ Children-page r others j
      ]

-- The pages `own` are the same in both.
abbrev pub SameOn : List ℕ → (ℕ → Option BTreeNode) → (ℕ → Option BTreeNode) → Type 0
SameOn own page page' = (r : ℕ) → In r own → page' r ≡ page r

mutual
  pub Subtree-frame :
      {order : ℕ} {page page' : ℕ → Option BTreeNode} {depth : ℕ} {p : BTreeNode} {t : List Item}
      {own : List ℕ}
      → SameOn own page page'
      → Subtree order page depth p t own
      → Subtree order page' depth p t own
  Subtree-frame same (leaf ks is_leaf holds fits) = leaf ks is_leaf holds fits
  Subtree-frame same (inner seps cs is_inner holds holds_cs fits children) =
      inner seps cs is_inner holds holds_cs fits (Children-frame same children)

  pub Children-frame :
      {order : ℕ} {page page' : ℕ → Option BTreeNode} {depth : ℕ} {seps : List Key} {cs : List ℕ}
      {t : List Item} {own : List ℕ}
      → SameOn own page page'
      → Children order page depth seps cs t own
      → Children order page' depth seps cs t own
  Children-frame same (last q r at is tree) =
      last q r (same r here ∙ at) is (Subtree-frame (λ x i. same x (there i)) tree)
  Children-frame same (more q s seps cs t u own rest r at is tree others) =
      more q s seps cs t u own rest r (same r here ∙ at) is
        (Subtree-frame (λ x i. same x (there (In-left rest i))) tree)
        (Children-frame (λ x i. same x (In-right (r ∷ own) i)) others)

-- What an insertion makes of a trace and of the pages below: the key comes into its place, with
-- separators perhaps; new pages had no node before, and other pages are as they were.
pub record Regrown (k : Key) (page page' : ℕ → Option BTreeNode) (t t' : List Item)
    (own own' : List ℕ) : Type 0 where
  pub mid : List Item
  pub inserted : Inserted k t mid
  pub marked : Marked mid t'
  pub apart : NoDup own'
  pub from : (r : ℕ) → In r own' → In r own ⊎ (page r ≡ none)
  pub kept : (r : ℕ) → ¬ In r own → page r ≢ none → page' r ≡ page r
  pub stay : (r : ℕ) → page r ≢ none → page' r ≢ none

module _ {k : Key} {page page' : ℕ → Option BTreeNode} (own rest : List ℕ)
    (apart : NoDup (own ++ rest)) where
  -- The pages of the other side stay.
  pub same-right :
      {t t' : List Item} {own' : List ℕ}
      → ((r : ℕ) → In r rest → page r ≢ none)
      → Regrown k page page' t t' own own'
      → SameOn rest page page'
  same-right pages g r i = g.kept r (λ j. NoDup-apart own apart j i) (pages r i)

  pub same-left :
      {u u' : List Item} {rest' : List ℕ}
      → ((r : ℕ) → In r own → page r ≢ none)
      → Regrown k page page' u u' rest rest'
      → SameOn own page page'
  same-left pages g r i = g.kept r (NoDup-apart own apart i) (pages r i)

  -- The insertion is before the separator.
  pub Regrown-left :
      {s : Key} {t t' u : List Item} {own' : List ℕ}
      → ((r : ℕ) → In r rest → page r ≢ none)
      → Leads (entry k) (sep s ∷ u)
      → Regrown k page page' t t' own own'
      → Regrown k page page' (t ++ sep s ∷ u) (t' ++ sep s ∷ u) (own ++ rest) (own' ++ rest)
  Regrown-left {s} {u} {own'} pages l g = record {
    mid = g.mid ++ sep s ∷ u;
    inserted = Inserted-left (sep s ∷ u) l g.inserted;
    marked = Marked-append g.marked (Marked-refl (sep s ∷ u));
    apart = NoDup-append g.apart (NoDup-right own apart) (λ r i j. elim (g.from r i) [
      | inl old ↦ NoDup-apart own apart old j
      | inr new ↦ pages r j new
    ]);
    from = λ r i. elim (In-append own' i) [
      | inl j ↦ elim (g.from r j) [ inl old ↦ inl (In-left rest old) | inr new ↦ inr new ]
      | inr j ↦ inl (In-right own j)
    ];
    kept = λ r out some_page. g.kept r (λ i. out (In-left rest i)) some_page;
    stay = g.stay;
  }

  -- The insertion is behind the separator.
  pub Regrown-right :
      (s : Key) (t : List Item) {u u' : List Item} {rest' : List ℕ}
      → ((r : ℕ) → In r own → page r ≢ none)
      → Follows (entry k) (t ++ sep s ∷ [])
      → Regrown k page page' u u' rest rest'
      → Regrown k page page' (t ++ sep s ∷ u) (t ++ sep s ∷ u') (own ++ rest) (own ++ rest')
  Regrown-right s t {u} pages f g = record {
    mid = t ++ sep s ∷ g.mid;
    inserted = behind t f;
    marked = Marked-append (Marked-refl t) (Marked.keep g.marked);
    apart = NoDup-append (NoDup-left own rest apart) g.apart (λ r i j. elim (g.from r j) [
      | inl old ↦ NoDup-apart own apart i old
      | inr new ↦ pages r i new
    ]);
    from = λ r i. elim (In-append own i) [
      | inl j ↦ inl (In-left rest j)
      | inr j ↦ elim (g.from r j) [ inl old ↦ inl (In-right own old) | inr new ↦ inr new ]
    ];
    kept = λ r out some_page. g.kept r (λ i. out (In-right own i)) some_page;
    stay = g.stay;
  }
    where
      behind :
          (t : List Item)
          → Follows (entry k) (t ++ sep s ∷ [])
          → Inserted k (t ++ sep s ∷ u) (t ++ sep s ∷ g.mid)
      behind [] (Follows.cons p f) = Inserted.later p g.inserted
      behind (x ∷ t) (Follows.cons p f) = Inserted.later p (behind t f)
