-- ===== src/BTree/Tree/Range/Linked.antt =====
-- The leaves of a search tree of BTree.c as a chain.
use gaveta.Base.{
  ℕ, suc, ◌+◌, ◌≤◌, ◌≡◌, ◌≢◌, sym, ◌∙◌, ap, subst, Option, some, List, [], ◌∷◌, ◌++◌, append_assoc,
  append-nil, arith, length, length-append,
}
use gaveta.BTree.{Key, BTreeNode}
use gaveta.BTree.Search.{Holds}
use gaveta.BTree.Tree.{no_pos}
use gaveta.BTree.Tree.Trace.{Item, sep, keys_of}
use gaveta.BTree.Tree.Shape.{Subtree, leaf, inner, Children, last, more}
use gaveta.BTree.Tree.Order.{keys_of-map, keys_of-around}
use gaveta.BTree.Tree.Range.Leaves.{Chain}

-- Each leaf has the number of the next one in `next_leaf`: `first` is the number of the first leaf, and
-- `next` what the last one has.
unfoldable mutual
  pub Links :
      {order : ℕ} {page : ℕ → Option BTreeNode} {depth : ℕ} {p : BTreeNode} {t : List Item}
      {own : List ℕ}
      → Subtree order page depth p t own
      → (first next : ℕ) → Type 0
  Links (leaf {p} ks is_leaf holds fits) first next = (first ≡ p.rrn) × (p.next_leaf ≡ next)
  Links (inner seps cs is_inner holds holds_cs fits children) first next =
      ChildLinks children first next

  pub ChildLinks :
      {order : ℕ} {page : ℕ → Option BTreeNode} {depth : ℕ} {seps : List Key} {cs : List ℕ}
      {t : List Item} {own : List ℕ}
      → Children order page depth seps cs t own
      → (first next : ℕ) → Type 0
  ChildLinks (last q r at is tree) first next = Links tree first next
  ChildLinks (more q s seps cs t u own rest r at is tree others) first next =
      (mid : ℕ) × Links tree first mid × (mid ≢ no_pos) × ChildLinks others mid next

-- What follows a leaf with this `next_leaf`: `m` leaves with these keys.
pub data Tail (page : ℕ → Option BTreeNode) : ℕ → ℕ → List Key → Type 0 where
  no_more : Tail page 0 no_pos []
  more_leaves :
      {m next : ℕ} {q : BTreeNode} {rest : List Key}
      → next ≢ no_pos
      → page next ≡ some q
      → Chain page m q rest
      → Tail page m next rest

-- A chain of at most `most` leaves that begins at this page.
pub record ChainAt (page : ℕ → Option BTreeNode) (first most : ℕ) (all : List Key) : Type 0 where
  pub size : ℕ
  pub head : BTreeNode
  pub at : page first ≡ some head
  pub chain : Chain page size head all
  pub few : size ≤ most

pub leaf-Chain :
    {page : ℕ → Option BTreeNode} {m next : ℕ} {p : BTreeNode} {ks rest : List Key}
    → Holds p ks
    → p.next_leaf ≡ next
    → Tail page m next rest
    → Chain page (suc m) p (ks ++ rest)
leaf-Chain {page} {p} {ks} holds is no_more =
    subst (λ l. Chain page 1 p l) (sym (append-nil ks)) (Chain.end holds is)
leaf-Chain {page} holds is (more_leaves ne at chain) =
    Chain.link holds (λ e. ne (sym is ∙ e)) (ap page is ∙ at) chain

pub keys-apart :
    (t : List Item) (s : Key) (u : List Item) (rest : List Key)
    → keys_of (t ++ sep s ∷ u) ++ rest ≡ keys_of t ++ (keys_of u ++ rest)
keys-apart t s u rest =
    ap (λ l. l ++ rest) (keys_of-around t s u) ∙ append_assoc (keys_of t) (keys_of u) rest

mutual
  unfolding Links

  pub Subtree-Chain :
      {order : ℕ} {page : ℕ → Option BTreeNode} {depth : ℕ} {p : BTreeNode} {t : List Item}
      {own : List ℕ} (tree : Subtree order page depth p t own) {m first next : ℕ} {rest : List Key}
      → page p.rrn ≡ some p
      → Links tree first next
      → Tail page m next rest
      → ChainAt page first (m + length own + 1) (keys_of t ++ rest)
  Subtree-Chain {page} {p} (leaf ks is_leaf holds fits) {m} {rest = rest} at (is, ends) tail =
      record {
        size = suc m;
        head = p;
        at = ap page is ∙ at;
        chain =
            subst (λ l. Chain page (suc m) p (l ++ rest)) (sym (keys_of-map ks))
              (leaf-Chain holds ends tail);
        few = omega arith;
      }
  Subtree-Chain {page} (inner seps cs is_inner holds holds_cs fits children) at links tail =
      let c = Children-Chain children links tail in
      record {
        size = c.size;
        head = c.head;
        at = c.at;
        chain = c.chain;
        few = omega (arith, c.few);
      }

  pub Children-Chain :
      {order : ℕ} {page : ℕ → Option BTreeNode} {depth : ℕ} {seps : List Key} {cs : List ℕ}
      {t : List Item} {own : List ℕ} (children : Children order page depth seps cs t own)
      {m first next : ℕ} {rest : List Key}
      → ChildLinks children first next
      → Tail page m next rest
      → ChainAt page first (m + length own) (keys_of t ++ rest)
  Children-Chain {page} (last q r at is tree) links tail =
      let c = Subtree-Chain tree (ap page is ∙ at) links tail in
      record {
        size = c.size;
        head = c.head;
        at = c.at;
        chain = c.chain;
        few = omega (arith, c.few);
      }
  Children-Chain {page} (more q s seps cs t u own below r at is tree others) {rest = rest}
        (mid, here, ne, links) tail =
      let d = Children-Chain others links tail in
      let c = Subtree-Chain tree (ap page is ∙ at) here (more_leaves ne d.at d.chain) in
      record {
        size = c.size;
        head = c.head;
        at = c.at;
        chain = subst (λ l. Chain page c.size c.head l) (sym (keys-apart t s u rest)) c.chain;
        few = omega (arith, c.few, d.few, length-append (r ∷ own) below);
      }
