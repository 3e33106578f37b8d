-- ===== src/BTree/Tree/RoundTrip.antt =====
-- `b_search` of BTree.c after `b_insert`, over operations on
-- pages that keep `PagerLaws`, which the program's own do not.
use Prim.Native.Nat.{eq}
use gaveta.Base.{
  ℕ, suc, ◌≤◌, ◌<◌, ◌≡◌, ◌≢◌, refl, sym, ◌∙◌, ap, true, false, Option, none, some, List, [], ◌∷◌,
  arith, get_elem?, ◌⊎◌, inl, inr, Returns,
}
use gaveta.BTree.{Key, BTreeNode, strcmp}
use gaveta.BTree.Search.{is_eq, is_lt, has_key, Ordering-cases, strcmp_refl}
use gaveta.BTree.Insert.{insert_key}
use gaveta.BTree.Pager.{Pager, PagerLaws, NoNumber}
use gaveta.BTree.Tree.{BTree, no_pos, b_search, b_insert}
use gaveta.BTree.Tree.Trace.{Item, keys_of, seps_of}
use gaveta.BTree.Tree.Shape.{find_key, IsTree}
use gaveta.BTree.Tree.Find.{separator, present, absent, Answer, hidden, in_leaf, b_search-Answer}
use gaveta.BTree.Tree.Root.{b_insert-HasKeys}

pub find_key-insert_key :
    (k : Key) (ks : List Key) → has_key k.id ks ≡ false → find_key k.id (insert_key k ks) ≡ some k
unfolding find_key insert_key has_key
find_key-insert_key k [] new = let e : strcmp k.id k.id ≡ eq = strcmp_refl k.id in rw e refl
find_key-insert_key k (l ∷ ks) new = elim (Ordering-cases (strcmp l.id k.id)) [
  | inl o ↦ rw (o, is_lt, is_eq, o) (find_key-insert_key k ks (ground (arith, new, o)))
  | inr (inl o) ↦ absurd (ground (arith, new, o))
  | inr (inr o) ↦ let e : strcmp k.id k.id ≡ eq = strcmp_refl k.id in rw (o, is_lt, e) refl
]

-- The answer of `b_search` for a key that is there: NULL, where it is a separator too, or a leaf and a
-- position with the key.
pub data Hit (k : Key) : Option BTreeNode × ℕ → Type 0 where
  masked : Hit k (none, no_pos)
  at : {q : BTreeNode} {i : ℕ} → get_elem? q.keys i ≡ some k → q.leaf ≡ true → Hit k (some q, i)

Answer-Hit :
    {k : Key} {all seps : List Key} {a : Option BTreeNode × ℕ}
    → find_key k.id all ≡ some k
    → Answer k.id all seps a
    → Hit k a
Answer-Hit is (hidden hit) = masked
Answer-Hit is (in_leaf is_leaf (separator i hit is_inner)) =
    absurd (let c = sym is_leaf ∙ is_inner in cc)
Answer-Hit {k} is (in_leaf is_leaf (present l miss has cell is_k few leaf')) =
    at (cell ∙ (sym has ∙ is)) is_leaf
Answer-Hit is (in_leaf is_leaf (absent miss missing leaf' cells)) =
    absurd (let c = sym missing ∙ is in cc)

module _ {S : Type 0} {pager : Pager S} {order : ℕ} (laws : PagerLaws pager order) (two : 2 ≤ order)
    (byte : order < 256) where
  -- A key that `b_insert` has inserted into a search tree is found by `b_search`, in a leaf and with its
  -- record, unless it has become a separator; where the insertion leaves a record number for a node.
  pub b_search-b_insert :
      {b : BTree S} {depth : ℕ} {t : List Item} (n : ℕ) (k : Key) (pos : ℕ)
      → IsTree order laws.page b depth t
      → depth < n
      → k.id ≢ []
      → has_key k.id (keys_of t) ≡ false
      → has_key k.id (seps_of t) ≡ false
      → Returns (b_insert pager n order b k) λ r.
        NoNumber pager r.1.store ⊎ Returns (b_search pager (suc n) r.1 k.id pos) λ a. Hit k a.0
  b_search-b_insert {t} n k pos is fuel some_id new fresh =
      let (r, run, end) = b_insert-HasKeys laws two byte n k is fuel some_id new fresh in
      (
        r,
        run,
        (elim end [
          | inl gone ↦ inl gone
          | inr (_, h) ↦
              let (a, search, (answer, _)) =
                b_search-Answer laws (suc n) k.id pos h.tree (omega (arith, h.shallow, fuel)) in
              let found : find_key k.id (keys_of h.trace) ≡ some k =
                ap (λ ks. find_key k.id ks) h.keys_are ∙ find_key-insert_key k (keys_of t) new in
              inr (a, search, Answer-Hit found answer)
        ]),
      )
