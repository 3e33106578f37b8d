-- ===== src/BTree/Tree/Pages.antt =====
-- The writes of pages in the insertion of BTree.c.
use gaveta.Base.{
  ℕ, ◌≤◌, ◌<◌, ◌≡◌, ◌≢◌, refl, sym, ◌∙◌, ap, subst, Option, none, some, arith, ◌==◌, length, ◌⊎◌,
  inl, inr, ok, ◌>>=◌, Returns, Bool-cases,
}
use gaveta.BTree.{Key, BTreeNode}
use gaveta.BTree.Split.{no_rrn, promotion, no_child, split}
use gaveta.BTree.Pager.{Pager, PagerLaws, SameBut, NoNumber}
use gaveta.BTree.Tree.{
  success, error_io, Insertion, done, promoted, write_done, write_halves, split_page,
}

-- The pages with both nodes written.
pub record TwoPages (page page' : ℕ → Option BTreeNode) (l r : BTreeNode) : Type 0 where
  pub left_page : page' l.rrn ≡ some l
  pub right_page : page' r.rrn ≡ some r
  pub others : (x : ℕ) → x ≢ l.rrn → x ≢ r.rrn → page' x ≡ page x

module _ {S : Type 0} {pager : Pager S} {order : ℕ} (laws : PagerLaws pager order) where
  pub write_done-page :
      (s : S) (p : BTreeNode)
      → Returns (write_done pager s p) λ r.
        (r.0 ≡ done success p)
        × (laws.page r.1 p.rrn ≡ some p)
        × SameBut p.rrn (laws.page s) (laws.page r.1)
  unfolding write_done
  write_done-page s p =
      let (w, run, (is, at, others)) = laws.write-page s p in
      ((done success p, w.1), simp (write_done, run, is), (refl, at, others))

  write_halves-pages :
      (s : S) (p l r : BTreeNode) (k : Key)
      → l.rrn ≢ r.rrn
      → Returns
          (write_halves pager s p (promotion l r k))
          λ x. (x.0 ≡ promoted l r k) × TwoPages (laws.page s) (laws.page x.1) l r
  unfolding write_halves
  write_halves-pages s p l r k ne =
      let (w, run, (is, at, others)) = laws.write-page s l in
      let (w', run', (is', at', others')) = laws.write-page w.1 r in
      (
        (promoted l r k, w'.1),
        simp (write_halves, run, is, run', is'),
        (
          refl,
          record {
            left_page = others' l.rrn ne ∙ at;
            right_page = at';
            others = λ x nl nr. others' x nr ∙ others x nl;
          },
        ),
      )

  -- A node that `split` divides, with `Good` of the halves, where a record number is left.
  pub record Divided (s s' : S) (p : BTreeNode) (Good : (new q right : BTreeNode) → Key → Type 0)
      (i : Insertion) : Type 0 where
    pub new : BTreeNode
    pub left : BTreeNode
    pub right : BTreeNode
    pub key : Key
    pub is : i ≡ promoted left right key
    pub pages : TwoPages (laws.page s) (laws.page s') left right
    pub fresh : laws.page s right.rrn ≡ none
    pub same_rrn : left.rrn ≡ p.rrn
    pub key_room : order ≤ length new.keys
    pub key_cells : length new.keys ≤ no_child
    pub child_room : order < length new.children
    pub good : Good new left right key

  pub split_page-Divided :
      (s : S) (p : BTreeNode) (r_child : Option ℕ) (k : Key)
      (Good : (new q right : BTreeNode) → Key → Type 0)
      → laws.page s p.rrn ≢ none
      → ((new : BTreeNode) → new.rrn ≡ no_child → split order p r_child k (some new) ≡ ok no_rrn)
      → ((new : BTreeNode)
          → order ≤ length new.keys
          → order < length new.children
          → new.rrn ≢ no_child
          → (q right : BTreeNode) × (promo : Key) × (split order p r_child k (some new)
              ≡ ok (promotion q right promo))
            × (q.rrn ≡ p.rrn)
            × (right.rrn ≡ new.rrn)
            × Good new q right promo)
      → Returns
          (split_page pager order s p r_child k)
          λ x. (NoNumber pager x.1 × (x.0 ≡ done error_io p)) ⊎ Divided s x.1 p Good x.0
  unfolding split_page write_halves
  split_page-Divided s p r_child k Good used fails splits =
      let (a, alloc, (blank, is, keys, cells, kids, _, _, _, same)) = laws.alloc-page s in
      let (t, take, (free, same')) = laws.take_rrn-page a.1 in
      let new : BTreeNode = record blank { rrn = t.0 } in
      let run = split_page-run s a t blank alloc is take in
      elim (Bool-cases (t.0 == no_child)) [
        | inl out ↦
            let gone : t.0 ≡ no_child = ground (arith, out) in
            (
              (done error_io p, t.1),
              run ∙ ap (λ r. r >>= λ r. write_halves pager t.1 p r) (fails new gone),
              inl (laws.take_rrn-NoNumber a.1 t.1 (take ∙ ap (λ n. ok (n, t.1)) gone), refl),
            )
        | inr left_over ↦
            let named : t.0 ≢ no_child = ground (arith, left_over) in
            let (q, right, promo, cut, q_rrn, right_rrn, good) = splits new keys kids named in
            let fresh : laws.page a.1 t.0 ≡ none = free_number free named in
            let fresh' : laws.page s right.rrn ≡ none =
              ap (λ n. laws.page s n) right_rrn ∙ sym (ap (λ f. f t.0) same) ∙ fresh in
            let ne : q.rrn ≢ right.rrn =
              λ e. used (ap (λ n. laws.page s n) (sym q_rrn ∙ e) ∙ fresh') in
            let (x, writes, (is_x, pages)) = write_halves-pages t.1 p q right promo ne in
            (
              x,
              run ∙ ap (λ r. r >>= λ r. write_halves pager t.1 p r) cut ∙ writes,
              inr (record {
                new = new;
                left = q;
                right = right;
                key = promo;
                is = is_x;
                pages = subst (λ f. TwoPages f (laws.page x.1) q right) (same' ∙ same) pages;
                fresh = fresh';
                same_rrn = q_rrn;
                key_room = keys;
                key_cells = cells;
                child_room = kids;
                good = good;
              }),
            )
      ]
    where
      free_number : {n : ℕ} {A : Type 0} → (n ≡ no_child) ⊎ A → n ≢ no_child → A
      free_number (inl e) ne = absurd (ne e)
      free_number (inr a) ne = a

      split_page-run :
          (s : S) (a : Option BTreeNode × S) (t : ℕ × S) (blank : BTreeNode)
          → pager.alloc s ≡ ok a
          → a.0 ≡ some blank
          → pager.take_rrn a.1 ≡ ok t
          → split_page pager order s p r_child k ≡ (
              split order p r_child k (some (record blank { rrn = t.0 })) >>= λ r.
              write_halves pager t.1 p r)
      split_page-run s a t blank alloc is take = simp (split_page, alloc, is, take)
