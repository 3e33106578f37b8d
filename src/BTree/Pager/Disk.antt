-- ===== src/BTree/Pager/Disk.antt =====
-- A page file that keeps the laws of a `Pager`: each record number has a node or none, and the first
-- number without a node is the next free one.
use gaveta.Base.{
  ℕ, zero, suc, ◌+◌, ◌<◌, ◌≡◌, refl, true, false, Option, none, some, arith, ◌==◌, if◌then◌else◌,
  length-replicate, replicate, ◌⊎◌, inl, inr, Option-cases, subst, sym, ◌∙◌, ap, ok-injective,
  Bool-cases, ◌≤◌, ok,
}
use gaveta.BTree.{BTreeNode}
use gaveta.BTree.Split.{zero_key, no_child}
use gaveta.BTree.Pager.{Pager, PagerLaws, NoNumber}

abbrev pub Disk : Type 0
Disk = ℕ → Option BTreeNode

-- The first free number from `r` on, `n` of them tried.
unfoldable pub first_free : ℕ → ℕ → Disk → ℕ
first_free zero r disk = no_child
first_free (suc n) r disk = elim (disk r) [ none ↦ r | some p ↦ first_free n (r + 1) disk ]

abbrev pub put_page : BTreeNode → Disk → Disk
put_page p disk = λ r. if r == p.rrn then some p else disk r

abbrev pub blank_node : ℕ → BTreeNode
blank_node order = record {
  keys = replicate order zero_key;
  rrn = 0;
  children = replicate (order + 1) no_child;
  next_leaf = no_child;
  child_num = 0;
  keys_num = 0;
  leaf = true;
}

abbrev pub disk_pager : ℕ → Pager Disk
disk_pager order = record {
  load = λ disk rrn. ok (disk rrn, disk);
  release = λ disk p. ok disk;
  write = λ disk p. ok (true, put_page p disk);
  alloc = λ disk. ok (some (blank_node order), disk);
  take_rrn = λ disk. ok (first_free 1000 0 disk, disk);
  give_rrn = λ disk rrn. ok disk;
  erase = λ disk rrn. ok (true, disk);
  read_record = λ disk rrn. ok disk;
}

pub first_free-free :
    (n r : ℕ) (disk : Disk) → (first_free n r disk ≡ no_child) ⊎ (disk (first_free n r disk) ≡ none)
unfolding first_free
first_free-free zero r disk = inl refl
first_free-free (suc n) r disk = elim (Option-cases (disk r)) [
  | inl e ↦ subst (λ t. (t ≡ no_child) ⊎ (disk t ≡ none)) (sym (now e)) (inr e)
  | inr (p, e) ↦
      subst (λ t. (t ≡ no_child) ⊎ (disk t ≡ none)) (sym (later p e))
        (first_free-free n (r + 1) disk)
]
  where
    now : disk r ≡ none → first_free (suc n) r disk ≡ r
    now e = rw (first_free, e) refl

    later :
        (p : BTreeNode) → disk r ≡ some p → first_free (suc n) r disk ≡ first_free n (r + 1) disk
    later p e = rw (first_free, e) refl

-- A disk that is full stays full.
pub first_free-full :
    (n r : ℕ) (p : BTreeNode) (disk : Disk)
    → r + n ≤ no_child
    → first_free n r disk ≡ no_child
    → first_free n r (put_page p disk) ≡ no_child
unfolding first_free
first_free-full zero r p disk few full = refl
first_free-full (suc n) r p disk few full = elim (Option-cases (disk r)) [
  | inl e ↦
      let now : first_free (suc n) r disk ≡ r = rw (first_free, e) refl in
      absurd (omega (arith, few, sym now ∙ full))
  | inr (q, e) ↦
      let later : first_free (suc n) r disk ≡ first_free n (r + 1) disk = rw (first_free, e) refl in
      let rest = first_free-full n (r + 1) p disk (omega (arith, few)) (sym later ∙ full) in
      elim (Bool-cases (r == p.rrn)) [
        | inl here ↦ rw (first_free, here) rest
        | inr there ↦ rw (first_free, there, e) rest
      ]
]

abbrev pub disk_laws : (order : ℕ) → order < 65536 → PagerLaws (disk_pager order) order
disk_laws order small = record {
  page = λ disk. disk;
  load-page = λ s rrn. ((s rrn, s), refl, (refl, refl));
  release-page = λ s p. (s, refl, refl);
  write-page = λ s p. (
    (true, put_page p s),
    refl,
    (
      refl,
      (let here : (p.rrn == p.rrn) ≡ true = ground arith in rw here refl),
      λ r ne. let there : (r == p.rrn) ≡ false = ground (arith, ne) in rw there refl,
    ),
  );
  alloc-page = λ s. (
    (some (blank_node order), s),
    refl,
    (
      blank_node order,
      refl,
      omega (arith, length-replicate order zero_key),
      omega (arith, length-replicate order zero_key, small),
      omega (arith, length-replicate (order + 1) no_child),
      refl,
      refl,
      refl,
      refl,
    ),
  );
  take_rrn-page = λ s. ((first_free 1000 0 s, s), refl, (first_free-free 1000 0 s, refl));
  take_rrn-NoNumber = λ s s' e.
      subst (λ t. NoNumber (disk_pager order) t) (ap (λ r. r.1) (ok-injective e))
        (s, e ∙ ap (λ t. ok (no_child, t)) (sym (ap (λ r. r.1) (ok-injective e))));
  release-NoNumber =
      λ s s' p e gone. subst (λ t. NoNumber (disk_pager order) t) (ok-injective e) gone;
  write-NoNumber = λ s p w e gone.
      subst (λ t. NoNumber (disk_pager order) t.1) (ok-injective e)
        (
          put_page p s,
          ap (λ n. ok (n, put_page p s))
              (first_free-full 1000 0 p s (omega arith) (ap (λ r. r.0) (ok-injective gone.1))),
        );
  give_rrn-page = λ s rrn. (s, refl, refl);
  erase-page = λ s rrn. ((true, s), refl, refl);
  read_record-page = λ s rrn. (s, refl, refl);
}
