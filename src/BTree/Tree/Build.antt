-- ===== src/BTree/Tree/Build.antt =====
-- `build_tree_from_data_file` of src/modules/ds/BTree.c. The records are those that `fread` returns in
-- full, each with the key that `populate_key` makes of it, over operations on
-- pages that keep `PagerLaws`, which the program's own do not.
use gaveta.Base.{
  ℕ, suc, ◌+◌, ◌%◌, ◌^◌, ◌≤◌, ◌<◌, ◌≡◌, ◌≢◌, refl, sym, ◌∙◌, ap, subst, Bool, true, false, ◌||◌,
  none, List, [], ◌∷◌, ◌++◌, arith, length, ◌⊎◌, inl, inr, Run, ok, ◌>>=◌, Returns, Bool-cases,
}
use gaveta.Heap.{Bytes}
use gaveta.BTree.{Key, strcmp}
use gaveta.BTree.Search.{is_eq, is_lt, has_key, Ordering-cases}
use gaveta.BTree.Insert.{insert_key}
use gaveta.BTree.Pager.{Pager, PagerLaws, NoNumber}
use gaveta.BTree.Tree.{BTree, b_insert}
use gaveta.BTree.Tree.Trace.{Item, keys_of, seps_of}
use gaveta.BTree.Tree.Shape.{IsTree}
use gaveta.BTree.Tree.Root.{b_insert-HasKeys, new_tree-HasKeys}

module _ {S : Type 0} (pager : Pager S) where
  -- The loop: `rrn` counts the records on 16 bits, and what `b_insert` returns is not looked at. `n` is
  -- the fuel of the insertions.
  unfoldable pub build_tree_from_data_file :
      ℕ → ℕ → BTree S → (rrn : ℕ) → List Bytes → Run (BTree S)
  build_tree_from_data_file n order b rrn [] = ok b
  build_tree_from_data_file n order b rrn (id ∷ ids) =
      b_insert pager n order b (record { id = id; data_register_rrn = rrn }) >>= λ r.
      build_tree_from_data_file n order r.1 ((rrn + 1) % 2 ^ 16) ids

-- The keys of the records, in order.
unfoldable pub sorted_keys : ℕ → List Bytes → List Key → List Key
sorted_keys rrn [] ks = ks
sorted_keys rrn (id ∷ ids) ks =
    sorted_keys ((rrn + 1) % 2 ^ 16) ids
      (insert_key (record { id = id; data_register_rrn = rrn }) ks)

-- The strings are not empty, and are no keys of `ks` nor of one another; `rrn` is the number of the first
-- record.
pub data New : ℕ → List Key → List Bytes → Type 0 where
  nil : {rrn : ℕ} {ks : List Key} → New rrn ks []
  cons :
      {rrn : ℕ} {ks : List Key} {id : Bytes} {ids : List Bytes}
      → id ≢ []
      → has_key id ks ≡ false
      → New ((rrn + 1) % 2 ^ 16) (insert_key (record { id = id; data_register_rrn = rrn }) ks) ids
      → New rrn ks (id ∷ ids)

has_key-insert_key :
    (id : Bytes) (k : Key) (ks : List Key)
    → has_key id (insert_key k ks) ≡ is_eq (strcmp k.id id) || has_key id ks
unfolding has_key insert_key
has_key-insert_key id k [] = refl
has_key-insert_key id k (l ∷ ks) = elim (Ordering-cases (strcmp l.id k.id)) [
  | inl o ↦ rw (o, is_lt) (ground (arith, has_key-insert_key id k ks))
  | inr (inl o) ↦ rw (o, is_lt) refl
  | inr (inr o) ↦ rw (o, is_lt) refl
]

or_true : (b : Bool) {c : Bool} → c ≡ true → b || c ≡ true
or_true true e = refl
or_true false e = e

no_key : (id : Bytes) → ¬ (has_key id [] ≡ true)
unfolding has_key
no_key id e = cc

module _ {S : Type 0} {pager : Pager S} {order : ℕ} (laws : PagerLaws pager order) (two : 2 ≤ order)
    (byte : order < 256) where
  -- The state of the loop: a tree with these keys, of which separators are some.
  pub record Built (b : BTree S) (most : ℕ) (ks : List Key) : Type 0 where
    pub depth : ℕ
    pub shallow : depth ≤ most
    pub trace : List Item
    pub tree : IsTree order laws.page b depth trace
    pub keys_are : keys_of trace ≡ ks
    pub seps_are : (id : Bytes) → has_key id (seps_of trace) ≡ true → has_key id ks ≡ true

  -- The records up to one of these have used up the record numbers of the index.
  abbrev pub Filled : ℕ → BTree S → ℕ → List Bytes → Type 0
  Filled n b rrn ids =
      (front back : List Bytes) × (ids ≡ front ++ back)
      × Returns (build_tree_from_data_file pager n order b rrn front) λ c. NoNumber pager c.store

  Built-next :
      {b : BTree S} {most : ℕ} {ks : List Key} (n : ℕ) (k : Key)
      → Built b most ks
      → most < n
      → k.id ≢ []
      → has_key k.id ks ≡ false
      → Returns
          (b_insert pager n order b k)
          λ r. NoNumber pager r.1.store ⊎ Built r.1 (suc most) (insert_key k ks)
  Built-next {ks} n k built fuel some_id new =
      let keys = built.keys_are in
      let fresh : has_key k.id (seps_of built.trace) ≡ false =
        elim (Bool-cases (has_key k.id (seps_of built.trace))) [
          | inl hit ↦ absurd (let c = sym (built.seps_are k.id hit) ∙ new in cc)
          | inr miss ↦ miss
        ] in
      let (r, run, end) =
        b_insert-HasKeys laws two byte n k built.tree (omega (arith, built.shallow, fuel)) some_id
          (ap (λ l. has_key k.id l) keys ∙ new) fresh in
      (
        r,
        run,
        (elim end [
          | inl gone ↦ inl gone
          | inr (_, h) ↦ inr (record {
            depth = h.depth;
            shallow = omega (arith, h.shallow, built.shallow);
            trace = h.trace;
            tree = h.tree;
            keys_are = h.keys_are ∙ ap (λ l. insert_key k l) keys;
            seps_are = λ id hit. elim (h.seps_are id hit) [
              | inl old ↦
                  has_key-insert_key id k ks
                  ∙ or_true (is_eq (strcmp k.id id)) (built.seps_are id old)
              | inr here ↦ ap (λ l. has_key id (insert_key k l)) (sym keys) ∙ here
            ];
          })
        ]),
      )

  Built-first :
      (b : BTree S) (n : ℕ) (k : Key)
      → b.root ≡ none
      → k.id ≢ []
      → Returns (b_insert pager n order b k) λ r. NoNumber pager r.1.store ⊎ Built r.1 0 (k ∷ [])
  Built-first b n k empty some_id =
      let (r, run, end) = new_tree-HasKeys laws two byte b n k empty some_id in
      (
        r,
        run,
        (elim end [
          | inl gone ↦ inl gone
          | inr (_, h) ↦ inr (record {
            depth = h.depth;
            shallow = h.shallow;
            trace = h.trace;
            tree = h.tree;
            keys_are = h.keys_are;
            seps_are = λ id hit. elim (h.seps_are id hit) [
              | inl old ↦ absurd (no_key id old)
              | inr here ↦ here
            ];
          })
        ]),
      )

  build-more :
      (n : ℕ) (b : BTree S) (rrn most : ℕ) (ks : List Key) (ids : List Bytes)
      → Built b most ks
      → New rrn ks ids
      → most + length ids ≤ n
      → Filled n b rrn ids
        ⊎ Returns
            (build_tree_from_data_file pager n order b rrn ids)
            λ c. Built c (most + length ids) (sorted_keys rrn ids ks)
  unfolding build_tree_from_data_file sorted_keys
  build-more n b rrn most ks [] built new fuel =
      let e : most ≡ most + 0 = omega arith in inr (b, refl, subst (λ m. Built b m ks) e built)
  build-more n b rrn most ks (id ∷ ids) built (New.cons some_id fresh new) fuel =
      let k : Key = record { id = id; data_register_rrn = rrn } in
      let (r, run, end) = Built-next n k built (omega (arith, fuel)) some_id fresh in
      elim end [
        | inl gone ↦ inl (id ∷ [], ids, refl, (r.1, rw run refl, gone))
        | inr built' ↦
            elim (build-more n r.1 ((rrn + 1) % 2 ^ 16) (suc most) (insert_key k ks) ids built' new
              (omega (arith, fuel))) [
                | inl (front, back, is, (c, rest, gone)) ↦
                    inl (id ∷ front, back, ap (λ l. id ∷ l) is, (c, rw run rest, gone))
                | inr (c, rest, last) ↦
                    let e : suc most + length ids ≡ most + suc (length ids) = omega arith in
                    inr (
                      c,
                      rw run rest,
                      subst
                          (λ m. Built c m (sorted_keys ((rrn + 1) % 2 ^ 16) ids (insert_key k ks)))
                          e last,
                    )
              ]
      ]

  -- From an empty B-tree and records with keys that are not empty and all different, the loop builds a
  -- search tree with exactly these keys, each with the number of its record, in order; its depth is less
  -- than the number of records; or some of the records, from the first on, use up the record numbers that
  -- the index has for nodes. The order is from 2 to 255.
  pub build_tree_from_data_file-Built :
      (n : ℕ) (b : BTree S) (id : Bytes) (ids : List Bytes)
      → b.root ≡ none
      → New 0 [] (id ∷ ids)
      → length ids ≤ n
      → Filled n b 0 (id ∷ ids)
        ⊎ Returns
            (build_tree_from_data_file pager n order b 0 (id ∷ ids))
            λ c. Built c (length ids) (sorted_keys 0 (id ∷ ids) [])
  unfolding build_tree_from_data_file sorted_keys insert_key
  build_tree_from_data_file-Built n b id ids empty (New.cons some_id fresh new) fuel =
      let k : Key = record { id = id; data_register_rrn = 0 } in
      let (r, run, end) = Built-first b n k empty some_id in
      elim end [
        | inl gone ↦ inl (id ∷ [], ids, refl, (r.1, rw run refl, gone))
        | inr built ↦ elim (build-more n r.1 1 0 (k ∷ []) ids built new (omega (arith, fuel))) [
          | inl (front, back, is, (c, rest, gone)) ↦
              inl (id ∷ front, back, ap (λ l. id ∷ l) is, (c, rw run rest, gone))
          | inr (c, rest, last) ↦
              let e : 0 + length ids ≡ length ids = omega arith in
              inr (c, rw run rest, subst (λ m. Built c m (sorted_keys 1 ids (k ∷ []))) e last)
        ]
      ]
