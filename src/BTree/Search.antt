-- ===== src/BTree/Search.antt =====
-- `search_in_btree_node` of BTree.c on a node whose keys ascend.
use Prim.Native.Nat.{Ordering, lt, eq, gt}
use gaveta.Base.{
  ℕ, zero, suc, ◌+◌, ◌≡◌, ◌≢◌, refl, sym, ◌∙◌, ap, ap₂, subst, Bool, true, false, ◌||◌, some, List,
  [], ◌∷◌, ◌++◌, append_assoc, arith, if◌then◌else◌, length, length-append, get_elem?,
  get_elem?-append_right, ◌⊎◌, inl, inr, Run, ok,
}
use gaveta.Heap.{Bytes}
use gaveta.BTree.{Key, BTreeNode, strcmp, search_from, search_in_btree_node}

-- The node holds `ks`: they stand in the first cells of its array.
pub record Holds (p : BTreeNode) (ks : List Key) : Type 0 where
  pub spare : List Key
  pub cells : p.keys ≡ ks ++ spare
  pub count : length ks ≡ p.keys_num

-- `k` is before all of `ks`.
pub data Before (k : Key) : List Key → Type 0 where
  nil : Before k []
  cons : {l : Key} {ks : List Key} → strcmp k.id l.id ≡ lt → Before k ks → Before k (l ∷ ks)

-- The keys ascend strictly, and none is the empty string.
pub data Ascending : List Key → Type 0 where
  nil : Ascending []
  cons : {k : Key} {ks : List Key} → k.id ≢ [] → Before k ks → Ascending ks → Ascending (k ∷ ks)

-- Is the comparison this one?
abbrev pub is_lt : Ordering → Bool
is_lt lt = true
is_lt eq = false
is_lt gt = false

abbrev pub is_eq : Ordering → Bool
is_eq lt = false
is_eq eq = true
is_eq gt = false

-- The specification: is there an equal key, and how many are smaller?
unfoldable pub has_key : Bytes → List Key → Bool
has_key key [] = false
has_key key (k ∷ ks) = is_eq (strcmp k.id key) || has_key key ks

unfoldable pub count_smaller : Bytes → List Key → ℕ
count_smaller key [] = 0
count_smaller key (k ∷ ks) = (if is_lt (strcmp k.id key) then 1 else 0) + count_smaller key ks

pub strcmp-eq : (s t : Bytes) → strcmp s t ≡ eq → s ≡ t
unfolding strcmp
strcmp-eq [] [] e = refl
strcmp-eq [] (b ∷ t) e = cc
strcmp-eq (a ∷ s) [] e = cc
strcmp-eq (a ∷ s) (b ∷ t) e =
    let h : a ≡ b = ground (arith, e) in
    let r : strcmp s t ≡ eq = ground (arith, e) in ap₂ (λ x xs. x ∷ xs) h (strcmp-eq s t r)

pub strcmp_refl : (s : Bytes) → strcmp s s ≡ eq
unfolding strcmp
strcmp_refl [] = refl
strcmp_refl (a ∷ s) = ground (arith, strcmp_refl s)

-- What is behind something bigger is bigger.
pub strcmp_trans : (s t u : Bytes) → strcmp s t ≡ gt → strcmp s u ≡ lt → strcmp u t ≡ gt
unfolding strcmp
strcmp_trans [] [] u g l = cc
strcmp_trans [] (b ∷ t) u g l = cc
strcmp_trans (a ∷ s) t [] g l = cc
strcmp_trans (a ∷ s) [] (c ∷ u) g l = refl
strcmp_trans (a ∷ s) (b ∷ t) (c ∷ u) g l = ground (arith, strcmp_trans s t u, g, l)

pub strcmp-swap : (s t : Bytes) → strcmp s t ≡ lt → strcmp t s ≡ gt
unfolding strcmp
strcmp-swap [] [] e = cc
strcmp-swap [] (b ∷ t) e = refl
strcmp-swap (a ∷ s) [] e = cc
strcmp-swap (a ∷ s) (b ∷ t) e = ground (arith, strcmp-swap s t, e)

pub Ordering-cases : (o : Ordering) → (o ≡ lt) ⊎ (o ≡ eq) ⊎ (o ≡ gt)
Ordering-cases lt = inl refl
Ordering-cases eq = inr (inl refl)
Ordering-cases gt = inr (inr refl)

some-cell : (xs : Bytes) → xs ≢ [] → (c : ℕ) × (id : Bytes) × (xs ≡ c ∷ id)
some-cell [] ne = absurd (ne refl)
some-cell (c ∷ id) ne = (c, id, refl)

-- What a round of the loop does on a key whose string is not empty.
abbrev next_round : Ordering → ℕ → ℕ → List Key → Bytes → Run (Bool × ℕ)
next_round lt n i keys key = search_from n (i + 1) keys key
next_round eq n i keys key = ok (true, i)
next_round gt n i keys key = ok (false, i)

search_from-round :
    (n i : ℕ) (keys : List Key) (key : Bytes) (k : Key)
    → get_elem? keys i ≡ some k
    → k.id ≢ []
    → search_from (suc n) i keys key ≡ next_round (strcmp k.id key) n i keys key
unfolding search_from
search_from-round n i keys key k at ne =
    let (c, id, is) = some-cell k.id ne in
    elim (Ordering-cases (strcmp (c ∷ id) key)) [
      | inl e ↦ ground (arith, at, is, e)
      | inr (inl e) ↦ ground (arith, at, is, e)
      | inr (inr e) ↦ ground (arith, at, is, e)
    ]

-- Smaller than the first key, then found nowhere.
pub none-after :
    (key : Bytes) (k : Key) (ks : List Key)
    → strcmp k.id key ≡ gt
    → Before k ks
    → (has_key key ks ≡ false) × (count_smaller key ks ≡ 0)
unfolding has_key count_smaller
none-after key k [] g nil = (refl, refl)
none-after key k (l ∷ ks) g (cons b before) =
    let (n, c) = none-after key k ks g before in
    let m : strcmp l.id key ≡ gt = strcmp_trans k.id key l.id g b in
    (rw m n, rw m (omega (arith, c)))

pub none-behind :
    (key : Bytes) (k : Key) (ks : List Key)
    → strcmp k.id key ≡ eq
    → Before k ks
    → count_smaller key ks ≡ 0
unfolding count_smaller
none-behind key k [] e nil = refl
none-behind key k (l ∷ ks) e (cons b before) =
    let m : strcmp l.id key ≡ gt =
      strcmp-swap key l.id (subst (λ t. strcmp t l.id ≡ lt) (strcmp-eq k.id key e) b) in
    rw m (omega (arith, none-behind key k ks e before))

-- The loop from the key behind `pre` on.
search_from-found :
    (key : Bytes) (pre ks spare : List Key) (n i : ℕ)
    → length pre ≡ i
    → length ks ≡ n
    → Ascending ks
    → search_from n i (pre ++ (ks ++ spare)) key ≡ ok (has_key key ks, i + count_smaller key ks)
unfolding search_from has_key count_smaller
search_from-found key pre [] spare zero i at len asc = ap (λ j. ok (false, j)) (omega arith)
search_from-found key pre [] spare (suc n) i at len asc = absurd (omega (arith, len))
search_from-found key pre (k ∷ ks) spare zero i at len asc = absurd (omega (arith, len))
search_from-found key pre (k ∷ ks) spare (suc n) i at len (cons some_id before asc) =
    let cell : get_elem? (pre ++ (k ∷ ks ++ spare)) i ≡ some k =
      subst (λ j. get_elem? (pre ++ (k ∷ ks ++ spare)) j ≡ some k) (omega (arith, at))
        (get_elem?-append_right pre (k ∷ ks ++ spare) 0) in
    search_from-round n i (pre ++ (k ∷ ks ++ spare)) key k cell some_id
    ∙ elim (Ordering-cases (strcmp k.id key)) [
      | inl e ↦
          let later =
            search_from-found key (pre ++ k ∷ []) ks spare n (i + 1)
              (omega (arith, length-append pre (k ∷ []), at)) (omega (arith, len)) asc in
          let shift : (i + 1) + count_smaller key ks ≡ i + (1 + count_smaller key ks) =
            omega arith in
          rw e (
            ap (λ t. search_from n (i + 1) t key) (sym (append_assoc pre (k ∷ []) (ks ++ spare)))
            ∙ later
            ∙ ap (λ j. ok (has_key key ks, j)) shift)
      | inr (inl e) ↦
          let none_left : i ≡ i + (0 + count_smaller key ks) =
            omega (arith, none-behind key k ks e before) in
          rw e (ap (λ j. ok (true, j)) none_left)
      | inr (inr e) ↦
          let (n, c) = none-after key k ks e before in
          let none_left : i ≡ i + (0 + count_smaller key ks) = omega (arith, c) in
          rw (e, n) (ap (λ j. ok (false, j)) none_left)
    ]

-- On a node with ascending keys, none of them empty, the search tells whether the key is there, and its
-- position is the number of smaller keys.
pub search_in_btree_node-count :
    {p : BTreeNode} {ks : List Key} (key : Bytes)
    → Holds p ks
    → Ascending ks
    → search_in_btree_node (some p) key ≡ ok (some (has_key key ks, count_smaller key ks))
unfolding search_in_btree_node
search_in_btree_node-count {p} {ks} key holds asc =
    let n : 0 + count_smaller key ks ≡ count_smaller key ks = omega arith in
    rw (holds.cells, search_from-found key [] ks holds.spare p.keys_num 0 refl holds.count asc)
      (ap (λ j. ok (some (has_key key ks, j))) n)
