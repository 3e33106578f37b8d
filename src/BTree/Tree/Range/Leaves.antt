-- ===== src/BTree/Tree/Range/Leaves.antt =====
-- The walk of `b_range_search` of BTree.c along a chain of leaves.
use Prim.Native.Nat.{Ordering, lt, eq, gt}
use gaveta.Base.{
  ℕ, zero, suc, ◌+◌, ◌≤◌, ◌≡◌, ◌⊎◌, ◌≢◌, refl, sym, ◌∙◌, ap, ap₂, subst, true, false, ◌&&◌, Option,
  some, List, [], ◌∷◌, ◌++◌, append_assoc, arith, ◌==◌, length, length-append, get_elem?,
  get_elem?-append_right, inl, inr, ok, Returns, Bool-cases, if◌then◌else◌,
}
use gaveta.Heap.{Bytes}
use gaveta.BTree.{Key, BTreeNode, strcmp}
use gaveta.BTree.Search.{Holds, Before, Ascending, strcmp_trans}
use gaveta.BTree.Pager.{Pager, PagerLaws}
use gaveta.BTree.Tree.{no_pos}
use gaveta.BTree.Tree.Range.{not_gt, not_lt, keys_in_range, starts_behind, leaves_in_range}

-- The records of the keys from `start` to `end`.
unfoldable pub records_in_range : (start end : Bytes) → List Key → List ℕ
records_in_range start end [] = []
records_in_range start end (k ∷ ks) =
    if not_gt (strcmp k.id end) && not_lt (strcmp k.id start)
    then k.data_register_rrn ∷ records_in_range start end ks
    else records_in_range start end ks

-- A chain of `n` leaves, and their keys.
pub data Chain (page : ℕ → Option BTreeNode) : ℕ → BTreeNode → List Key → Type 0 where
  end : {p : BTreeNode} {ks : List Key} → Holds p ks → p.next_leaf ≡ no_pos → Chain page 1 p ks
  link :
      {n : ℕ} {p q : BTreeNode} {ks rest : List Key}
      → Holds p ks
      → p.next_leaf ≢ no_pos
      → page p.next_leaf ≡ some q
      → Chain page n q rest
      → Chain page (suc n) p (ks ++ rest)

is_gt : (o : Ordering) → not_gt o ≡ false → o ≡ gt
is_gt lt e = cc
is_gt eq e = cc
is_gt gt e = refl

none-behind_end :
    (start last : Bytes) (k : Key) (ks : List Key)
    → strcmp k.id last ≡ gt
    → Before k ks
    → records_in_range start last ks ≡ []
unfolding records_in_range
none-behind_end start last k [] g b = refl
none-behind_end start last k (l ∷ ks) g (Before.cons e b) =
    rw (strcmp_trans k.id last l.id g e) (none-behind_end start last k ks g b)

records-append :
    (start last : Bytes) (ks ls : List Key)
    → records_in_range start last (ks ++ ls)
      ≡ records_in_range start last ks ++ records_in_range start last ls
unfolding records_in_range
records-append start last [] ls = refl
records-append start last (k ∷ ks) ls =
    elim (Bool-cases (not_gt (strcmp k.id last) && not_lt (strcmp k.id start))) [
      | inl yes' ↦ rw yes' (ap (λ t. k.data_register_rrn ∷ t) (records-append start last ks ls))
      | inr no' ↦ rw no' (records-append start last ks ls)
    ]

Ascending-left : (ks ls : List Key) → Ascending (ks ++ ls) → Ascending ks
Ascending-left [] ls asc = Ascending.nil
Ascending-left (k ∷ ks) ls (Ascending.cons ne b asc) =
    Ascending.cons ne (Before-left ks ls b) (Ascending-left ks ls asc)
  where
    Before-left : {k : Key} (ks ls : List Key) → Before k (ks ++ ls) → Before k ks
    Before-left [] ls b = Before.nil
    Before-left (k ∷ ks) ls (Before.cons e b) = Before.cons e (Before-left ks ls b)

pub Ascending-right : (ks ls : List Key) → Ascending (ks ++ ls) → Ascending ls
Ascending-right [] ls asc = asc
Ascending-right (k ∷ ks) ls (Ascending.cons ne b asc) = Ascending-right ks ls asc

-- Where the first key is behind the end, all are.
all-behind_end :
    (start last : Bytes) (all : List Key) (k : Key) (ks : List Key)
    → all ≡ k ∷ ks
    → strcmp k.id last ≡ gt
    → Ascending all
    → records_in_range start last all ≡ []
unfolding records_in_range
all-behind_end start last [] k ks is g asc = refl
all-behind_end start last (l ∷ all) k ks is g (Ascending.cons ne b asc) =
    let same : strcmp l.id last ≡ gt = ap (λ t. first_against t) is ∙ g in
    rw same (none-behind_end start last l all same b)
  where
    first_against : List Key → Ordering
    first_against [] = gt
    first_against (k ∷ ks) = strcmp k.id last

module _ {S : Type 0} {pager : Pager S} {order : ℕ} (laws : PagerLaws pager order)
    (start last : Bytes) where
  abbrev Lists : S → List ℕ → List ℕ × S → Type 0
  Lists s records r = (r.0 ≡ records) × (laws.page r.1 ≡ laws.page s)

  keys_in_range-records :
      (n i : ℕ) (pre ks spare : List Key) (s : S)
      → length pre ≡ i
      → length ks ≡ n
      → Ascending ks
      → Returns
          (keys_in_range pager n i (pre ++ (ks ++ spare)) start last s)
          (Lists s (records_in_range start last ks))
  unfolding keys_in_range records_in_range
  keys_in_range-records zero i pre [] spare s at len asc = (([], s), refl, (refl, refl))
  keys_in_range-records (suc n) i pre [] spare s at len asc = absurd (omega (arith, len))
  keys_in_range-records zero i pre (k ∷ ks) spare s at len asc = absurd (omega (arith, len))
  keys_in_range-records (suc n) i pre (k ∷ ks) spare s at len (Ascending.cons ne b asc) =
      let here : length pre + 0 ≡ i = omega (arith, at) in
      let cell : get_elem? (pre ++ (k ∷ ks ++ spare)) i ≡ some k =
        subst (λ j. get_elem? (pre ++ (k ∷ ks ++ spare)) j ≡ some k) here
          (get_elem?-append_right pre (k ∷ ks ++ spare) 0) in
      let next : (pre ++ k ∷ []) ++ (ks ++ spare) ≡ pre ++ (k ∷ ks ++ spare) =
        append_assoc pre (k ∷ []) (ks ++ spare) in
      let later = λ (s : S).
        subst
          (λ t.
            Returns (keys_in_range pager n (i + 1) t start last s)
              (Lists s (records_in_range start last ks)))
          next
          (keys_in_range-records n (i + 1) (pre ++ k ∷ []) ks spare s
            (omega (arith, length-append pre (k ∷ []), at)) (omega (arith, len)) asc) in
      elim (Bool-cases (not_gt (strcmp k.id last))) [
        | inr behind ↦
            let g = is_gt (strcmp k.id last) behind in
            (
              ([], s),
              rw (keys_in_range, cell, behind) refl,
              (rw behind (sym (none-behind_end start last k ks g b)), refl),
            )
        | inl within ↦ elim (Bool-cases (not_lt (strcmp k.id start))) [
          | inr before ↦
              let (r, run, (is, same)) = later s in
              (r, rw (keys_in_range, cell, within, before) run, (rw (within, before) is, same))
          | inl inside ↦
              let (s1, read, same1) = laws.read_record-page s k.data_register_rrn in
              let (r, run, (is, same)) = later s1 in
              (
                (k.data_register_rrn ∷ r.0, r.1),
                rw (keys_in_range, cell, within, inside, read, run) refl,
                (rw (within, inside) (ap (λ t. k.data_register_rrn ∷ t) is), same ∙ same1),
              )
        ]
      ]

  behind-records :
      (p : BTreeNode) (ks spare : List Key)
      → p.keys ≡ ks ++ spare
      → length ks ≡ p.keys_num
      → Ascending ks
      → ((starts_behind p last ≡ ok true)
          × (records_in_range start last ks ≡ [])
          × (k : Key) × (ls : List Key) × (ks ≡ k ∷ ls)
          × (strcmp k.id last ≡ gt))
        ⊎ (starts_behind p last ≡ ok false)
  unfolding starts_behind records_in_range
  behind-records p [] spare cells count asc =
      let none_there : (p.keys_num == 0) ≡ true = ground (arith, count) in
      inr (rw (starts_behind, none_there) refl)
  behind-records p (k ∷ ks) spare cells count (Ascending.cons ne b asc) =
      let some_there : (p.keys_num == 0) ≡ false = ground (arith, count) in
      let first : get_elem? p.keys 0 ≡ some k = ap (λ t. get_elem? t 0) cells in
      elim (Bool-cases (not_gt (strcmp k.id last))) [
        | inl within ↦ inr (simp (starts_behind, some_there, first, within))
        | inr behind ↦
            let g = is_gt (strcmp k.id last) behind in
            inl (
              simp (starts_behind, some_there, first, behind),
              rw behind (none-behind_end start last k ks g b),
              k,
              ks,
              refl,
              g,
            )
      ]

  keys-records :
      {p : BTreeNode} {ks : List Key} (s : S)
      → Holds p ks
      → Ascending ks
      → Returns
          (keys_in_range pager p.keys_num 0 p.keys start last s)
          (Lists s (records_in_range start last ks))
  keys-records {p} {ks} s holds asc =
      subst
        (λ t.
          Returns (keys_in_range pager p.keys_num 0 t start last s)
            (Lists s (records_in_range start last ks)))
        (sym holds.cells)
        (keys_in_range-records p.keys_num 0 [] ks holds.spare s refl holds.count asc)

  -- On a chain of leaves with ascending keys, the walk loads the records of exactly the keys from `start`
  -- to `end`, in order, and ends after at most as many leaves as there are.
  pub leaves_in_range-records :
      {m : ℕ} (n : ℕ) (s : S) {p : BTreeNode} {all : List Key}
      → Chain (laws.page s) m p all
      → m ≤ n
      → Ascending all
      → Returns (leaves_in_range pager n s p start last) (Lists s (records_in_range start last all))
  unfolding leaves_in_range
  leaves_in_range-records zero s (end holds last_leaf) fuel asc = absurd (omega arith)
  leaves_in_range-records zero s (link holds more_leaves at chain) fuel asc = absurd (omega arith)
  leaves_in_range-records (suc n) s {p} (end {ks = ks} holds last_leaf) fuel asc =
      let (r, run, lists) = keys-records s holds asc in
      let done : (p.next_leaf == no_pos) ≡ true = ground (arith, last_leaf) in
      elim (behind-records p ks holds.spare holds.cells holds.count asc) [
        | inl (behind, none_there, _, _, _, _) ↦
            (([], s), rw (leaves_in_range, behind) refl, (sym none_there, refl))
        | inr within ↦ (r, simp (leaves_in_range, within, run, done), lists)
      ]
  leaves_in_range-records (suc n) s {p}
        (link {n = c} {q = q} {ks = ks} {rest = rest} holds more_leaves at chain) fuel asc =
      let left = Ascending-left ks rest asc in
      elim (behind-records p ks holds.spare holds.cells holds.count left) [
        | inl (behind, none_there, k, ls, is, g) ↦ (
          ([], s),
          rw (leaves_in_range, behind) refl,
          (
            sym (
                all-behind_end start last (ks ++ rest) k (ls ++ rest) (ap (λ t. t ++ rest) is) g
                  asc),
            refl,
          ),
        )
        | inr within ↦
            let (r, run, (is, same)) = keys-records s holds left in
            let more : (p.next_leaf == no_pos) ≡ false = ground (arith, more_leaves) in
            let (l, load, (is_q, same_l)) = laws.load-page r.1 p.next_leaf in
            let chain' = subst (λ f. Chain f c q rest) (sym (same_l ∙ same)) chain in
            let (t, walk, (is_t, same_t)) =
              leaves_in_range-records n l.1 chain' (omega (arith, fuel))
                (Ascending-right ks rest asc) in
            let found : l.0 ≡ some q = is_q ∙ ap (λ f. f p.next_leaf) same ∙ at in
            (
              (r.0 ++ t.0, t.1),
              simp (leaves_in_range, within, run, more, load, found, walk),
              (
                ap₂ (λ a b. a ++ b) is is_t ∙ sym (records-append start last ks rest),
                same_t ∙ same_l ∙ same,
              ),
            )
      ]
