-- ===== src/LinkedList/Tests.antt =====
-- The list of test/test_generic_list.c: entries of 4 bytes, with 10 and then 20 inserted.
use gaveta.Base.{
  ◌≡◌, refl, Bool, true, false, Option, none, some, List, [], ◌∷◌, arith, ◌==◌, fault, Returns,
}
use gaveta.Heap.{Ptr, Bytes, Heap, Fresh, write, load, deref}
use gaveta.Heap.Seg.{Entry, nil, cons}
use gaveta.LinkedList.{
  Node, IsList, create_ll_node, is_ll_empty, insert_at, insert_ll, remove_ll, clear_ll,
}
use gaveta.LinkedList.Insert.{IsFresh, insert_ll-IsList}
use gaveta.LinkedList.Remove.{Removed, remove_ll-cons, Cleared, clear_ll-Cleared}

abbrev ten : Bytes
ten = 10 ∷ 0 ∷ 0 ∷ 0 ∷ []

abbrev twenty : Bytes
twenty = 20 ∷ 0 ∷ 0 ∷ 0 ∷ []

abbrev same : Bytes → Bytes → Bool
same (a ∷ r) (b ∷ t) = a == b
same r t = false

abbrev node : Ptr → Ptr → Option Node
node d q = some (record { dat = d; data_size = 4; next = q })

abbrev bare : Heap Node
bare = record { cells = λ a. none; blocks = λ a. none }

abbrev sample : Heap Node
sample = record {
  cells = write (write (write (λ a. none) 1 (node 0 3)) 2 (node 7 0)) 3 (node 8 2);
  blocks = write (write (λ a. none) 7 (some ten)) 8 (some twenty);
}

abbrev entries : List Entry
entries = (3, 8, twenty) ∷ (2, 7, ten) ∷ []

abbrev empty : Heap Node
empty = record { cells = write (λ a. none) 1 (node 0 0); blocks = λ a. none }

abbrev fresh : Fresh
fresh = record { node = 5; dat = 9 }

sample-IsList : IsList sample 1 4 entries
sample-IsList = record {
  sentinel = record { dat = 0; data_size = 4; next = 3 };
  ne_null = omega arith;
  holds = refl;
  sized = refl;
  apart = refl;
  chain =
      cons
        (record {
          node = record { dat = 8; data_size = 4; next = 2 };
          ne_null = omega arith;
          holds = refl;
          links = refl;
          block_ne_null = omega arith;
          block = refl;
          sized = refl;
        })
        refl refl
        (cons
          (record {
            node = record { dat = 7; data_size = 4; next = 0 };
            ne_null = omega arith;
            holds = refl;
            links = refl;
            block_ne_null = omega arith;
            block = refl;
            sized = refl;
          })
          refl refl nil);
}

empty-IsList : IsList empty 1 4 []
empty-IsList = record {
  sentinel = record { dat = 0; data_size = 4; next = 0 };
  ne_null = omega arith;
  holds = refl;
  sized = refl;
  apart = refl;
  chain = nil;
}

fresh-IsFresh : IsFresh sample fresh
fresh-IsFresh = record {
  node_ne = omega arith;
  dat_ne = omega arith;
  node_free = refl;
  dat_free = refl;
}

-- An insertion through a NULL block of a failed `g_alloc` is a fault, not a `false`.
insert_fault : insert_ll (record { node = 0; dat = 9 }) (some 1) (some ten) sample ≡ fault
unfolding insert_ll insert_at create_ll_node load
insert_fault = refl

-- `is_ll_empty` after `clear_ll`, as in the test, reads the freed sentinel.
empty_after_clear : is_ll_empty (some 1) bare ≡ fault
unfolding is_ll_empty deref load
empty_after_clear = refl

insert_ll-IsList_example :
    Returns
      (insert_ll fresh (some 1) (some (30 ∷ 0 ∷ 0 ∷ 0 ∷ 1 ∷ [])) sample)
      λ (r : Bool × Heap Node).
        (r.0 ≡ true) × IsList r.1 1 4 ((5, 9, 30 ∷ 0 ∷ 0 ∷ 0 ∷ []) ∷ entries)
insert_ll-IsList_example =
    insert_ll-IsList fresh (30 ∷ 0 ∷ 0 ∷ 0 ∷ 1 ∷ []) sample-IsList fresh-IsFresh (omega arith)

remove_ll-cons_example :
    Returns
      (remove_ll (some 1) true sample)
      (Removed 1 4 true (3, 8, twenty) ((2, 7, ten) ∷ []) sample)
remove_ll-cons_example = remove_ll-cons true sample-IsList

clear_ll-Cleared_example :
    Returns
      (clear_ll 3 (some 1) sample)
      λ (r : Bool × Heap Node). (r.0 ≡ true) × (r.1.cells 1 ≡ none) × Cleared entries 1 sample r.1
clear_ll-Cleared_example = clear_ll-Cleared 3 entries sample-IsList (omega arith)
