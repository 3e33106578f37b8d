-- ===== src/BTree/FreeRrn/Tests.antt =====
-- A list with one free record number, 258.
use gaveta.Base.{ℕ, ◌≡◌, refl, Option, none, some, [], ◌∷◌, arith, Returns}
use gaveta.Heap.{Ptr, Bytes, Heap, write}
use gaveta.Heap.Seg.{nil, cons}
use gaveta.LinkedList.{Node, IsList}
use gaveta.BTree.FreeRrn.{to_rrn, taken, get_free_rrn, get_free_rrn-taken}

abbrev free_258 : Bytes
free_258 = 2 ∷ 1 ∷ 0 ∷ 0 ∷ []

abbrev node : Ptr → Ptr → Option Node
node d q = some (record { dat = d; data_size = 4; next = q })

abbrev sample : Heap Node
sample = record {
  cells = write (write (λ a. none) 1 (node 0 2)) 2 (node 7 0);
  blocks = write (λ a. none) 7 (some free_258);
}

sample-IsList : IsList sample 1 4 ((2, 7, free_258) ∷ [])
sample-IsList = record {
  sentinel = record { dat = 0; data_size = 4; next = 2 };
  ne_null = omega arith;
  holds = refl;
  sized = refl;
  apart = refl;
  chain =
      cons
        (record {
          node = record { dat = 7; data_size = 4; next = 0 };
          ne_null = omega arith;
          holds = refl;
          links = refl;
          block_ne_null = omega arith;
          block = refl;
          sized = refl;
        })
        refl refl nil;
}

get_free_rrn-taken_example :
    Returns (get_free_rrn 1 1 sample) λ (r : ℕ × Heap Node). (r.0 ≡ 258) × IsList r.1 1 4 []
unfolding taken to_rrn
get_free_rrn-taken_example =
    get_free_rrn-taken 1 ((2, 7, free_258) ∷ []) sample-IsList (omega arith)
