-- ===== src/Queue/Tests.antt =====
-- A queue of entries of 4 bytes: 10, and then 20.
use gaveta.Base.{
  ◌≡◌, refl, Bool, true, false, Option, none, some, List, [], ◌∷◌, ◌++◌, arith, ◌==◌, ok, Returns,
}
use gaveta.Heap.{
  Ptr, Bytes, Heap, Fresh, write, load, load_block, store, free_node, free_block, deref,
}
use gaveta.Heap.Seg.{Entry, nil, cons}
use gaveta.Queue.{
  search_gq, Node, IsQueue, is_gq_empty, push_gq, push_at, create_generic_queue_entry, save, pop_at,
  pop_gq,
}
use gaveta.Queue.Push.{IsFresh, push_gq-IsQueue}
use gaveta.Queue.Pop.{Removed, pop_gq-cons}
use gaveta.Queue.Walk.{find, search_gq-find}
use gaveta.Queue.Fifo.{Reply, pushed, popped, Calls, Fifo, contents, Calls-Fifo}

abbrev ten : Bytes
ten = 10 ∷ 0 ∷ 0 ∷ 0 ∷ []

abbrev twenty : Bytes
twenty = 20 ∷ 0 ∷ 0 ∷ 0 ∷ []

abbrev thirty : Bytes
thirty = 30 ∷ 0 ∷ 0 ∷ 0 ∷ []

abbrev same : Bytes → Bytes → Bool
same (a ∷ r) (b ∷ t) = a == b
same r t = false

abbrev node : Ptr → Ptr → Ptr → Option Node
node d q t = some (record { dat = d; data_size = 4; next = q; tail = t })

abbrev bare : Heap Node
bare = record { cells = λ a. none; blocks = λ a. none }

abbrev sample : Heap Node
sample = record {
  cells = write (write (write (λ a. none) 1 (node 0 2 3)) 2 (node 7 3 0)) 3 (node 8 0 0);
  blocks = write (write (λ a. none) 7 (some ten)) 8 (some twenty);
}

abbrev entries : List Entry
entries = (2, 7, ten) ∷ (3, 8, twenty) ∷ []

abbrev empty : Heap Node
empty = record { cells = write (λ a. none) 1 (node 0 0 1); blocks = λ a. none }

abbrev fresh : Fresh
fresh = record { node = 5; dat = 9 }

sample-IsQueue : IsQueue sample 1 4 entries
sample-IsQueue = record {
  sentinel = record { dat = 0; data_size = 4; next = 2; tail = 3 };
  ne_null = omega arith;
  holds = refl;
  sized = refl;
  last = refl;
  apart = refl;
  chain =
      cons
        (record {
          node = record { dat = 7; data_size = 4; next = 3; tail = 0 };
          ne_null = omega arith;
          holds = refl;
          links = refl;
          block_ne_null = omega arith;
          block = refl;
          sized = refl;
        })
        refl refl
        (cons
          (record {
            node = record { dat = 8; data_size = 4; next = 0; tail = 0 };
            ne_null = omega arith;
            holds = refl;
            links = refl;
            block_ne_null = omega arith;
            block = refl;
            sized = refl;
          })
          refl refl nil);
}

empty-IsQueue : IsQueue empty 1 4 []
empty-IsQueue = record {
  sentinel = record { dat = 0; data_size = 4; next = 0; tail = 1 };
  ne_null = omega arith;
  holds = refl;
  sized = refl;
  last = refl;
  apart = refl;
  chain = nil;
}

fresh-IsFresh : IsFresh sample fresh
fresh-IsFresh = record {
  node_ne = omega arith;
  dat_ne = omega arith;
  node_free = refl;
  dat_free = refl;
}

-- A push on a NULL queue says no.
push_null : push_gq fresh (some 0) (some ten) sample ≡ ok (false, sample)
unfolding push_gq
push_null = refl

push_gq-IsQueue_example :
    Returns
      (push_gq fresh (some 1) (some thirty) sample)
      λ (r : Bool × Heap Node). (r.0 ≡ true) × IsQueue r.1 1 4 (entries ++ (5, 9, thirty) ∷ [])
push_gq-IsQueue_example =
    push_gq-IsQueue fresh thirty entries sample-IsQueue fresh-IsFresh (omega arith)

pop_gq-cons_example :
    Returns
      (pop_gq (some 1) true sample)
      (Removed 1 4 true (2, 7, ten) ((3, 8, twenty) ∷ []) sample)
pop_gq-cons_example = pop_gq-cons true sample-IsQueue

abbrev one_left : Heap Node
one_left = record {
  cells = write (write sample.cells 1 (node 0 3 3)) 2 none;
  blocks = write sample.blocks 7 none;
}

-- A pop of `sample`, then a push.
abbrev two_calls : List Reply
two_calls = popped true (some ten) ∷ pushed true thirty ∷ []

abbrev after_push : Heap Node
after_push = record {
  cells = write (write (write one_left.cells 5 (node 9 0 0)) 3 (node 8 5 0)) 1 (node 0 3 5);
  blocks = write one_left.blocks 9 (some thirty);
}

run-Calls : Calls 1 4 sample two_calls after_push
unfolding pop_gq is_gq_empty deref load pop_at save load_block store free_block free_node push_gq
    push_at create_generic_queue_entry
run-Calls = Calls.pop refl (
    Calls.push fresh thirty
      (record { node_ne = omega arith; dat_ne = omega arith; node_free = refl; dat_free = refl })
      (omega arith) refl Calls.done)

Calls-Fifo_example :
    (ys : List Entry) × IsQueue after_push 1 4 ys × Fifo (contents entries) two_calls (contents ys)
Calls-Fifo_example = Calls-Fifo entries sample-IsQueue run-Calls

search_gq-find_example :
    search_gq 3 (some 1) twenty (some same) sample ≡ ok (find same twenty entries, sample)
search_gq-find_example = search_gq-find 3 same twenty entries sample-IsQueue (omega arith)
