-- ===== src/Queue/Fifo.antt =====
-- What a client sees of GenericQueue.c: a FIFO queue of byte strings.
use gaveta.Base.{
  ℕ, ◌≤◌, ◌≡◌, sym, ◌∙◌, ap, subst, Bool, true, false, Option, none, some, List, [], ◌∷◌, ◌++◌, map,
  map-append, length, take, ok, ok-injective,
}
use gaveta.Heap.{Ptr, Bytes, Heap, Fresh}
use gaveta.Heap.Seg.{Entry}
use gaveta.Queue.{Node, IsQueue, push_gq, pop_gq}
use gaveta.Queue.Push.{IsFresh, push_gq-IsQueue}
use gaveta.Queue.Pop.{pop_gq-cons, pop_gq-nil}

-- A call and what it returns: the bytes that a push stores, or those that a pop copies out.
pub data Reply : Type 0 where
  pushed : Bool → Bytes → Reply
  popped : Bool → Option Bytes → Reply

-- The calls of a client on one queue, each in the heap that the one before has left. What a push is
-- given by `g_alloc` is unused at that time.
pub data Calls (l : Ptr) (size : ℕ) : Heap Node → List Reply → Heap Node → Type 0 where
  done : {h : Heap Node} → Calls l size h [] h
  push :
      {h g k : Heap Node} {b : Bool} {rs : List Reply} (fresh : Fresh) (src : Bytes)
      → IsFresh h fresh
      → size ≤ length src
      → push_gq fresh (some l) (some src) h ≡ ok (b, g)
      → Calls l size g rs k
      → Calls l size h (pushed b (take size src) ∷ rs) k
  pop :
      {h g k : Heap Node} {b : Bool} {out : Option Bytes} {rs : List Reply}
      → pop_gq (some l) true h ≡ ok ((b, out), g)
      → Calls l size g rs k
      → Calls l size h (popped b out ∷ rs) k

-- The specification: a list of byte strings, the oldest first.
pub data Fifo : List Bytes → List Reply → List Bytes → Type 0 where
  done : {q : List Bytes} → Fifo q [] q
  push :
      {q r : List Bytes} {rs : List Reply} (b : Bytes)
      → Fifo (q ++ b ∷ []) rs r
      → Fifo q (pushed true b ∷ rs) r
  pop :
      {q r : List Bytes} {b : Bytes} {rs : List Reply}
      → Fifo q rs r
      → Fifo (b ∷ q) (popped true (some b) ∷ rs) r
  pop_empty : {r : List Bytes} {rs : List Reply} → Fifo [] rs r → Fifo [] (popped false none ∷ rs) r

abbrev pub contents : List Entry → List Bytes
contents xs = map (λ (e : Entry). e.2) xs

abbrev Refines : Ptr → ℕ → List Bytes → List Reply → Heap Node → Type 0
Refines l size q rs k = (ys : List Entry) × IsQueue k l size ys × Fifo q rs (contents ys)

push-Refines :
    {l : Ptr} {size : ℕ} {k : Heap Node} {rs : List Reply} {b : Bool} (xs : List Entry)
    (new : Entry)
    → b ≡ true
    → Refines l size (contents (xs ++ new ∷ [])) rs k
    → Refines l size (contents xs) (pushed b new.2 ∷ rs) k
push-Refines {rs} xs (p, d, c) true_b (ys, is, spec) = (
  ys,
  is,
  rw true_b (
      push c (
        subst (λ q. Fifo q rs (contents ys)) (map-append (λ (e : Entry). e.2) xs ((p, d, c) ∷ []))
          spec)),
)

cong_pair : {p : Bool × Option Bytes} {b : Bool} {o : Option Bytes} → p.0 ≡ b → p.1 ≡ o → p ≡ (b, o)
cong_pair e f = λ i. (e i, f i)

pop-Refines :
    {l : Ptr} {size : ℕ} {k : Heap Node} {rs : List Reply} {r : Bool × Option Bytes} (x : Entry)
    (xs : List Entry)
    → r ≡ (true, some x.2)
    → Refines l size (contents xs) rs k
    → Refines l size (contents (x ∷ xs)) (popped r.0 r.1 ∷ rs) k
pop-Refines x xs e (ys, is, spec) = (ys, is, rw e (pop spec))

pop_empty-Refines :
    {l : Ptr} {size : ℕ} {k : Heap Node} {rs : List Reply} {r : Bool × Option Bytes}
    → r ≡ (false, none)
    → Refines l size [] rs k
    → Refines l size [] (popped r.0 r.1 ∷ rs) k
pop_empty-Refines e (ys, is, spec) = (ys, is, rw e (pop_empty spec))

-- Any pushes, each given fresh addresses and a source of `size` bytes, and any pops on a queue answer
-- as the FIFO queue of its contents does, every push with success, and leave a queue that holds what
-- that queue holds.
pub Calls-Fifo :
    {l : Ptr} {size : ℕ} {h k : Heap Node} {rs : List Reply} (xs : List Entry)
    → IsQueue h l size xs
    → Calls l size h rs k
    → (ys : List Entry) × IsQueue k l size ys × Fifo (contents xs) rs (contents ys)
Calls-Fifo xs is done = (xs, is, done)
Calls-Fifo {l} {size} {h} xs is (push {b = b} fresh src f long run rest) =
    let new : Entry = (fresh.node, fresh.dat, take size src) in
    let (r, run', (t, is')) = push_gq-IsQueue fresh src xs is f long in
    let same : r ≡ (b, _) = ok-injective (sym run' ∙ run) in
    push-Refines xs new (sym (ap (λ (r : Bool × Heap Node). r.0) same) ∙ t) (
      Calls-Fifo (xs ++ new ∷ [])
        (subst (λ (r : Bool × Heap Node). IsQueue r.1 l size (xs ++ new ∷ [])) same is') rest)
Calls-Fifo {l} {size} [] is (pop {b = b} {out = out} run rest) =
    let same : ((false, none), _) ≡ ((b, out), _) = ok-injective (sym (pop_gq-nil true is) ∙ run) in
    pop_empty-Refines (sym (ap (λ (r : (Bool × Option Bytes) × Heap Node). r.0) same)) (
      Calls-Fifo []
        (subst (λ (r : (Bool × Option Bytes) × Heap Node). IsQueue r.1 l size []) same is) rest)
Calls-Fifo {l} {size} (x ∷ xs) is (pop {b = b} {out = out} run rest) =
    let (r, run', (t, o, is', _)) = pop_gq-cons true is in
    let same : r ≡ ((b, out), _) = ok-injective (sym run' ∙ run) in
    pop-Refines x xs
      (sym (ap (λ (r : (Bool × Option Bytes) × Heap Node). r.0) same) ∙ cong_pair t o)
      (Calls-Fifo xs
        (subst (λ (r : (Bool × Option Bytes) × Heap Node). IsQueue r.1 l size xs) same is') rest)
