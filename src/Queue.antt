-- ===== src/Queue.antt =====
-- src/modules/ds/GenericQueue.c: a FIFO queue behind a sentinel, which also points at the last node. A
-- `GenericQueue **gq` is an `Option Ptr`: `none` is NULL, and `some l` points to a variable that holds
-- `l`. The loops run on fuel. Printing and reading from a file are left out.
pub mod Push
pub mod Pop
pub mod Walk
pub mod Fifo
mod Tests
use gaveta.Base.{
  ℕ, zero, suc, ◌+◌, ◌≡◌, ◌≢◌, Bool, true, false, not, Option, none, some, List, [], ◌∷◌, ◌++◌,
  ◌==◌, if◌then◌else◌, unfinished,
}
use gaveta.Heap.{
  Ptr, null, Bytes, Heap, Fresh, Cmd, pure, failed, ◌>>=◌, ◌>>◌, put, put_block, load, load_block,
  store, free_node, free_block, copied, deref,
}
use gaveta.Heap.Seg.{Link, Entry, Seg, has_node}

pub record Node : Type 0 where
  pub dat : Ptr
  pub data_size : ℕ
  pub next : Ptr
  pub tail : Ptr

abbrev pub link : Node → Link
link n = record { dat = n.dat; data_size = n.data_size; next = n.next }

-- The address of the last node: the sentinel's own on an empty queue.
abbrev pub last_of : Ptr → List Entry → Ptr
last_of l [] = l
last_of l (x ∷ xs) = last_of x.0 xs

-- The queue behind the sentinel at `l`, for entries of `size` bytes, the oldest first.
pub record IsQueue (h : Heap Node) (l : Ptr) (size : ℕ) (xs : List Entry) : Type 0 where
  pub sentinel : Node
  pub ne_null : l ≢ null
  pub holds : h.cells l ≡ some sentinel
  pub sized : sentinel.data_size ≡ size
  pub last : sentinel.tail ≡ last_of l xs
  pub apart : has_node l xs ≡ false
  pub chain : Seg link h size null sentinel.next xs

pub create_generic_queue_entry : Fresh → Option Bytes → ℕ → Cmd Node Ptr
create_generic_queue_entry fresh none size = if fresh.node == null then failed else do
  put fresh.node (some (record { dat = null; data_size = size; next = null; tail = null }))
  pure (fresh.node)
create_generic_queue_entry fresh (some src) size =
    if fresh.node == null then failed else if fresh.dat == null then failed else do
      b ← copied size src
      put fresh.node (some (record { dat = fresh.dat; data_size = size; next = null; tail = null }))
      put_block fresh.dat (some b)
      pure (fresh.node)

-- The new value of `*gq`; `assert(data_size > 0)` is the fault.
pub init_gq : Fresh → ℕ → Cmd Node (Bool × Ptr)
unfolding create_generic_queue_entry
init_gq fresh size = if size == 0 then failed else do
  l ← create_generic_queue_entry fresh none size
  s ← load l
  store l (record s { tail = l })
  pure (true, l)

pub is_gq_empty : Option Ptr → Cmd Node Bool
is_gq_empty gq = do
  l ← deref gq
  if l == null then pure true else do s ← load l; pure (s.next == null)

pub push_at : Fresh → Ptr → Option Bytes → Cmd Node Bool
unfolding create_generic_queue_entry
push_at fresh l src = do
  s ← load l
  new ← create_generic_queue_entry fresh src s.data_size
  n ← load new
  if n.dat == null then pure false else do
    s' ← load l
    t ← load s'.tail
    store s'.tail (record t { next = new })
    s'' ← load l
    store l (record s'' { tail = new })
    pure true

pub push_gq : Fresh → Option Ptr → Option Bytes → Cmd Node Bool
push_gq fresh none src = pure false
push_gq fresh (some l) src = if l == null then pure false else push_at fresh l src

-- What is copied to `save_to`, where it is not NULL.
pub save : Bool → Node → Cmd Node (Option Bytes)
save false n = pure none
save true n = do b ← load_block n.dat; c ← copied n.data_size b; pure (some c)

pub pop_at : Ptr → Bool → Cmd Node (Bool × Option Bytes)
unfolding save
pop_at l wanted = do
  s ← load l
  n ← load s.next
  out ← save wanted n
  let s' : Node = record s { next = n.next }
  store l (if n.next == null then record s' { tail = l } else s')
  (if n.dat == null then pure tt else free_block n.dat)
  free_node s.next
  pure (true, out)

pub pop_gq : Option Ptr → Bool → Cmd Node (Bool × Option Bytes)
pop_gq gq wanted = do
  empty ← is_gq_empty gq
  if empty then pure (false, none) else do l ← deref gq; pop_at l wanted

pub top_gq : Option Ptr → Cmd Node Ptr
top_gq gq = do
  empty ← is_gq_empty gq
  if empty then pure null else do l ← deref gq; s ← load l; pure s.next

pub clear_loop : ℕ → Ptr → Cmd Node (Unit {0})
clear_loop zero l = λ h. unfinished
clear_loop (suc k) l = do
  empty ← is_gq_empty (some l)
  if empty then pure tt else (do _ ← pop_gq (some l) false; clear_loop k l)

pub clear_gq : ℕ → Option Ptr → Cmd Node Bool
clear_gq k none = pure false
clear_gq k (some l) = if l == null then pure false else do clear_loop k l; free_node l; pure true

-- The node that is found, where the list's search stores the block.
pub search_loop : ℕ → (Bytes → Bytes → Bool) → Bytes → Ptr → Cmd Node (Option Ptr)
search_loop zero f key aux = λ h. unfinished
search_loop (suc k) f key aux = if aux == null then pure none else do
  n ← load aux
  b ← load_block n.dat
  if f b key then pure (some aux) else search_loop k f key n.next

-- The result of the code is `is_some`, and the value what it stores through `found_node`.
pub search_gq : ℕ → Option Ptr → Bytes → Option (Bytes → Bytes → Bool) → Cmd Node (Option Ptr)
search_gq k gq key f = do
  l ← deref gq
  empty ← (if l == null then pure true else is_gq_empty gq)
  if empty
      then pure none
      else elim f [ none ↦ pure none | some f ↦ do s ← load l; search_loop k f key s.next ]

-- What is written to the open file: `fn` prints a block, and the file collects.
pub export_loop : ℕ → (Bytes → Bytes) → Ptr → Bytes → Cmd Node Bytes
export_loop zero fn aux file = λ h. unfinished
export_loop (suc k) fn aux file =
    if aux == null
    then pure file
    else do n ← load aux; b ← load_block n.dat; export_loop k fn n.next (file ++ fn b)

-- Unlike the list's, this exports an empty queue, as an empty file.
pub export_gq_to_disk : ℕ → Option Ptr → Bool → (Bytes → Bytes) → Cmd Node (Bool × Bytes)
export_gq_to_disk k none opens fn = pure (false, [])
export_gq_to_disk k (some l) opens fn =
    if l == null
    then pure (false, [])
    else if not opens
    then pure (false, [])
    else do s ← load l; file ← export_loop k fn s.next []; pure (true, file)
