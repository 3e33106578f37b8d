-- ===== src/LinkedList.antt =====
-- src/modules/ds/GenericLinkedList.c: a singly linked list behind a sentinel, whose nodes own copies of
-- the data. A `GenericLinkedList **ll` is an `Option Ptr`: `none` is NULL, and `some l` points to a
-- variable that holds `l`. The loops run on fuel. Printing and reading from a file are left out.
pub mod Insert
pub mod Remove
pub mod Walk
mod Tests
use gaveta.Base.{
  ℕ, zero, suc, ◌+◌, ◌%◌, ◌^◌, Bool, true, false, not, ◌||◌, Option, none, some, List, [], ◌∷◌,
  ◌++◌, ◌==◌, ◌≢◌, ◌≡◌, ltb, if◌then◌else◌, length, take, unfinished,
}
use gaveta.Heap.{
  Ptr, null, Bytes, Heap, Fresh, Cmd, pure, failed, ◌>>=◌, ◌>>◌, put, put_block, load, load_block,
  store, free_node, free_block, copied, deref,
}
use gaveta.Heap.Seg.{Link, Entry, Seg, has_node}

pub record Node : Type 0 where
  pub dat : Ptr
  pub data_size : ℕ
  pub next : Ptr

abbrev pub link : Node → Link
link n = record { dat = n.dat; data_size = n.data_size; next = n.next }

-- The list behind the sentinel at `l`, for entries of `size` bytes.
pub record IsList (h : Heap Node) (l : Ptr) (size : ℕ) (xs : List Entry) : Type 0 where
  pub sentinel : Node
  pub ne_null : l ≢ null
  pub holds : h.cells l ≡ some sentinel
  pub sized : sentinel.data_size ≡ size
  pub apart : has_node l xs ≡ false
  pub chain : Seg link h size null sentinel.next xs

-- `g_alloc` returning NULL is not tested here: the first write through it is the fault.
pub create_ll_node : Fresh → Option Bytes → ℕ → Cmd Node Ptr
create_ll_node fresh none size = if fresh.node == null then failed else do
  put fresh.node (some (record { dat = null; data_size = size; next = null }))
  pure (fresh.node)
create_ll_node fresh (some src) size =
    if fresh.node == null then failed else if fresh.dat == null then failed else do
      b ← copied size src
      put fresh.node (some (record { dat = fresh.dat; data_size = size; next = null }))
      put_block fresh.dat (some b)
      pure (fresh.node)

-- The new value of `*ll`; `assert(data_size > 0)` is the fault.
pub init_ll : Fresh → ℕ → Cmd Node (Bool × Ptr)
unfolding create_ll_node
init_ll fresh size =
    if size == 0 then failed else do l ← create_ll_node fresh none size; pure (true, l)

pub is_ll_empty : Option Ptr → Cmd Node Bool
is_ll_empty ll = do
  l ← deref ll
  if l == null then pure true else do s ← load l; pure (s.next == null)

pub insert_at : Fresh → Ptr → Option Bytes → Cmd Node Bool
unfolding create_ll_node
insert_at fresh l src = do
  s ← load l
  new ← create_ll_node fresh src s.data_size
  n ← load new
  if n.dat == null then pure false else do
    s' ← load l
    store new (record n { next = s'.next })
    store l (record s' { next = new })
    pure true

pub insert_ll : Fresh → Option Ptr → Option Bytes → Cmd Node Bool
insert_ll fresh none src = pure false
insert_ll fresh (some l) src = if l == null then pure false else insert_at fresh l src

-- What is copied to `save_to`, where it is not NULL.
pub save : Bool → Node → Cmd Node (Option Bytes)
save false n = pure none
save true n = do b ← load_block n.dat; c ← copied n.data_size b; pure (some c)

pub remove_at : Ptr → Bool → Cmd Node (Bool × Option Bytes)
unfolding save
remove_at l wanted = do
  s ← load l
  n ← load s.next
  out ← save wanted n
  store l (record s { next = n.next })
  (if n.dat == null then pure tt else free_block n.dat)
  free_node s.next
  pure (true, out)

pub remove_ll : Option Ptr → Bool → Cmd Node (Bool × Option Bytes)
remove_ll ll wanted = do
  empty ← is_ll_empty ll
  if empty then pure (false, none) else do l ← deref ll; remove_at l wanted

pub clear_loop : ℕ → Ptr → Cmd Node (Unit {0})
clear_loop zero l = λ h. unfinished
clear_loop (suc k) l = do
  empty ← is_ll_empty (some l)
  if empty then pure tt else (do _ ← remove_ll (some l) false; clear_loop k l)

pub clear_ll : ℕ → Option Ptr → Cmd Node Bool
clear_ll k none = pure false
clear_ll k (some l) = if l == null then pure false else do clear_loop k l; free_node l; pure true

-- The comparison is given the two blocks; `none` is NULL.
pub search_loop : ℕ → (Bytes → Bytes → Bool) → Bytes → Ptr → Cmd Node (Option Ptr)
search_loop zero f key aux = λ h. unfinished
search_loop (suc k) f key aux = if aux == null then pure none else do
  n ← load aux
  b ← load_block n.dat
  if f b key then pure (some n.dat) else search_loop k f key n.next

-- The result of the code is `is_some`, and the value what it stores through `found_data`.
pub search_ll : ℕ → Option Ptr → Bytes → Option (Bytes → Bytes → Bool) → Cmd Node (Option Ptr)
search_ll k ll key f = do
  l ← deref ll
  empty ← (if l == null then pure true else is_ll_empty ll)
  if empty
      then pure none
      else elim f [ none ↦ pure none | some f ↦ do s ← load l; search_loop k f key s.next ]

pub size_loop : ℕ → Ptr → ℕ → Cmd Node ℕ
size_loop zero aux count = λ h. unfinished
size_loop (suc k) aux count =
    if aux == null then pure count else do n ← load aux; size_loop k n.next ((count + 1) % 2 ^ 32)

pub get_ll_size : ℕ → Option Ptr → Cmd Node ℕ
get_ll_size k none = pure 0
get_ll_size k (some l) = if l == null then pure 0 else do s ← load l; size_loop k s.next 0

-- What is written to the open file: `fn` prints a block, and the file collects.
pub export_loop : ℕ → (Bytes → Bytes) → Ptr → Bytes → Cmd Node Bytes
export_loop zero fn aux file = λ h. unfinished
export_loop (suc k) fn aux file =
    if aux == null
    then pure file
    else do n ← load aux; b ← load_block n.dat; export_loop k fn n.next (file ++ fn b)

-- `opens` tells whether `fopen` succeeds; the value is the result and the file's contents.
pub export_ll_to_disk : ℕ → Option Ptr → Bool → (Bytes → Bytes) → Cmd Node (Bool × Bytes)
export_ll_to_disk k ll opens fn = do
  empty ← is_ll_empty ll
  if empty || not opens
      then pure (false, [])
      else do l ← deref ll; s ← load l; file ← export_loop k fn s.next []; pure (true, file)
