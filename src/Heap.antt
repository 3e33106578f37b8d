-- ===== src/Heap.antt =====
-- Memory as the list and queue code of src/modules/ds sees it: nodes and data blocks at addresses that
-- `g_alloc` has returned (src/modules/memory/mem.c). The address that a call of `g_alloc` returns is an
-- argument, 0 for NULL. A read through NULL or an address that holds nothing is a fault, and so is a
-- second `g_dealloc`.
pub mod Seg
use gaveta.Base.{
  ℕ, Bool, true, false, Option, none, some, List, ◌==◌, ltb, if◌then◌else◌, length, take, Run, ok,
  fault, exited, blocked, unfinished,
}

abbrev pub Ptr : Type 0
Ptr = ℕ

abbrev pub null : Ptr
null = 0

abbrev pub Bytes : Type 0
Bytes = List ℕ

-- `N` is the struct of a node.
pub record Heap (N : Type 0) : Type 0 where
  pub cells : Ptr → Option N
  pub blocks : Ptr → Option Bytes

-- What the two calls of `g_alloc` in the creation of a node return.
pub record Fresh : Type 0 where
  pub node : Ptr
  pub dat : Ptr

abbrev pub Cmd : Type 0 → Type 0 → Type 0
Cmd N A = Heap N → Run (A × Heap N)

abbrev pub write {ℓ} : {A : Type ℓ} → (Ptr → Option A) → Ptr → Option A → Ptr → Option A
write f p v a = if a == p then v else f a

module _ {N : Type 0} where
  abbrev pub pure : {A : Type 0} → A → Cmd N A
  pure a h = ok (a, h)

  abbrev pub failed : {A : Type 0} → Cmd N A
  failed h = fault

  abbrev pub go_on : {A B : Type 0} → Run (A × Heap N) → (A → Cmd N B) → Run (B × Heap N)
  go_on (ok (a, h)) f = f a h
  go_on fault f = fault
  go_on exited f = exited
  go_on blocked f = blocked
  go_on unfinished f = unfinished

  infixl 5 ◌>>=◌ ◌>>◌
  abbrev pub ◌>>=◌ : {A B : Type 0} → Cmd N A → (A → Cmd N B) → Cmd N B
  m >>= f = λ h. go_on (m h) f

  abbrev pub ◌>>◌ : {B : Type 0} → Cmd N (Unit {0}) → Cmd N B → Cmd N B
  m >> k = m >>= λ _. k

  -- A node is written.
  abbrev pub put : Ptr → Option N → Cmd N (Unit {0})
  put p v h = ok (tt, record h { cells = write h.cells p v })

  abbrev pub put_block : Ptr → Option Bytes → Cmd N (Unit {0})
  put_block p v h = ok (tt, record h { blocks = write h.blocks p v })

  -- `*p`
  unfoldable pub load : Ptr → Cmd N N
  load p h = if p == null then fault else elim (h.cells p) [ none ↦ fault | some n ↦ ok (n, h) ]

  unfoldable pub load_block : Ptr → Cmd N Bytes
  load_block p h =
      if p == null then fault else elim (h.blocks p) [ none ↦ fault | some b ↦ ok (b, h) ]

  -- `*p = n`, where there is a node
  unfoldable pub store : Ptr → N → Cmd N (Unit {0})
  store p n = do _ ← load p; put p (some n)

  -- `g_dealloc`
  unfoldable pub free_node : Ptr → Cmd N (Unit {0})
  free_node p = do _ ← load p; put p none

  unfoldable pub free_block : Ptr → Cmd N (Unit {0})
  free_block p = do _ ← load_block p; put_block p none

  -- `memcpy(dst, src, n)` reads past the end of a shorter source.
  abbrev pub copied : ℕ → Bytes → Cmd N Bytes
  copied n src = if ltb (length src) n then failed else pure (take n src)

  -- `*ll` for the argument `T **ll`
  unfoldable pub deref : Option Ptr → Cmd N Ptr
  deref none = failed
  deref (some l) = pure l
