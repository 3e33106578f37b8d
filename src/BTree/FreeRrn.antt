-- ===== src/BTree/FreeRrn.antt =====
-- `get_free_rrn` of src/modules/ds/BTree.c: a record number for a new node, from the list of free ones,
-- whose entries are of 2 bytes in the program. What is read of an entry are its first two
-- bytes; the `int` that `remove_ll` copies an entry to is taken to have room for it. `print_ll` is left out.
mod Tests
use gaveta.Base.{
  ℕ, zero, suc, ◌+◌, ◌*◌, ◌%◌, ◌^◌, ◌<◌, ◌≡◌, refl, Bool, true, false, Option, none, some, List, [],
  ◌∷◌, arith, ◌==◌, if◌then◌else◌, length, Run, ok, exited, Returns,
}
use gaveta.Heap.{Ptr, null, Bytes, Heap, Cmd, pure, ◌>>=◌, go_on}
use gaveta.Heap.Seg.{Entry, not_null}
use gaveta.LinkedList.{Node, IsList, is_ll_empty, get_ll_size, remove_ll}
use gaveta.LinkedList.Remove.{is_ll_empty-nil, is_ll_empty-cons, remove_ll-cons}
use gaveta.LinkedList.Walk.{get_ll_size-length}

-- The `int` that the bytes are, as a `u16`.
pub to_rrn : Option Bytes → ℕ
to_rrn (some (a ∷ b ∷ rest)) = (a + 2 ^ 8 * b) % 2 ^ 16
to_rrn other = 0

-- `k` is the fuel of `get_ll_size`.
pub get_free_rrn : ℕ → Ptr → Cmd Node ℕ
get_free_rrn k i = if i == null then (λ h. exited) else do
  empty ← is_ll_empty (some i)
  if empty
      then (do n ← get_ll_size k (some i); pure (n % 2 ^ 16))
      else (do r ← remove_ll (some i) true; pure (to_rrn r.1))

-- The result, and the free numbers left.
pub taken : List Entry → ℕ × List Entry
taken [] = (0, [])
taken (x ∷ xs) = (to_rrn (some x.2), xs)

-- `get_free_rrn` takes the first of the free record numbers off their list. Where none is free it
-- returns 0, the number of the first record, and leaves the list empty.
pub get_free_rrn-taken :
    (k : ℕ) {h : Heap Node} {l : Ptr} {size : ℕ} (xs : List Entry)
    → IsList h l size xs
    → 0 < k
    → Returns
        (get_free_rrn k l h)
        λ (r : ℕ × Heap Node). (r.0 ≡ (taken xs).0) × IsList r.1 l size (taken xs).1
unfolding get_free_rrn taken
get_free_rrn-taken k {h} {l} [] is fuel = (
  (0, h),
  rw (not_null l is.ne_null, is_ll_empty-nil is, go_on, get_ll_size-length k [] is fuel) refl,
  (refl, is),
)
get_free_rrn-taken k {h} {l} (x ∷ xs) is fuel =
    let (r, run, (_, out, is', _)) = remove_ll-cons true is in
    (
      (to_rrn r.0.1, r.1),
      rw (not_null l is.ne_null, is_ll_empty-cons is, go_on, run) refl,
      (rw out refl, is'),
    )
