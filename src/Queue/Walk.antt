-- ===== src/Queue/Walk.antt =====
-- The loops of GenericQueue.c that only read: search, size and export.
use gaveta.Base.{
  ℕ, zero, suc, ◌<◌, ◌≡◌, refl, ◌∙◌, ap, Bool, true, false, Option, none, some, List, [], ◌∷◌, ◌++◌,
  append-nil, append_assoc, arith, if◌then◌else◌, length, ok,
}
use gaveta.Heap.{Ptr, null, Bytes, Heap, load, load_block, deref, go_on}
use gaveta.Heap.Seg.{Link, Entry, Seg, nil, cons, Points, not_null, load-ok, load_block-ok}
use gaveta.Queue.{Node, link, IsQueue, search_loop, search_gq, export_loop, export_gq_to_disk}
use gaveta.Queue.Pop.{is_gq_empty-nil, is_gq_empty-cons}

-- The node of the first entry that the comparison accepts.
unfoldable pub find : (Bytes → Bytes → Bool) → Bytes → List Entry → Option Ptr
find f key [] = none
find f key ((p, d, b) ∷ xs) = if f b key then some p else find f key xs

-- What `fn` prints for the entries, in order.
unfoldable pub printed : (Bytes → Bytes) → List Entry → Bytes
printed fn [] = []
printed fn ((p, d, b) ∷ xs) = fn b ++ printed fn xs

module _ {h : Heap Node} {size : ℕ} where
  fields :
      {x : Entry} {q : Ptr} (e : Points link h size x q) → (e.node.dat ≡ x.1) × (e.node.next ≡ q)
  fields e = (ap (λ (k : Link). k.dat) e.links, ap (λ (k : Link). k.next) e.links)

  search_loop-find :
      (k : ℕ) (f : Bytes → Bytes → Bool) (key : Bytes) {p : Ptr} {xs : List Entry}
      → Seg link h size null p xs
      → length xs < k
      → search_loop k f key p h ≡ ok (find f key xs, h)
  unfolding search_loop find load load_block
  search_loop-find zero f key s fuel = absurd (omega arith)
  search_loop-find (suc k) f key nil fuel = refl
  search_loop-find (suc k) f key (cons {p} {q} {d} {b} {xs} e np nd s) fuel =
      let (dat, next) = fields e in
      ground (
        arith,
        e.ne_null,
        e.holds,
        dat,
        next,
        e.block_ne_null,
        e.block,
        search_loop-find k f key s (omega arith),
      )

  export_loop-printed :
      (k : ℕ) (fn : Bytes → Bytes) (file : Bytes) {p : Ptr} {xs : List Entry}
      → Seg link h size null p xs
      → length xs < k
      → export_loop k fn p file h ≡ ok (file ++ printed fn xs, h)
  unfolding export_loop printed
  export_loop-printed zero fn file s fuel = absurd (omega arith)
  export_loop-printed (suc k) fn file nil fuel = rw append-nil
  export_loop-printed (suc k) fn file (cons {p} {q} {d} {b} {xs} e np nd s) fuel =
      let (dat, next) = fields e in
      rw
        (
          not_null p e.ne_null,
          load-ok h p e.ne_null e.node e.holds,
          dat,
          load_block-ok h d e.block_ne_null b e.block,
          next,
        )
        (export_loop-printed k fn (file ++ fn b) s (omega arith)
          ∙ ap (λ (t : Bytes). ok (t, h)) (append_assoc file (fn b) (printed fn xs)))

  module _ {l : Ptr} (k : ℕ) where
    -- On a queue, with a comparison and more fuel than entries, `search_gq` returns the first entry that the comparison accepts, or
    -- says that there is none, and writes nothing.
    pub search_gq-find :
        (f : Bytes → Bytes → Bool) (key : Bytes) (xs : List Entry)
        → IsQueue h l size xs
        → length xs < k
        → search_gq k (some l) key (some f) h ≡ ok (find f key xs, h)
    unfolding search_gq deref find
    search_gq-find f key [] is fuel = rw (not_null l is.ne_null, go_on, is_gq_empty-nil is)
    search_gq-find f key (x ∷ xs) is fuel =
        rw
          (
            not_null l is.ne_null,
            go_on,
            is_gq_empty-cons is,
            load-ok h l is.ne_null is.sentinel is.holds,
          )
          (search_loop-find k f key is.chain fuel)

    -- `export_gq_to_disk` prints the entries in order, and fails where the file does not open.
    pub export_gq_to_disk-printed :
        (opens : Bool) (fn : Bytes → Bytes) (xs : List Entry)
        → IsQueue h l size xs
        → length xs < k
        → export_gq_to_disk k (some l) opens fn h
          ≡ ok (if opens then (true, printed fn xs) else (false, []), h)
    unfolding export_gq_to_disk
    export_gq_to_disk-printed true fn xs is fuel = rw (
      not_null l is.ne_null,
      load-ok h l is.ne_null is.sentinel is.holds,
      export_loop-printed k fn [] is.chain fuel,
    )
    export_gq_to_disk-printed false fn xs is fuel = rw (not_null l is.ne_null)
