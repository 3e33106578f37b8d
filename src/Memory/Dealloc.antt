-- ===== src/Memory/Dealloc.antt =====
-- `g_deallocate` of mem.c on a block that its header describes.
use gaveta.Base.{
  ℕ, zero, suc, ◌+◌, ◌-◌, ◌*◌, ◌/◌, ◌%◌, ◌≤◌, ◌<◌, ◌≡◌, refl, sym, ◌∙◌, Bool, true, false, some,
  arith, ltb, ◌==◌, if◌then◌else◌, get_elem?, ok, ok-injective, ◌>>=◌, Returns,
}
use gaveta.Memory.{
  u32, page_size, header_size, PageTable, AllocHeader, Memory, State, with_pt, sem_post,
  push_free_stack, set_free, update_pages, get_header, free_pages, g_deallocate,
}
use gaveta.Memory.Region.{free_at, count_free, within, update_page_lem, update_pages-Updated}
use gaveta.Memory.Inv.{
  IsTable, IsSound, waited, sem_wait-open, push_free_stack-IsTable, push_free_stack-same,
}

-- The loop does to the pages what `update_pages` does, whether or not the stack is pushed on.
record Looped (n i : ℕ) (t t' : PageTable) : Type 0 where
  pages : update_pages set_free n i t.pages ≡ ok t'.pages
  table : IsTable t'
  len : t'.len ≡ t.len
  counter : t'.free_page_num ≡ t.free_page_num

abbrev stacked : Bool → PageTable → ℕ → PageTable
stacked own t i = if own then push_free_stack t i else t

stacked_lem :
    (own : Bool) (t : PageTable) (i : ℕ)
    → IsTable t
    → IsTable (stacked own t i)
      × ((stacked own t i).pages ≡ t.pages)
      × ((stacked own t i).len ≡ t.len)
      × ((stacked own t i).free_page_num ≡ t.free_page_num)
stacked_lem true t i v =
    let (a, b, c) = push_free_stack-same t i in (push_free_stack-IsTable t i v, a, b, c)
stacked_lem false t i v = (v, refl, refl, refl)

free_pages-Looped :
    (own : Bool) (n i : ℕ) (t : PageTable)
    → IsTable t
    → i + n ≤ t.len
    → Returns (free_pages own n i t) (Looped n i t)
unfolding free_pages update_pages
free_pages-Looped own zero i t v h =
    (t, refl, record { pages = refl; table = v; len = refl; counter = refl })
free_pages-Looped own (suc n) i t v h =
    let (ps, run, (width, _, _)) =
      update_page_lem set_free true (λ p. refl) i t.pages (omega (arith, v.rows)) in
    let t1 : PageTable = record t { pages = ps } in
    let (v2, same, len, counter) = stacked_lem own t1 i (ground (arith, width)) in
    let (t', run', l) =
      free_pages-Looped own n (i + 1) (stacked own t1 i) v2 (omega (arith, len)) in
    (
      t',
      rw run run',
      record {
        pages = rw run (rw same at l.pages);
        table = l.table;
        len = l.len ∙ len;
        counter = l.counter ∙ counter;
      },
    )

-- What giving back the block of `n` pages at page `i` leaves.
pub record Freed (i n : ℕ) (s s' : State) : Type 0 where
  pub sound : IsSound s'
  pub len : s'.mem.pt.len ≡ s.mem.pt.len
  pub flags :
      (j : ℕ)
      → free_at s'.mem.pt.pages j ≡ (if within i n j then true else free_at s.mem.pt.pages j)
  pub headers : s'.mem.headers ≡ s.mem.headers
  pub counter : s'.mem.pt.free_page_num ≡ (s.mem.pt.free_page_num + n) % u32
  pub count : count_free s'.mem.pt.pages ≡ count_free s.mem.pt.pages + n
  pub bytes : s'.mem.bytes ≡ s.mem.bytes
  pub size : s'.mem.size ≡ s.mem.size

abbrev pub block_ptr : ℕ → ℕ
block_ptr i = i * page_size + header_size

pub get_header_lem :
    (m : Memory) (i : ℕ) (h : AllocHeader)
    → get_elem? m.headers i ≡ some (some h)
    → get_header m (block_ptr i) ≡ ok h
unfolding get_header
get_header_lem m i h e =
    let below : ltb (block_ptr i) header_size ≡ false = ground arith in
    let aligned : ((block_ptr i - header_size) % page_size == 0) ≡ true = ground arith in
    let page : (block_ptr i - header_size) / page_size ≡ i = omega arith in
    rw (below, aligned, page, e)

-- In a sound pool `g_deallocate` on the block at page `i`, whose header names `n` pages of the pool
-- that are taken, frees exactly those pages and counts them, whether or not the pool was an argument.
pub g_deallocate-Freed :
    (own : Bool) (s : State) (i n : ℕ)
    → IsSound s
    → get_elem? s.mem.headers i ≡ some (some (record { id = i; page_num = n }))
    → i + n ≤ s.mem.pt.len
    → ((j : ℕ) → i ≤ j → j < i + n → free_at s.mem.pt.pages j ≡ false)
    → Returns (g_deallocate own s (some (block_ptr i))) (Freed i n s)
unfolding g_deallocate sem_post
g_deallocate-Freed own s i n v header inside taken =
    let h : AllocHeader = record { id = i; page_num = n } in
    let t = s.mem.pt in
    let (t', run, l) = free_pages-Looped own n i t v.table inside in
    let (ps, run', u) =
      update_pages-Updated set_free true (λ p. refl) n i false t.pages (omega (arith, v.table.rows))
        taken in
    let same : ps ≡ t'.pages = ok-injective (sym run' ∙ l.pages) in
    let u' = (rw same at u) in
    let table : IsTable t' = l.table in
    (
      sem_post (with_pt (waited s) (record t' { free_page_num = (t'.free_page_num + n) % u32 })),
      rw (sem_wait-open s v.open_s, ◌>>=◌, get_header_lem (waited s).mem i h header, run),
      record {
        sound = omega (arith, l.len);
        len = l.len;
        flags = u'.flags;
        headers = refl;
        counter = rw l.counter;
        count = omega (arith, u'.count);
        bytes = refl;
        size = refl;
      },
    )
