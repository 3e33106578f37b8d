-- ===== src/Memory/Boot.antt =====
-- `init_memory`, `clear_memory` and the macros on the global pool (src/modules/memory/mem.c, mem.h).
use gaveta.Base.{
  ℕ, zero, suc, ◌+◌, ◌*◌, ◌/◌, ◌<◌, ◌≡◌, refl, ◌∙◌, ap, Bool, true, false, not, ◌&&◌, Option, none,
  some, List, [], ◌∷◌, arith, leb, if◌then◌else◌, length, replicate, length-replicate, Run, ok,
  fault, exited, ◌>>=◌, Returns,
}
use gaveta.Memory.{
  u32, page_size, default_memory_size, AllocHeader, Page, PageTable, Memory, State, push_free_stack,
  g_allocate, g_deallocate,
}
use gaveta.Memory.Region.{free_at, count_free}
use gaveta.Memory.Inv.{IsTable, IsSound, push_free_stack-IsTable, push_free_stack-same}
use gaveta.Memory.Blocks.{Owns}

-- `global_mem_pool`: NULL, a pool, or a pool that has been freed.
pub data Slot : Type 0 where
  null dangling : Slot
  live : Memory → Slot

-- The globals of mem.c: the pool, and the static index of `second_chance`.
pub record World : Type 0 where
  pub global_mem_pool : Slot
  pub hand : ℕ

-- What the C library answers: did the two first `malloc`s and `sem_init` succeed, and the
-- uninitialised arrays of the two others, `none` for NULL. `bytes` is the fresh pool.
pub record Libc : Type 0 where
  pub mem : Bool
  pub pool : Bool
  pub sem_init : Bool
  pub pages : Option (List Page)
  pub free_stack : Option (List ℕ)
  pub bytes : ℕ → ℕ

abbrev fresh_page : ℕ → Page
fresh_page i = record { id = i; p = i * page_size; free = true; used = false }

-- The loop over the pages from page `i` on: the cells, and the table that is pushed on.
init_pages : ℕ → List Page → PageTable → List Page × PageTable
init_pages i [] t = ([], t)
init_pages i (p ∷ ps) t =
    let (qs, t') = init_pages (i + 1) ps (push_free_stack t i) in (fresh_page i ∷ qs, t')

abbrev pub pool_size : ℕ → ℕ
pool_size mem_size = if leb mem_size (16 * 1024) then default_memory_size else mem_size

pub boot : Libc → ℕ → List Page → List ℕ → Memory
boot c size pages stack =
    let len = size / page_size in
    let t : PageTable = record {
      len = len;
      free_page_num = len;
      free_stack = stack;
      free_stack_top = 0;
      pages = pages;
    } in
    let (ps, t') = init_pages 0 pages t in
    record {
      memory_s = 1;
      pt = record t' { pages = ps };
      size = size;
      initialized = true;
      headers = replicate len none;
      bytes = c.bytes;
    }

-- `own` tells that `mem_pool` is not NULL: then the new pool is stored in the parameter alone. A
-- NULL array is written to by the loop before it is tested.
unfoldable pub init_memory : Libc → Bool → ℕ → World → Run World
init_memory c own mem_size w = if not (c.mem && c.pool) then exited else elim (c.pages) [
  | none ↦ fault
  | some pages ↦ elim (c.free_stack) [
    | none ↦ fault
    | some stack ↦
        if not c.sem_init
        then exited
        else let m = boot c (pool_size mem_size) pages stack in
          ok (if own then w else record w { global_mem_pool = live m })
  ]
]

pub clear_memory : World → Run World
clear_memory w = elim (w.global_mem_pool) [
  | null ↦ fault
  | dangling ↦ fault
  | live m ↦ ok (record w { global_mem_pool = dangling })
]

abbrev put_back : World → State → World
put_back w s = record w { global_mem_pool = live s.mem; hand = s.hand }

pub g_alloc : World → ℕ → Run (Option ℕ × World)
g_alloc w bytes = elim (w.global_mem_pool) [
  | null ↦ exited
  | dangling ↦ fault
  | live m ↦ do (p, s) ← g_allocate (record { mem = m; hand = w.hand }) bytes; ok (p, put_back w s)
]

pub g_dealloc : World → Option ℕ → Run World
g_dealloc w ptr = elim (w.global_mem_pool) [
  | null ↦ fault
  | dangling ↦ fault
  | live m ↦ do s ← g_deallocate false (record { mem = m; hand = w.hand }) ptr; ok (put_back w s)
]

-- The loop marks every page free and leaves the table in shape.
record Filled (ps : List Page) (t : PageTable) (out : List Page × PageTable) : Type 0 where
  width : length out.0 ≡ length ps
  free : (j : ℕ) → j < length ps → free_at out.0 j ≡ true
  count : count_free out.0 ≡ length ps
  table : IsTable out.1
  len : out.1.len ≡ t.len
  counter : out.1.free_page_num ≡ t.free_page_num

freed :
    (p : Page) (qs : List Page) (n : ℕ)
    → p.free ≡ true
    → ((j : ℕ) → j < n → free_at qs j ≡ true)
    → (j : ℕ) → j < suc n
    → free_at (p ∷ qs) j ≡ true
freed p qs n e all zero h = e
freed p qs n e all (suc j) h = all j (omega arith)

init_pages-Filled :
    (i : ℕ) (ps : List Page) (t : PageTable) → IsTable t → Filled ps t (init_pages i ps t)
unfolding init_pages count_free
init_pages-Filled i [] t v = record {
  width = refl;
  free = λ j h. absurd (omega arith);
  count = refl;
  table = v;
  len = refl;
  counter = refl;
}
init_pages-Filled i (p ∷ ps) t v =
    let (_, e1, e2) = push_free_stack-same t i in
    let f = init_pages-Filled (i + 1) ps (push_free_stack t i) (push_free_stack-IsTable t i v) in
    record {
      width = ap suc f.width;
      free =
          freed (fresh_page i) (init_pages (i + 1) ps (push_free_stack t i)).0 (length ps) refl
            f.free;
      count = omega (arith, f.count);
      table = f.table;
      len = f.len ∙ e1;
      counter = f.counter ∙ e2;
    }

-- The parameters under which `init_memory` succeeds: every `malloc` does, and the arrays have `len`
-- cells.
pub record Grants (c : Libc) (len : ℕ) (pages : List Page) (stack : List ℕ) : Type 0 where
  pub mem : c.mem ≡ true
  pub pool : c.pool ≡ true
  pub sem : c.sem_init ≡ true
  pub cells : c.pages ≡ some pages
  pub slots : c.free_stack ≡ some stack
  pub pages_len : length pages ≡ len
  pub stack_len : length stack ≡ len

-- The pool that a successful `init_memory(NULL, mem_size)` installs: the default size if the request
-- is at most 16 KB, every page free and counted, no block live.
pub record Booted (mem_size : ℕ) (w w' : World) : Type 0 where
  pub memory : Memory
  pub installed : w'.global_mem_pool ≡ live memory
  pub size : memory.size ≡ pool_size mem_size
  pub len : memory.pt.len ≡ pool_size mem_size / page_size
  pub hand : w'.hand ≡ w.hand
  pub free : (j : ℕ) → j < memory.pt.len → free_at memory.pt.pages j ≡ true
  pub owns : Owns (λ _. 0) (record { mem = memory; hand = w.hand })

boot-Owns :
    (c : Libc) (size hand : ℕ) (pages : List Page) (stack : List ℕ)
    → 16 * 1024 < size
    → size < u32
    → length pages ≡ size / page_size
    → length stack ≡ size / page_size
    → hand < size / page_size
    → let m = boot c size pages stack in
      Owns (λ _. 0) (record { mem = m; hand = hand })
      × (m.pt.len ≡ size / page_size)
      × ((j : ℕ) → j < m.pt.len → free_at m.pt.pages j ≡ true)
unfolding boot
boot-Owns c size hand pages stack big small lp ls h =
    let len = size / page_size in
    let t : PageTable = record {
      len = len;
      free_page_num = len;
      free_stack = stack;
      free_stack_top = 0;
      pages = pages;
    } in
    let f = init_pages-Filled 0 pages t (omega arith) in
    let ft : IsTable (init_pages 0 pages t).1 = f.table in
    let zeros : length (replicate {A = Option AllocHeader} len none) ≡ len =
      length-replicate len none in
    let all : (j : ℕ)
        → j < (init_pages 0 pages t).1.len
        → free_at (init_pages 0 pages t).0 j ≡ true =
      λ j b. f.free j (omega (arith, f.len)) in
    let sound : IsSound (record { mem = boot c size pages stack; hand = hand }) =
      omega (arith, f.width, f.len, f.counter) in
    (
      record {
        sound = sound;
        small = small;
        exact = omega (arith, f.counter, f.count);
        inside = λ i b. absurd (omega arith);
        header = λ i b. absurd (omega arith);
        taken = λ i j b. absurd (omega arith);
        apart = λ i k j a b. absurd (omega arith);
        covered = λ j b e. cc (all j b);
      },
      f.len,
      all,
    )

-- Called with NULL, as `init_mem` does, for a size below 2 ^ 32, where the C library grants all that is
-- asked for and the clock index is below the number of pages: `init_memory` installs a pool whose pages
-- are all free and exactly counted, and which owns no block yet.
pub init_memory-Booted :
    (c : Libc) (mem_size : ℕ) (w : World) (pages : List Page) (stack : List ℕ)
    → mem_size < u32
    → Grants c (pool_size mem_size / page_size) pages stack
    → w.hand < pool_size mem_size / page_size
    → Returns (init_memory c false mem_size w) (Booted mem_size w)
unfolding init_memory boot
init_memory-Booted c mem_size w pages stack small g h =
    let size = pool_size mem_size in
    let (owns, len, all) =
      boot-Owns c size w.hand pages stack (ground arith) (ground arith) g.pages_len g.stack_len h in
    (
      record w { global_mem_pool = live (boot c size pages stack) },
      rw (g.mem, g.pool, g.cells, g.slots, g.sem),
      record {
        memory = boot c size pages stack;
        installed = refl;
        size = refl;
        len = len;
        hand = refl;
        free = all;
        owns = owns;
      },
    )

-- Given a pool of its own, `init_memory` never installs one: on success the world is as before.
pub init_memory-own :
    (c : Libc) (mem_size : ℕ) (w w' : World) → init_memory c true mem_size w ≡ ok w' → w' ≡ w
unfolding init_memory
init_memory-own c mem_size w w' e = ground arith
