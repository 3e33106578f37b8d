-- ===== src/Memory.antt =====
-- src/modules/memory/mem.c and mem.h: the page allocator. A pool is `len` pages of 1024 bytes, an
-- allocation is a run of whole pages whose first 8 bytes hold an `alloc_header`. Pointers into a
-- pool are byte offsets from its start. Of the bytes of a pool the headers are kept apart, by the
-- page that they start; `bytes` is the rest. Logging prints and is left out.
pub mod Clock
pub mod Inv
pub mod Place
pub mod Alloc
pub mod Dealloc
pub mod Region
pub mod Blocks
pub mod Boot
pub mod Evict
pub mod Realloc
mod Tests
use gaveta.Base.{
  ℕ, zero, suc, ◌+◌, ◌-◌, ◌*◌, ◌/◌, ◌%◌, ◌^◌, Bool, true, false, not, ◌&&◌, Option, none, some,
  List, [], ◌∷◌, ltb, leb, ◌==◌, if◌then◌else◌, get_elem?, set, replicate, Run, ok, fault, exited,
  blocked, unfinished, ◌>>=◌,
}

abbrev pub u32 : ℕ
u32 = 2 ^ 32

abbrev pub page_size : ℕ
page_size = 1024

abbrev pub default_memory_size : ℕ
default_memory_size = 1048576

-- sizeof(alloc_header)
abbrev pub header_size : ℕ
header_size = 8

-- `p` is an offset.
pub record Page : Type 0 where
  pub id : ℕ
  pub p : ℕ
  pub free : Bool
  pub used : Bool

pub record PageTable : Type 0 where
  pub len : ℕ
  pub free_page_num : ℕ
  pub free_stack : List ℕ
  pub free_stack_top : ℕ
  pub pages : List Page

pub record AllocHeader : Type 0 where
  pub id : ℕ
  pub page_num : ℕ

pub record Memory : Type 0 where
  pub memory_s : ℕ
  pub pt : PageTable
  pub size : ℕ
  pub initialized : Bool
  pub headers : List (Option AllocHeader)
  pub bytes : ℕ → ℕ

-- A pool, and the `static int i` of `second_chance`, which all pools share.
pub record State : Type 0 where
  pub mem : Memory
  pub hand : ℕ

pub sem_wait : State → Run State
sem_wait s =
    if s.mem.memory_s == 0
    then blocked
    else ok (record s { mem = record (s.mem) { memory_s = s.mem.memory_s - 1 } })

pub sem_post : State → State
sem_post s = record s { mem = record (s.mem) { memory_s = s.mem.memory_s + 1 } }

abbrev pub with_pt : State → PageTable → State
with_pt s t = record s { mem = record (s.mem) { pt = t } }

pub push_free_stack : PageTable → ℕ → PageTable
push_free_stack t i =
    if ltb t.free_stack_top t.len
    then record t {
      free_stack = set t.free_stack t.free_stack_top i;
      free_stack_top = t.free_stack_top + 1;
    }
    else t

-- The `do … while`: `start` is `i`, and `suc curr == start` is `curr == i - 1` on `int`. The results
-- are the value returned, the new `i` and the pages.
pub clock_loop : ℕ → (len start curr : ℕ) → List Page → Run (Option ℕ × ℕ × List Page)
clock_loop zero len start curr pages = unfinished
clock_loop (suc k) len start curr pages = elim (get_elem? pages curr) [
  | none ↦ fault
  | some p ↦
      let curr' = (curr + 1) % len in
      let pages' = set pages curr (record p { used = false }) in
      elim p.used [
        | false ↦ ok (some curr', curr', pages')
        | true ↦ elim (suc curr' == start) [
          | true ↦ ok (none, (curr' + 1) % len, pages')
          | false ↦ clock_loop k len start curr' pages'
        ]
      ]
]

-- `none` is the `-1` of the code.
pub second_chance : State → Run (Option ℕ × State)
second_chance s = do
  s ← sem_wait s
  let t = s.mem.pt
  (r, i, ps) ← clock_loop (t.len + 1) t.len s.hand s.hand t.pages
  ok (r, sem_post (record (with_pt s (record t { pages = ps })) { hand = i }))

abbrev pub set_free : Page → Page
set_free p = record p { free = true }

abbrev pub set_taken : Page → Page
set_taken p = record p { free = false; used = true }

-- pages[i] = f(pages[i]), a fault out of range
pub update_page : (Page → Page) → ℕ → List Page → Run (List Page)
update_page f i [] = fault
update_page f zero (p ∷ ps) = ok (f p ∷ ps)
update_page f (suc i) (p ∷ ps) = do ps' ← update_page f i ps; ok (p ∷ ps')

-- The body of the `while` of `g_allocate`, once a page has been chosen.
pub evict : ℕ → State → Run State
evict page s = do
  s ← sem_wait s
  ps ← update_page set_free page s.mem.pt.pages
  let s' = sem_post (
      with_pt s
        (record (s.mem.pt) { free_page_num = (s.mem.pt.free_page_num + 1) % u32; pages = ps }))
  ok (with_pt s' (push_free_stack s'.mem.pt page))

-- The `while`. `false` is the early `return NULL`, with its `sem_post`.
pub make_room : ℕ → ℕ → State → Run (Bool × State)
make_room zero n s = unfinished
make_room (suc k) n s = elim (ltb s.mem.pt.free_page_num n) [
  | false ↦ ok (true, s)
  | true ↦ do
    (r, s) ← second_chance s
    elim r [ none ↦ ok (false, sem_post s) | some page ↦ do s ← evict page s; make_room k n s ]
]

-- The inner loop: are pages i, …, i + n - 1 free?
pub region_free : (n i : ℕ) → List Page → Run Bool
region_free zero i pages = ok true
region_free (suc n) i pages = elim (get_elem? pages i) [
  | none ↦ fault
  | some p ↦ elim p.free [ true ↦ region_free n (i + 1) pages | false ↦ ok false ]
]

-- The scan from page `i`, with `k` rounds left.
pub first_fit : (k i n len : ℕ) → List Page → Run (Option ℕ)
first_fit zero i n len pages = ok none
first_fit (suc k) i n len pages = elim (ltb len ((i + n) % u32)) [
  | true ↦ ok none
  | false ↦ region_free n i pages >>= λ b. elim b [
    | true ↦ ok (some i)
    | false ↦ first_fit k (i + 1) n len pages
  ]
]

-- for (j = i; j < i + n; j++) pages[j] = f(pages[j])
pub update_pages : (Page → Page) → (n i : ℕ) → List Page → Run (List Page)
update_pages f zero i pages = ok pages
update_pages f (suc n) i pages = do ps ← update_page f i pages; update_pages f n (i + 1) ps

pub pages_for : ℕ → ℕ
pages_for bytes = (bytes + header_size + page_size - 1) / page_size % u32

-- The part of `g_allocate` behind the second `sem_wait`.
pub place : ℕ → State → Run (Option ℕ × State)
place n s = do
  s ← sem_wait s
  let t = s.mem.pt
  found ← first_fit t.len 0 n t.len t.pages
  elim found [
    | none ↦ exited
    | some i ↦ do
      ps ← update_pages set_taken n i t.pages
      let m = record (s.mem) {
        pt = record t { free_page_num = (t.free_page_num + u32 - n) % u32; pages = ps };
        headers = set s.mem.headers i (some (record { id = i; page_num = n }));
      }
      ok (some (i * page_size + header_size), sem_post (record s { mem = m }))
  ]

-- `none` is NULL.
pub g_allocate : State → ℕ → Run (Option ℕ × State)
g_allocate s bytes =
    let n = pages_for bytes in
    if bytes == 0
    then ok (none, s)
    else if leb s.mem.size bytes
    then ok (none, s)
    else do (room, s) ← make_room (n + 1) n s; if room then place n s else ok (none, s)

-- `get_header` and the read through it, a fault where no header starts.
pub get_header : Memory → ℕ → Run AllocHeader
get_header m ptr =
    if ltb ptr header_size
    then fault
    else if not ((ptr - header_size) % page_size == 0)
    then fault
    else elim (get_elem? m.headers ((ptr - header_size) / page_size)) [
      | some (some h) ↦ ok h
      | _ ↦ fault
    ]

-- The loop of `g_deallocate`. `own` tells that the argument `mem_pool` is not NULL: only then does
-- `push_free_stack` push.
pub free_pages : Bool → (n i : ℕ) → PageTable → Run PageTable
free_pages own zero i t = ok t
free_pages own (suc n) i t = do
  ps ← update_page set_free i t.pages
  let t' = record t { pages = ps }
  free_pages own n (i + 1) (if own then push_free_stack t' i else t')

pub g_deallocate : Bool → State → Option ℕ → Run State
g_deallocate own s none = do s ← sem_wait s; ok (sem_post s)
g_deallocate own s (some ptr) = do
  s ← sem_wait s
  h ← get_header s.mem ptr
  t ← free_pages own h.page_num h.id s.mem.pt
  ok (sem_post (with_pt s (record t { free_page_num = (t.free_page_num + h.page_num) % u32 })))

pub memcpy : (ℕ → ℕ) → (to from n : ℕ) → ℕ → ℕ
memcpy bytes to from n a = if leb to a && ltb a (to + n) then bytes (from + (a - to)) else bytes a

pub g_reallocate : State → Option ℕ → ℕ → Run (Option ℕ × State)
g_reallocate s none bytes = ok (none, s)
g_reallocate s (some curr) bytes = do
  h ← get_header s.mem curr
  let old_size = (h.page_num * page_size % u32 + 2 ^ 64 - header_size) % u32
  (buffer, s) ← g_allocate s ((old_size + bytes) % u32)
  elim buffer [
    | none ↦ ok (none, s)
    | some b ↦ do
      s ←
          g_deallocate true
            (record s { mem = record (s.mem) { bytes = memcpy s.mem.bytes b curr old_size } })
            (some curr)
      ok (some b, s)
  ]
