-- ===== src/Memory/Blocks.antt =====
-- Live blocks: what clients hold, beside the pool, over any sequence of calls that evicts nothing.
use gaveta.Base.{
  ℕ, ◌+◌, ◌-◌, ◌/◌, ◌≤◌, ◌<◌, ◌≡◌, ◌≢◌, sym, subst, ◌∙◌, inl, inr, Bool, false, Option, none, some,
  arith, ◌==◌, ==_iff, if◌then◌else◌, get_elem?, Bool-cases, Run, ok, ok-injective,
}
use gaveta.Memory.{u32, page_size, header_size, State, pages_for, g_allocate, g_deallocate}
use gaveta.Memory.Region.{free_at, count_free, count_free-le, within}
use gaveta.Memory.Inv.{IsSound}
use gaveta.Memory.Place.{Placed, Search, placed, no_run}
use gaveta.Memory.Alloc.{g_allocate-Search, pages_for_bounds}
use gaveta.Memory.Dealloc.{block_ptr, Freed, g_deallocate-Freed}

-- The live blocks, by first page: their number of pages, 0 where no block starts.
abbrev pub Live : Type 0
Live = ℕ → ℕ

abbrev pub update : Live → ℕ → ℕ → Live
update live i n k = if i == k then n else live k

-- Page `j` belongs to the block that starts at page `i`.
abbrev pub In : Live → ℕ → ℕ → Type 0
In live i j = (i ≤ j) × (j < i + live i)

-- The pool is exactly the live blocks: each stands under its header on taken pages, no page is in
-- two, every taken page is in one, and the counter counts the free pages.
pub record Owns (live : Live) (s : State) : Type 0 where
  pub sound : IsSound s
  pub small : s.mem.size < u32
  pub exact : s.mem.pt.free_page_num ≡ count_free s.mem.pt.pages
  pub inside : (i : ℕ) → 0 < live i → i + live i ≤ s.mem.pt.len
  pub header :
      (i : ℕ)
      → 0 < live i
      → get_elem? s.mem.headers i ≡ some (some (record { id = i; page_num = live i }))
  pub taken : (i j : ℕ) → In live i j → free_at s.mem.pt.pages j ≡ false
  pub apart : (i k j : ℕ) → In live i j → In live k j → i ≡ k
  pub covered :
      (j : ℕ) → j < s.mem.pt.len → free_at s.mem.pt.pages j ≡ false → (i : ℕ) × In live i j

module _ {live : Live} {n : ℕ} {s : State} {ptr : ℕ} {s' : State} (o : Owns live s) (pos : 0 < n)
    (p : Placed n s ptr s') where
  abbrev live' : Live
  live' = update live p.start n

  placed-header :
      (k : ℕ)
      → 0 < live' k
      → get_elem? s'.mem.headers k ≡ some (some (record { id = k; page_num = live' k }))
  placed-header k h = elim (Bool-cases (p.start == k)) [
    | inl e ↦ let same : p.start ≡ k = (==_iff p.start k).0 e in rw e (rw same at p.header)
    | inr e ↦
        let other : p.start ≢ k = ground arith in rw e (p.others k other ∙ o.header k (rw e at h))
  ]

  placed-taken : (k j : ℕ) → In live' k j → free_at s'.mem.pt.pages j ≡ false
  unfolding within
  placed-taken k j h = ground (arith, p.flags j, o.taken k j)

  placed-apart : (k l j : ℕ) → In live' k j → In live' l j → k ≡ l
  placed-apart k l j a b = ground (arith, o.apart k l j, o.taken k j, o.taken l j, p.region.1 j)

  placed-covered :
      (j : ℕ) → j < s'.mem.pt.len → free_at s'.mem.pt.pages j ≡ false → (i : ℕ) × In live' i j
  unfolding within
  placed-covered j h f = elim (Bool-cases (within p.start n j)) [
    | inl new ↦ (p.start, (ground arith, ground arith))
    | inr old ↦
        let (i, (lo, hi)) = o.covered j (omega (arith, p.len)) (ground (arith, p.flags j)) in
        (i, (lo, ground (arith, o.taken i i, p.region.1 i)))
  ]

  -- A block placed on a run of free pages joins the others.
  pub Placed-Owns : Owns live' s'
  Placed-Owns = record {
    sound = p.sound;
    small = omega (arith, p.size, o.small);
    exact = omega (arith, p.counter, p.count, o.exact);
    inside = λ k h. ground (arith, o.inside k, p.len, o.sound.table.rows, p.region.0);
    header = placed-header;
    taken = placed-taken;
    apart = placed-apart;
    covered = placed-covered;
  }

module _ {live : Live} {s s' : State} (o : Owns live s) (i : ℕ) (f : Freed i (live i) s s') where
  abbrev less : Live
  less = update live i 0

  freed-taken : (k j : ℕ) → In less k j → free_at s'.mem.pt.pages j ≡ false
  unfolding within
  freed-taken k j h = ground (arith, f.flags j, o.taken k j, o.apart i k j)

  freed-covered :
      (j : ℕ) → j < s'.mem.pt.len → free_at s'.mem.pt.pages j ≡ false → (k : ℕ) × In less k j
  unfolding within
  freed-covered j h t =
      let (k, (lo, hi)) = o.covered j (omega (arith, f.len)) (ground (arith, f.flags j)) in
      (k, (lo, ground (arith, f.flags j)))

  freed-header :
      (k : ℕ)
      → 0 < less k
      → get_elem? s'.mem.headers k ≡ some (some (record { id = k; page_num = less k }))
  freed-header k h = elim (Bool-cases (i == k)) [
    | inl e ↦ absurd (ground arith)
    | inr e ↦ rw (e, f.headers) (o.header k (rw e at h))
  ]

  -- A block that is given back leaves the others as they were.
  pub Freed-Owns : Owns less s'
  Freed-Owns = record {
    sound = f.sound;
    small = omega (arith, f.size, o.small);
    exact = omega (
      arith,
      f.counter,
      f.count,
      o.exact,
      count_free-le s'.mem.pt.pages,
      f.sound.table.rows,
      f.sound.table.small,
    );
    inside = λ k h. ground (arith, o.inside k, f.len);
    header = freed-header;
    taken = freed-taken;
    apart = λ k l j a b. ground (arith, o.apart k l j);
    covered = freed-covered;
  }

-- A pool and its live blocks after one call of a client: a request that the free pages cover, which
-- returns a block, or the release of a live block.
pub data Step : Live × State → Live × State → Type 0 where
  request :
      {live : Live} {s s' : State} {ptr : ℕ} (bytes : ℕ)
      → 0 < bytes
      → bytes < s.mem.size
      → pages_for bytes ≤ s.mem.pt.free_page_num
      → g_allocate s bytes ≡ ok (some ptr, s')
      → Step (live, s) (update live ((ptr - header_size) / page_size) (pages_for bytes), s')
  release :
      {live : Live} {s s' : State} (own : Bool) (i : ℕ)
      → 0 < live i
      → g_deallocate own s (some (block_ptr i)) ≡ ok s'
      → Step (live, s) (update live i 0, s')

pub data Reach (a : Live × State) : Live × State → Type 0 where
  here : Reach a a
  next : {b c : Live × State} → Reach a b → Step b c → Reach a c

Search-Placed :
    {n : ℕ} {s : State} {r : Run (Option ℕ × State)} {ptr : ℕ} {s' : State}
    → Search n s r
    → r ≡ ok (some ptr, s')
    → Placed n s ptr s'
Search-Placed {n} {s} (placed p) e =
    let same = ok-injective e in
    let moved : Placed n s _ _ =
      subst (λ (t : Option ℕ × State). Placed n s (get t.0) t.1) same p in
    moved
  where
    get : Option ℕ → ℕ
    get none = 0
    get (some x) = x
Search-Placed (no_run none_at) e = cc

-- Every step keeps the pool exactly the live blocks.
pub Step-Owns : {a b : Live × State} → Step a b → Owns a.0 a.1 → Owns b.0 b.1
Step-Owns (request {live} {s} {s'} {ptr} bytes pos fits room run) o =
    let (some_pages, _, _, _) = pages_for_bounds bytes pos (omega (arith, o.small)) in
    let p = Search-Placed (g_allocate-Search s bytes o.sound pos fits o.small room) run in
    let start : (ptr - header_size) / page_size ≡ p.start = omega (arith, p.pointer) in
    rw start (Placed-Owns o some_pages p)
Step-Owns (release {live} {s} {s'} own i pos run) o =
    let (s2, run', f) =
      g_deallocate-Freed own s i (live i) o.sound (o.header i pos) (o.inside i pos)
        (λ j a b. o.taken i j (a, b)) in
    let same : s2 ≡ s' = ok-injective (sym run' ∙ run) in Freed-Owns o i (rw same at f)

-- From an exact pool, over any requests and releases that evict nothing, no page is ever in two
-- live blocks, and the free pages are counted exactly.
pub Reach-Owns : {a b : Live × State} → Owns a.0 a.1 → Reach a b → Owns b.0 b.1
Reach-Owns o here = o
Reach-Owns o (next r st) = Step-Owns st (Reach-Owns o r)
