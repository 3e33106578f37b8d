-- ===== src/Memory/Evict.antt =====
-- What page replacement does to live blocks, to the counter and to the semaphore of mem.c.
use gaveta.Base.{
  ℕ, zero, suc, ◌+◌, ◌*◌, ◌≤◌, ◌<◌, ◌≡◌, refl, sym, ◌∙◌, ap, subst, inl, inr, true, false, Option,
  none, some, List, arith, leb, ltb, ◌==◌, length, get_elem?-none, Bool-cases, Run, ok, fault,
  ok-injective, ◌>>=◌, Returns,
}
use gaveta.Memory.{
  Page, State, sem_post, clock_loop, second_chance, evict, make_room, pages_for, set_taken,
  g_allocate,
}
use gaveta.Memory.Region.{
  free_at, count_free, count_free-le, free_at-lt, IsRegion, update_pages-Updated,
}
use gaveta.Memory.Inv.{IsSound, sem_wait-open, second_chance-Chose, evict-Evicted}
use gaveta.Memory.Place.{Placed, placed, no_run}
use gaveta.Memory.Alloc.{Via, searched, g_allocate-Via}
use gaveta.Memory.Blocks.{Live, In, Owns}

region_head : (i j : ℕ) (ps : List Page) → free_at ps i ≡ true → i ≡ j → free_at ps j ≡ true
region_head i j ps free e = rw e at free

find_taken :
    (n i : ℕ) (ps : List Page)
    → i + n ≤ length ps
    → ¬ IsRegion n i ps
    → (j : ℕ) × (i ≤ j) × (j < i + n) × (free_at ps j ≡ false)
find_taken zero i ps h miss = absurd (miss (h, λ j a b. absurd (omega arith)))
find_taken (suc n) i ps h miss = elim (Bool-cases (free_at ps i)) [
  | inr taken ↦ (i, omega arith, omega arith, taken)
  | inl free ↦
      let (j, lo, hi, t) =
        find_taken n (i + 1) ps (omega arith)
          (λ r. miss (h, λ j a b. ground (arith, r.1 j, region_head i j ps free))) in
      (j, omega arith, omega arith, t)
]

-- A free run is no longer than the count of free pages.
region-le : (n i : ℕ) (ps : List Page) → IsRegion n i ps → n ≤ count_free ps
region-le n i ps r =
    let (qs, run, u) = update_pages-Updated set_taken false (λ p. refl) n i true ps r.0 r.1 in
    omega (arith, u.count)

-- The block that was found, and a page that it shares with a live block.
pub record Overlap (live : Live) (n ptr : ℕ) : Type 0 where
  pub start : ℕ
  pub pointer : ptr ≡ start * 1024 + 8
  pub page : ℕ
  pub in_new : (start ≤ page) × (page < start + n)
  pub owner : ℕ
  pub in_old : In live owner page

shared-Overlap :
    {live : Live} {n : ℕ} {s s' t : State} {ptr : ℕ}
    → Owns live s
    → s.mem.pt.free_page_num < n
    → IsSound s'
    → s'.mem.pt.len ≡ s.mem.pt.len
    → Placed n s' ptr t
    → Overlap live n ptr
shared-Overlap {live} {n} {s} {s'} o short v e p =
    let (page, lo, hi, taken) =
      find_taken n p.start s.mem.pt.pages
        (omega (arith, p.region.0, v.table.rows, o.sound.table.rows))
        (λ r. omega (arith, region-le n p.start s.mem.pt.pages r, o.exact)) in
    let (owner, inside) = o.covered page (omega (arith, p.region.0, v.table.rows)) taken in
    record {
      start = p.start;
      pointer = p.pointer;
      page = page;
      in_new = (lo, hi);
      owner = owner;
      in_old = inside;
    }

Via-Overlap :
    {live : Live} {n : ℕ} {s : State} {r : Run (Option ℕ × State)} (ptr : ℕ) (t : State)
    → Owns live s
    → s.mem.pt.free_page_num < n
    → Via n s r
    → r ≡ ok (some ptr, t)
    → Overlap live n ptr
Via-Overlap ptr t o short (Via.null_sound v) run = cc
Via-Overlap ptr t o short (Via.null_posted e) run = cc
Via-Overlap {live} {n} ptr t o short (searched v e (placed p)) run =
    let same = ok-injective run in
    subst (λ (x : Option ℕ × State). Overlap live n (get x.0)) same (shared-Overlap o short v e p)
  where
    get : Option ℕ → ℕ
    get none = 0
    get (some x) = x
Via-Overlap ptr t o short (searched v e (no_run none_at)) run = cc

-- A block that `g_allocate` hands out for more pages than are free shares a page with a live block.
pub g_allocate-Overlap :
    {live : Live} (s s' : State) (bytes ptr : ℕ)
    → Owns live s
    → s.mem.pt.free_page_num < pages_for bytes
    → g_allocate s bytes ≡ ok (some ptr, s')
    → Overlap live (pages_for bytes) ptr
g_allocate-Overlap s s' bytes ptr o short run =
    Via-Overlap ptr s' o short (g_allocate-Via s bytes o.sound o.small) run

-- Evicting a page that is free already leaves the counter one above the count of free pages.
pub evict-drift :
    (page : ℕ) (s : State)
    → IsSound s
    → s.mem.pt.free_page_num ≡ count_free s.mem.pt.pages
    → free_at s.mem.pt.pages page ≡ true
    → Returns (evict page s) λ s'. s'.mem.pt.free_page_num ≡ count_free s'.mem.pt.pages + 1
evict-drift page s v exact free =
    let (s', run, e) =
      evict-Evicted page s v (omega (arith, free_at-lt s.mem.pt.pages page free, v.table.rows)) in
    (s', run, ground (arith, e.counter, e.count, count_free-le s.mem.pt.pages))

-- With a clock hand that an earlier, larger pool has left beyond the table, `second_chance` reads out
-- of range.
pub second_chance-stale :
    (s : State) → s.mem.memory_s ≡ 1 → length s.mem.pt.pages ≤ s.hand → second_chance s ≡ fault
unfolding second_chance clock_loop
second_chance-stale s e h =
    let fuel : s.mem.pt.len + 1 ≡ suc s.mem.pt.len = omega arith in
    rw (sem_wait-open s e, ◌>>=◌, fuel, get_elem?-none s.mem.pt.pages s.hand h, clock_loop)

-- When the clock finds no page, the failed request leaves the semaphore at two.
pub g_allocate-posts :
    (s s' : State) (bytes : ℕ)
    → IsSound s
    → 0 < bytes
    → bytes < s.mem.size
    → s.mem.pt.free_page_num < pages_for bytes
    → second_chance s ≡ ok (none, s')
    → (g_allocate s bytes ≡ ok (none, sem_post s')) × ((sem_post s').mem.memory_s ≡ 2)
unfolding g_allocate make_room sem_post
g_allocate-posts s s' bytes v pos fits short run =
    let n = pages_for bytes in
    let nz : (bytes == 0) ≡ false = ground arith in
    let inside : leb s.mem.size bytes ≡ false = ground arith in
    let lacking : ltb s.mem.pt.free_page_num n ≡ true = ground arith in
    let fuel : n + 1 ≡ suc n = omega arith in
    let (out, run', c) = second_chance-Chose s v in
    let same : out ≡ (none, s') = ok-injective (sym run' ∙ run) in
    let open_s : s'.mem.memory_s ≡ 1 =
      ap (λ (x : Option ℕ × State). x.1.mem.memory_s) (sym same) ∙ c.sound.open_s in
    (rw (nz, inside, fuel, make_room, lacking, run), omega (arith, open_s))
