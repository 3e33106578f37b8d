-- ===== src/Memory/Place.antt =====
-- `g_allocate` of mem.c: the search for a run of free pages, and the whole call.
use gaveta.Base.{
  ℕ, zero, suc, ◌+◌, ◌-◌, ◌*◌, ◌^◌, ◌≤◌, ◌<◌, ◌≡◌, refl, ◌∙◌, inl, inr, ◌≢◌, Bool, true, false,
  Option, none, some, arith, ltb, if◌then◌else◌, get_elem?, length-set, get_elem?-set_self,
  get_elem?-set_ne, Bool-cases, Option-cases, Run, ok, exited, ◌>>=◌, Returns,
}
use gaveta.Memory.{
  u32, page_size, header_size, PageTable, AllocHeader, State, sem_post, set_taken, make_room, place,
  first_fit,
}
use gaveta.Memory.Region.{
  free_at, count_free, within, IsRegion, update_pages-Updated, Scan, found, full, first_fit-Scan,
}
use gaveta.Memory.Inv.{IsSound, sem_wait-open, second_chance-Chose, evict-Evicted}

-- What a successful search of `n` pages leaves: the first free run, now taken, under its header.
pub record Placed (n : ℕ) (s : State) (ptr : ℕ) (s' : State) : Type 0 where
  pub start : ℕ
  pub pointer : ptr ≡ start * page_size + header_size
  pub region : IsRegion n start s.mem.pt.pages
  pub first : (j : ℕ) → j < start → ¬ IsRegion n j s.mem.pt.pages
  pub sound : IsSound s'
  pub len : s'.mem.pt.len ≡ s.mem.pt.len
  pub flags :
      (j : ℕ)
      → free_at s'.mem.pt.pages j ≡ (if within start n j then false else free_at s.mem.pt.pages j)
  pub header : get_elem? s'.mem.headers start ≡ some (some (record { id = start; page_num = n }))
  pub others : (j : ℕ) → start ≢ j → get_elem? s'.mem.headers j ≡ get_elem? s.mem.headers j
  pub counter : s'.mem.pt.free_page_num + n ≡ s.mem.pt.free_page_num
  pub count : count_free s'.mem.pt.pages + n ≡ count_free s.mem.pt.pages
  pub bytes : s'.mem.bytes ≡ s.mem.bytes
  pub size : s'.mem.size ≡ s.mem.size

-- `exit(1)` happens exactly when there is no run of `n` free pages.
pub data Search (n : ℕ) (s : State) : Run (Option ℕ × State) → Type 0 where
  placed : {ptr : ℕ} {s' : State} → Placed n s ptr s' → Search n s (ok (some ptr, s'))
  no_run : ((i : ℕ) → ¬ IsRegion n i s.mem.pt.pages) → Search n s exited

module _ (n : ℕ) (s : State) (v : IsSound s) (pos : 0 < n) (small : n ≤ 2 ^ 23)
    (room : n ≤ s.mem.pt.free_page_num) where
  abbrev t : PageTable
  t = s.mem.pt

  place_at :
      (r : ℕ)
      → IsRegion n r t.pages
      → ((j : ℕ) → j < r → ¬ IsRegion n j t.pages)
      → first_fit t.len 0 n t.len t.pages ≡ ok (some r)
      → Search n s (place n s)
  unfolding place sem_post
  place_at r region before run =
      let (ps, run', u) =
        update_pages-Updated set_taken false (λ p. refl) n r true t.pages region.0 region.1 in
      let h : AllocHeader = record { id = r; page_num = n } in
      rw (sem_wait-open s v.open_s, ◌>>=◌, run, run')
        (placed (record {
          start = r;
          pointer = refl;
          region = region;
          first = before;
          sound = ground (arith, u.width, length-set s.mem.headers r (some h));
          len = refl;
          flags = u.flags;
          header =
              get_elem?-set_self s.mem.headers r (some h)
                (omega (arith, v.heads, v.table.rows, region.0));
          others = λ j ne. get_elem?-set_ne s.mem.headers r j (some h) ne;
          counter = omega (arith, v.table.counter);
          count = omega (arith, u.count);
          bytes = refl;
          size = refl;
        }))

  place-none :
      ((i : ℕ) → ¬ IsRegion n i t.pages)
      → first_fit t.len 0 n t.len t.pages ≡ ok none
      → Search n s (place n s)
  unfolding place
  place-none none_at run = rw (sem_wait-open s v.open_s, ◌>>=◌, run) (no_run none_at)

  place_scanned :
      {o : Option ℕ}
      → Scan t.len 0 n t.pages o
      → first_fit t.len 0 n t.len t.pages ≡ ok o
      → Search n s (place n s)
  place_scanned (found r a region before) run =
      place_at r region (λ j below. before j (omega arith) below) run
  place_scanned (full all) run =
      place-none (λ i region. all i (omega arith) (omega (arith, region.0, v.table.rows)) region)
        run

  -- With the semaphore open and `n` pages counted as free, `place` either takes the first run of
  -- `n` free pages or exits because there is none.
  pub place-Search : Search n s (place n s)
  place-Search =
      let (o, run, scan) =
        first_fit-Scan t.len 0 n t.pages
          (omega (arith, v.table.rows, v.table.small, v.table.counter))
          (omega (arith, v.table.rows)) in
      place_scanned scan (rw v.table.rows at run)

-- The `while` of `g_allocate`. It ends: with room for `n` pages, or on the path that posts the
-- semaphore without having waited for it.
pub record Made (n : ℕ) (s : State) (out : Bool × State) : Type 0 where
  pub roomy : out.0 ≡ true → IsSound out.1 × (n ≤ out.1.mem.pt.free_page_num)
  pub posted : out.0 ≡ false → out.1.mem.memory_s ≡ 2
  pub len : out.1.mem.pt.len ≡ s.mem.pt.len

pub make_room-Made :
    (k n : ℕ) (s : State)
    → IsSound s
    → n < u32
    → n - s.mem.pt.free_page_num < k
    → Returns (make_room k n s) (Made n s)
unfolding make_room sem_post
make_room-Made zero n s v small fuel = absurd (omega arith)
make_room-Made (suc k) n s v small fuel = elim (Bool-cases (ltb s.mem.pt.free_page_num n)) [
  | inr enough ↦ (
    (true, s),
    rw (enough, make_room),
    record { roomy = λ _. (v, ground arith); posted = λ e. cc; len = refl },
  )
  | inl short ↦
      let ((r, s'), run, c) = second_chance-Chose s v in
      elim (Option-cases r) [
        | inl e ↦ (
          (false, sem_post s'),
          rw (short, make_room, run, ◌>>=◌, e),
          record { roomy = λ q. cc; posted = λ _. omega (arith, c.sound.open_s); len = c.len },
        )
        | inr (page, e) ↦
            let (s2, run2, ev) =
              evict-Evicted page s' c.sound (omega (arith, c.page page e, c.len)) in
            let (out, run3, m) =
              make_room-Made k n s2 ev.sound small
                (ground (arith, ev.counter, c.counter, v.table.counter)) in
            (
              out,
              rw (short, make_room, run, ◌>>=◌, e, run2) run3,
              record { roomy = m.roomy; posted = m.posted; len = m.len ∙ ev.len ∙ c.len },
            )
      ]
]
