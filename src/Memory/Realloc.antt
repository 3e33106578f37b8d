-- ===== src/Memory/Realloc.antt =====
-- `g_reallocate` of mem.c where the free pages cover the larger block.
use gaveta.Base.{
  ℕ, ◌+◌, ◌-◌, ◌*◌, ◌%◌, ◌^◌, ◌≤◌, ◌<◌, ◌≡◌, ◌≢◌, refl, ◌∙◌, ap, true, Option, some, arith, leb,
  ltb, Run, ok, exited, ◌>>=◌,
}
use gaveta.Memory.{
  u32, page_size, header_size, AllocHeader, State, memcpy, pages_for, g_allocate, g_reallocate,
}
use gaveta.Memory.Region.{IsRegion}
use gaveta.Memory.Place.{Search, placed, no_run}
use gaveta.Memory.Alloc.{g_allocate-Search, pages_for_bounds}
use gaveta.Memory.Dealloc.{block_ptr, get_header_lem, g_deallocate-Freed}
use gaveta.Memory.Blocks.{Live, update, Owns, Placed-Owns, Freed-Owns}

-- The bytes of a block of `n` pages, less the header.
abbrev pub payload : ℕ → ℕ
payload n = n * 1024 - 8

-- The new block is live in place of the old one, and begins with the bytes of the old one.
pub record Moved (live : Live) (s : State) (i bytes ptr : ℕ) (s' : State) : Type 0 where
  pub start : ℕ
  pub pointer : ptr ≡ block_ptr start
  pub owns : Owns (update (update live start (pages_for (payload (live i) + bytes))) i 0) s'
  pub kept : (k : ℕ) → k < payload (live i) → s'.mem.bytes (ptr + k) ≡ s.mem.bytes (block_ptr i + k)

pub data Reallocated (live : Live) (s : State) (i bytes : ℕ) : Run (Option ℕ × State) → Type 0 where
  moved :
      {ptr : ℕ} {s' : State}
      → Moved live s i bytes ptr s'
      → Reallocated live s i bytes (ok (some ptr, s'))
  gave_up :
      ((r : ℕ) → ¬ IsRegion (pages_for (payload (live i) + bytes)) r s.mem.pt.pages)
      → Reallocated live s i bytes exited

memcpy-in : (f : ℕ → ℕ) (to from n k : ℕ) → k < n → memcpy f to from n (to + k) ≡ f (from + k)
unfolding memcpy
memcpy-in f to from n k h =
    let lo : leb to (to + k) ≡ true = ground arith in
    let hi : ltb (to + k) (to + n) ≡ true = ground arith in
    let off : to + k - to ≡ k = omega arith in rw (lo, hi, off)

-- Ownership does not read the bytes of the pool.
abbrev with_bytes : State → (ℕ → ℕ) → State
with_bytes s f = record s { mem = record (s.mem) { bytes = f } }

Owns-with_bytes : {live : Live} {s : State} (f : ℕ → ℕ) → Owns live s → Owns live (with_bytes s f)
Owns-with_bytes f o = record {
  sound = record {
    open_s = o.sound.open_s;
    table = o.sound.table;
    hand = o.sound.hand;
    heads = o.sound.heads;
  };
  small = o.small;
  exact = o.exact;
  inside = o.inside;
  header = o.header;
  taken = o.taken;
  apart = o.apart;
  covered = o.covered;
}

module _ {live : Live} (s : State) (i bytes : ℕ) (o : Owns live s) (pos : 0 < live i)
    (more : 0 < payload (live i) + bytes) (fits : payload (live i) + bytes < s.mem.size)
    (room : pages_for (payload (live i) + bytes) ≤ s.mem.pt.free_page_num) where
  abbrev total : ℕ
  total = payload (live i) + bytes

  abbrev old : AllocHeader
  old = record { id = i; page_num = live i }

  old_size :
      ((live i * page_size % u32 + 2 ^ 64 - header_size) % u32 ≡ payload (live i))
      × ((payload (live i) + bytes) % u32 ≡ total)
  old_size = omega (arith, o.inside i pos, o.sound.table.small, o.small)

  finish :
      {r : Run (Option ℕ × State)}
      → Search (pages_for total) s r
      → g_allocate s total ≡ r
      → Reallocated live s i bytes (g_reallocate s (some (block_ptr i)) bytes)
  unfolding g_reallocate
  finish (no_run none_at) run =
      rw (get_header_lem s.mem i old (o.header i pos), ◌>>=◌, old_size.0, old_size.1, run)
        (gave_up none_at)
  finish (placed {ptr} {s' = s1} p) run =
      let n = pages_for total in
      let (some_pages, _, _, _) = pages_for_bounds total more (omega (arith, o.small)) in
      let f = memcpy s1.mem.bytes ptr (block_ptr i) (payload (live i)) in
      let o1 = Owns-with_bytes f (Placed-Owns o some_pages p) in
      let other : p.start ≢ i = λ e. ground (arith, p.region.1 i, o.taken i i) in
      let same : update live p.start n i ≡ live i = ground arith in
      let (s2, run2, freed) =
        g_deallocate-Freed true (with_bytes s1 f) i (update live p.start n i) o1.sound
          (o1.header i (omega arith)) (o1.inside i (omega arith)) (λ j a b. o1.taken i j (a, b)) in
      rw
        (
          get_header_lem s.mem i old (o.header i pos),
          ◌>>=◌,
          old_size.0,
          old_size.1,
          run,
          ◌>>=◌,
          old_size.0,
          run2,
        )
        (moved (record {
          start = p.start;
          pointer = p.pointer;
          owns = Freed-Owns o1 i freed;
          kept = λ k h. rw freed.bytes (
              memcpy-in s1.mem.bytes ptr (block_ptr i) (payload (live i)) k h
              ∙ ap (λ g. g (block_ptr i + k)) p.bytes);
        }))

  -- With the larger block covered by the free pages, `g_reallocate` moves the block: the new one is
  -- live in place of the old one and begins with its bytes. Or it exits, and no run of free pages is long
  -- enough for the larger block.
  pub g_reallocate-Reallocated :
      Reallocated live s i bytes (g_reallocate s (some (block_ptr i)) bytes)
  g_reallocate-Reallocated = finish (g_allocate-Search s total o.sound more fits o.small room) refl
