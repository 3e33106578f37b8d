-- ===== src/Memory/Tests.antt =====
-- Runs of the allocator on a pool of three pages, and the theorems at those states.
use gaveta.Base.{
  ℕ, zero, suc, ◌+◌, ◌-◌, ◌*◌, ◌/◌, ◌≤◌, ◌<◌, ◌≡◌, refl, true, false, Option, none, some, [], ◌∷◌,
  arith, replicate, Run, ok, fault, exited, blocked, unfinished, Returns,
}
use gaveta.Memory.{
  Page, State, sem_wait, sem_post, push_free_stack, clock_loop, second_chance, update_page, evict,
  make_room, region_free, first_fit, update_pages, pages_for, place, g_allocate, get_header,
  free_pages, g_deallocate, memcpy, g_reallocate,
}
use gaveta.Memory.Region.{free_at, count_free}
use gaveta.Memory.Inv.{IsSound, Chose, second_chance-Chose}
use gaveta.Memory.Place.{Search}
use gaveta.Memory.Alloc.{Ends, g_allocate-Ends, g_allocate-Search}
use gaveta.Memory.Dealloc.{block_ptr, Freed, g_deallocate-Freed}
use gaveta.Memory.Blocks.{Live, update, Owns, request, Reach, here, next, Reach-Owns}
use gaveta.Memory.Boot.{Libc, World, null, Booted, init_memory, init_memory-Booted}
use gaveta.Memory.Evict.{Overlap, g_allocate-Overlap}
use gaveta.Memory.Realloc.{Reallocated, g_reallocate-Reallocated}

program : Unit {0}
unfolding sem_wait sem_post push_free_stack clock_loop second_chance update_page evict make_room
    region_free first_fit update_pages pages_for place g_allocate get_header free_pages g_deallocate
    memcpy g_reallocate
program = tt

abbrev page : ℕ → Page
page i = record { id = i; p = i * 1024; free = true; used = false }

abbrev start : State
start = record {
  mem = record {
    memory_s = 1;
    pt = record {
      len = 3;
      free_page_num = 3;
      free_stack = 0 ∷ 1 ∷ 2 ∷ [];
      free_stack_top = 3;
      pages = page 0 ∷ page 1 ∷ page 2 ∷ [];
    };
    size = 3072;
    initialized = true;
    headers = none ∷ none ∷ none ∷ [];
    bytes = λ a. a;
  };
  hand = 0;
}

abbrev nothing : Live
nothing i = 0

start-IsSound : IsSound start
start-IsSound = omega arith

start-covered :
    (j : ℕ) → j < 3 → free_at start.mem.pt.pages j ≡ false → (i : ℕ) × (i ≤ j) × (j < i + 0)
start-covered zero h e = cc
start-covered (suc zero) h e = cc
start-covered (suc (suc zero)) h e = cc
start-covered (suc (suc (suc j))) h e = absurd (omega arith)

start-Owns : Owns nothing start
start-Owns = record {
  sound = start-IsSound;
  small = omega arith;
  exact = unfold count_free in refl;
  inside = λ i h. absurd (omega arith);
  header = λ i h. absurd (omega arith);
  taken = λ i j h. absurd (omega arith);
  apart = λ i k j a b. absurd (omega arith);
  covered = λ j h e. let (i, lo, hi) = start-covered j h e in (i, (lo, hi));
}

-- The state behind a run that returns.
abbrev after : Run (Option ℕ × State) → State
after (ok (p, s)) = s
after fault = start
after exited = start
after blocked = start
after unfinished = start

one : State
unfolding program
one = after (g_allocate start 1000)

two : State
unfolding program
two = after (g_allocate one 1000)

three : State
unfolding program
three = after (g_allocate two 1000)

one_runs : g_allocate start 1000 ≡ ok (some 8, one)
unfolding program one
one_runs = refl

two_runs : g_allocate one 1000 ≡ ok (some 1032, two)
unfolding program one two
two_runs = refl

three_runs : g_allocate two 1000 ≡ ok (some 2056, three)
unfolding program one two three
three_runs = refl

pages_needed : pages_for 1000 ≡ 1
unfolding pages_for
pages_needed = refl

abbrev all_live : Live
all_live =
    update
      (update (update nothing ((8 - 8) / 1024) (pages_for 1000)) ((1032 - 8) / 1024)
        (pages_for 1000))
      ((2056 - 8) / 1024) (pages_for 1000)

three_reached : Reach (nothing, start) (all_live, three)
unfolding program one two three
three_reached =
    next
      (next (next here (request 1000 (omega arith) (omega arith) (omega arith) one_runs))
        (request 1000 (omega arith) (omega arith) (omega arith) two_runs))
      (request 1000 (omega arith) (omega arith) (omega arith) three_runs)

Reach-Owns_example : Owns all_live three
Reach-Owns_example = Reach-Owns start-Owns three_reached

g_allocate-Ends_example : Ends (g_allocate three 1000)
g_allocate-Ends_example =
    g_allocate-Ends three 1000 Reach-Owns_example.sound Reach-Owns_example.small

g_allocate-Search_example : Search (pages_for 2000) start (g_allocate start 2000)
unfolding pages_for
g_allocate-Search_example =
    g_allocate-Search start 2000 start-IsSound (omega arith) (omega arith) (omega arith)
      (omega arith)

second_chance-Chose_example : Returns (second_chance start) (Chose start)
second_chance-Chose_example = second_chance-Chose start start-IsSound

-- Page 1, of the second block, is given back through a pool that the caller names.
g_deallocate-Freed_example :
    Returns (g_deallocate true three (some (block_ptr 1))) (Freed 1 1 three)
unfolding program one two three
g_deallocate-Freed_example =
    g_deallocate-Freed true three 1 1 (omega arith) refl (omega arith)
      (λ j a b. ground (arith, Reach-Owns_example.taken 1 j))

evicted : State
unfolding program one two three
evicted = after (g_allocate three 1000)

-- The fourth block of a full pool of three pages is page 1, which the second block holds.
g_allocate-Overlap_example : Overlap all_live (pages_for 1000) 1032
unfolding program one two three evicted
g_allocate-Overlap_example =
    g_allocate-Overlap three evicted 1000 1032 Reach-Owns_example (omega arith) refl

-- All pages used, and the clock hand at page 1: the clock goes round and finds none.
turned : State
unfolding program one two three
turned = record three { hand = 1 }

given_up : State
unfolding program one two three turned
given_up = after (second_chance turned)

-- The block at page 0 grows from one page to two, behind itself.
g_reallocate-Reallocated_example :
    Reallocated
      (update nothing 0 (pages_for 1000))
      one
      0
      900
      (g_reallocate one (some (block_ptr 0)) 900)
unfolding program one
g_reallocate-Reallocated_example =
    g_reallocate-Reallocated one 0 900
      (Reach-Owns start-Owns
        (next here (request 1000 (omega arith) (omega arith) (omega arith) one_runs)))
      (omega arith) (omega arith) (omega arith) (omega arith)

-- A C library that grants a pool of 17 pages.
abbrev libc : Libc
libc = record {
  mem = true;
  pool = true;
  sem_init = true;
  pages = some (replicate 17 (page 0));
  free_stack = some (replicate 17 0);
  bytes = λ a. 0;
}

abbrev world : World
world = record { global_mem_pool = null; hand = 0 }

init_memory-Booted_example : Returns (init_memory libc false 17500 world) (Booted 17500 world)
init_memory-Booted_example =
    init_memory-Booted libc 17500 world (replicate 17 (page 0)) (replicate 17 0) (omega arith)
      (record {
        mem = refl;
        pool = refl;
        sem = refl;
        cells = refl;
        slots = refl;
        pages_len = refl;
        stack_len = refl;
      })
      (omega arith)
