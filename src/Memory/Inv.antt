-- ===== src/Memory/Inv.antt =====
-- The shape of a pool that every operation of mem.c relies on, and the operations that keep it.
use gaveta.Base.{
  ℕ, ◌+◌, ◌-◌, ◌%◌, ◌^◌, ◌≤◌, ◌<◌, ◌≡◌, refl, true, false, Option, some, arith, ◌==◌, if◌then◌else◌,
  length, length-set, ok, ◌>>=◌, Returns,
}
use gaveta.Memory.{
  u32, PageTable, State, with_pt, sem_wait, sem_post, push_free_stack, second_chance, set_free,
  evict,
}
use gaveta.Memory.Region.{free_at, to_nat, count_free, update_page_lem}
use gaveta.Memory.Clock.{clock_loop-Turned, count_used-le}

-- The page table by itself.
pub record IsTable (t : PageTable) : Type 0 where
  pub rows : length t.pages ≡ t.len
  pub pos : 0 < t.len
  pub small : t.len < 2 ^ 22
  pub stack : length t.free_stack ≡ t.len
  pub top : t.free_stack_top ≤ t.len
  pub counter : t.free_page_num < u32

-- The semaphore is open, and the clock hand and the headers fit the table.
pub record IsSound (s : State) : Type 0 where
  pub open_s : s.mem.memory_s ≡ 1
  pub table : IsTable s.mem.pt
  pub hand : s.hand < s.mem.pt.len
  pub heads : length s.mem.headers ≡ s.mem.pt.len

pub push_free_stack-IsTable : (t : PageTable) (i : ℕ) → IsTable t → IsTable (push_free_stack t i)
unfolding push_free_stack
push_free_stack-IsTable t i v = ground (arith, length-set t.free_stack t.free_stack_top i)

pub push_free_stack-same :
    (t : PageTable) (i : ℕ)
    → ((push_free_stack t i).pages ≡ t.pages)
      × ((push_free_stack t i).len ≡ t.len)
      × ((push_free_stack t i).free_page_num ≡ t.free_page_num)
unfolding push_free_stack
push_free_stack-same t i = ground arith

-- One call of `second_chance`: sound again, the chosen page in range, no `free` flag changed.
pub record Chose (s : State) (out : Option ℕ × State) : Type 0 where
  pub sound : IsSound out.1
  pub page : (v : ℕ) → out.0 ≡ some v → v < s.mem.pt.len
  pub flags : (j : ℕ) → free_at out.1.mem.pt.pages j ≡ free_at s.mem.pt.pages j
  pub len : out.1.mem.pt.len ≡ s.mem.pt.len
  pub counter : out.1.mem.pt.free_page_num ≡ s.mem.pt.free_page_num

abbrev pub waited : State → State
waited s = record s { mem = record (s.mem) { memory_s = s.mem.memory_s - 1 } }

pub sem_wait-open : (s : State) → s.mem.memory_s ≡ 1 → sem_wait s ≡ ok (waited s)
unfolding sem_wait
sem_wait-open s e = let e' : (s.mem.memory_s == 0) ≡ false = ground arith in rw e'

-- From a sound pool `second_chance` returns: the loop ends within the fuel of one round and one page
-- more, and what it returns and leaves is as `Chose` says, a page in range or none.
pub second_chance-Chose : (s : State) → IsSound s → Returns (second_chance s) (Chose s)
unfolding second_chance sem_post
second_chance-Chose s v =
    let t = s.mem.pt in
    let (out, run, turned) =
      clock_loop-Turned (t.len + 1) t.len s.hand s.hand t.pages v.table.rows v.hand
        (omega (arith, count_used-le t.pages, v.table.rows)) in
    (
      (out.0, sem_post (record (with_pt (waited s) (record t { pages = out.2 })) { hand = out.1 })),
      rw (sem_wait-open s v.open_s, ◌>>=◌, run),
      record {
        sound = ground arith;
        page = turned.chosen;
        flags = turned.flags;
        len = refl;
        counter = refl;
      },
    )

-- The eviction of page `v`: it is marked free whatever it held, and the counter goes up by one.
pub record Evicted (page : ℕ) (s s' : State) : Type 0 where
  pub sound : IsSound s'
  pub flags :
      (j : ℕ) → free_at s'.mem.pt.pages j ≡ (if page == j then true else free_at s.mem.pt.pages j)
  pub len : s'.mem.pt.len ≡ s.mem.pt.len
  pub counter : s'.mem.pt.free_page_num ≡ (s.mem.pt.free_page_num + 1) % u32
  pub count :
      count_free s'.mem.pt.pages + to_nat (free_at s.mem.pt.pages page)
      ≡ count_free s.mem.pt.pages + 1

pub evict-Evicted :
    (page : ℕ) (s : State)
    → IsSound s
    → page < s.mem.pt.len
    → Returns (evict page s) (Evicted page s)
unfolding evict sem_post
evict-Evicted page s v h =
    let t = s.mem.pt in
    let (ps, run, (width, same, count)) =
      update_page_lem set_free true (λ p. refl) page t.pages (omega (arith, v.table.rows)) in
    let t' : PageTable = record t { free_page_num = (t.free_page_num + 1) % u32; pages = ps } in
    let sound : IsTable t' = ground arith in
    let (e1, e2, e3) = push_free_stack-same t' page in
    (
      with_pt (sem_post (with_pt (waited s) t')) (push_free_stack t' page),
      rw (sem_wait-open s v.open_s, ◌>>=◌, run),
      record {
        sound = record {
          open_s = ground arith;
          table = push_free_stack-IsTable t' page sound;
          hand = ground arith;
          heads = ground arith;
        };
        flags = λ j. rw e1 (same j);
        len = e2;
        counter = e3;
        count = rw e1 count;
      },
    )
