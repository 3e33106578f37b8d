-- ===== src/Memory/Alloc.antt =====
-- `g_allocate` of mem.c as a whole: every path, and the path without eviction.
use gaveta.Base.{
  ℕ, suc, ◌+◌, ◌*◌, ◌^◌, ◌≤◌, ◌<◌, ◌≡◌, inl, inr, true, false, Option, none, some, arith, ltb, leb,
  ◌==◌, Bool-cases, Run, ok, exited, ◌>>=◌,
}
use gaveta.Memory.{u32, State, make_room, pages_for, g_allocate}
use gaveta.Memory.Inv.{IsSound}
use gaveta.Memory.Place.{Search, placed, no_run, place-Search, make_room-Made}

pub pages_for_bounds :
    (bytes : ℕ)
    → 0 < bytes
    → bytes < u32
    → (0 < pages_for bytes)
      × (pages_for bytes ≤ 2 ^ 23)
      × (bytes + 8 ≤ pages_for bytes * 1024)
      × (pages_for bytes * 1024 < bytes + 1032)
unfolding pages_for
pages_for_bounds bytes pos small = omega arith

-- How `g_allocate` may end: NULL with the pool sound, or with the semaphore posted once too often;
-- a block, with the pool sound; or `exit(1)`.
pub data Ends : Run (Option ℕ × State) → Type 0 where
  null_sound : {s : State} → IsSound s → Ends (ok (none, s))
  null_posted : {s : State} → s.mem.memory_s ≡ 2 → Ends (ok (none, s))
  block : {ptr : ℕ} {s : State} → IsSound s → Ends (ok (some ptr, s))
  gave_up : Ends exited

-- What the call does in every case: NULL, or the search in a sound pool of as many pages, which the
-- evictions have left.
pub data Via (n : ℕ) (s : State) : Run (Option ℕ × State) → Type 0 where
  null_sound : {s' : State} → IsSound s' → Via n s (ok (none, s'))
  null_posted : {s' : State} → s'.mem.memory_s ≡ 2 → Via n s (ok (none, s'))
  searched :
      {s' : State} {r : Run (Option ℕ × State)}
      → IsSound s'
      → s'.mem.pt.len ≡ s.mem.pt.len
      → Search n s' r
      → Via n s r

pub g_allocate-Via :
    (s : State) (bytes : ℕ)
    → IsSound s
    → s.mem.size < u32
    → Via (pages_for bytes) s (g_allocate s bytes)
unfolding g_allocate
g_allocate-Via s bytes v small = elim (Bool-cases (bytes == 0)) [
  | inl z ↦ rw z (Via.null_sound v)
  | inr nz ↦ elim (Bool-cases (leb s.mem.size bytes)) [
    | inl big ↦ rw (nz, big) (Via.null_sound v)
    | inr fits ↦
        let n = pages_for bytes in
        let (pos, few, _, _) = pages_for_bounds bytes (ground arith) (ground arith) in
        let ((room, s'), run, m) = make_room-Made (n + 1) n s v (omega arith) (omega arith) in
        elim (Bool-cases room) [
          | inl yes_room ↦
              let (sound, enough) = m.roomy yes_room in
              rw (nz, fits, run, ◌>>=◌, yes_room)
                (searched sound m.len (place-Search n s' sound pos few enough))
          | inr no_room ↦ rw (nz, fits, run, ◌>>=◌, no_room) (Via.null_posted (m.posted no_room))
        ]
  ]
]

Search-Ends : {n : ℕ} {s : State} {r : Run (Option ℕ × State)} → Search n s r → Ends r
Search-Ends (placed p) = block p.sound
Search-Ends (no_run none_at) = gave_up

Via-Ends : {n : ℕ} {s : State} {r : Run (Option ℕ × State)} → Via n s r → Ends r
Via-Ends (null_sound v) = Ends.null_sound v
Via-Ends (null_posted e) = Ends.null_posted e
Via-Ends (searched v e found) = Search-Ends found

-- From a sound pool `g_allocate` terminates and neither faults nor blocks, whatever is asked for.
pub g_allocate-Ends :
    (s : State) (bytes : ℕ) → IsSound s → s.mem.size < u32 → Ends (g_allocate s bytes)
g_allocate-Ends s bytes v small = Via-Ends (g_allocate-Via s bytes v small)

-- With as many pages counted free as the request takes, nothing is evicted: the call is the search.
pub g_allocate-Search :
    (s : State) (bytes : ℕ)
    → IsSound s
    → 0 < bytes
    → bytes < s.mem.size
    → s.mem.size < u32
    → pages_for bytes ≤ s.mem.pt.free_page_num
    → Search (pages_for bytes) s (g_allocate s bytes)
unfolding g_allocate make_room
g_allocate-Search s bytes v pos fits small room =
    let n = pages_for bytes in
    let (some_pages, few, _, _) = pages_for_bounds bytes pos (omega arith) in
    let nz : (bytes == 0) ≡ false = ground arith in
    let inside : leb s.mem.size bytes ≡ false = ground arith in
    let enough : ltb s.mem.pt.free_page_num n ≡ false = ground arith in
    let made : make_room (n + 1) n s ≡ ok (true, s) =
      let e : n + 1 ≡ suc n = omega arith in rw (e, make_room, enough) in
    rw (nz, inside, made) (place-Search n s v some_pages few room)
