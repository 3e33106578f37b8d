-- ===== src/Memory/Clock.antt =====
-- The second-chance clock of mem.c: it terminates, and what it chooses.
use gaveta.Base.{
  ℕ, zero, suc, ◌+◌, ◌%◌, ◌≤◌, ◌<◌, ◌≡◌, refl, ◌∙◌, inl, inr, false, Option, none, some, List, [],
  ◌∷◌, arith, ◌==◌, length, get_elem?, set, length-set, get_elem?-total, Bool-cases, Returns,
}
use gaveta.Memory.{Page, clock_loop}
use gaveta.Memory.Region.{free_at, to_nat}

pub count_used : List Page → ℕ
count_used [] = 0
count_used (p ∷ ps) = to_nat p.used + count_used ps

pub count_used-le : (ps : List Page) → count_used ps ≤ length ps
unfolding count_used
count_used-le [] = omega arith
count_used-le (p ∷ ps) = ground (arith, count_used-le ps)

abbrev clear : Page → Page
clear p = record p { used = false }

count_used-clear :
    (ps : List Page) (i : ℕ) (p : Page)
    → get_elem? ps i ≡ some p
    → count_used (set ps i (clear p)) + to_nat p.used ≡ count_used ps
unfolding count_used
count_used-clear [] i p e = cc
count_used-clear (q ∷ ps) zero p e = ground arith
count_used-clear (q ∷ ps) (suc i) p e = omega (arith, count_used-clear ps i p e)

free_at-clear :
    (ps : List Page) (i j : ℕ) (p : Page)
    → get_elem? ps i ≡ some p
    → free_at (set ps i (clear p)) j ≡ free_at ps j
free_at-clear [] i j p e = cc
free_at-clear (q ∷ ps) zero zero p e = ground arith
free_at-clear (q ∷ ps) zero (suc j) p e = refl
free_at-clear (q ∷ ps) (suc i) zero p e = refl
free_at-clear (q ∷ ps) (suc i) (suc j) p e = free_at-clear ps i j p e

-- What a turn of the clock leaves: a page number in range, if any, and the same `free` flags.
pub record Turned (len : ℕ) (ps : List Page) (out : Option ℕ × ℕ × List Page) : Type 0 where
  pub chosen : (v : ℕ) → out.0 ≡ some v → v < len
  pub hand : out.1 < len
  pub width : length out.2 ≡ len
  pub flags : (j : ℕ) → free_at out.2 j ≡ free_at ps j

-- Each round that goes on clears a `used` flag, so one round more than there are such flags ends it.
pub clock_loop-Turned :
    (k len start curr : ℕ) (ps : List Page)
    → length ps ≡ len
    → curr < len
    → count_used ps < k
    → Returns (clock_loop k len start curr ps) (Turned len ps)
unfolding clock_loop
clock_loop-Turned zero len start curr ps w h fuel = absurd (omega arith)
clock_loop-Turned (suc k) len start curr ps w h fuel =
    let (p, e) = get_elem?-total ps curr (omega arith) in
    let next : (curr + 1) % len < len = omega arith in
    let width : length (set ps curr (clear p)) ≡ len = length-set ps curr (clear p) ∙ w in
    elim (Bool-cases p.used) [
      | inr u ↦ (
        (some ((curr + 1) % len), (curr + 1) % len, set ps curr (clear p)),
        rw (e, clock_loop, u),
        record {
          chosen = λ v q. ground arith;
          hand = next;
          width = width;
          flags = λ j. free_at-clear ps curr j p e;
        },
      )
      | inl u ↦ elim (Bool-cases (suc ((curr + 1) % len) == start)) [
        | inl stop ↦ (
          (none, ((curr + 1) % len + 1) % len, set ps curr (clear p)),
          rw (e, clock_loop, u, stop),
          record {
            chosen = λ v q. cc;
            hand = omega arith;
            width = width;
            flags = λ j. free_at-clear ps curr j p e;
          },
        )
        | inr go ↦
            let (out, run, t) =
              clock_loop-Turned k len start ((curr + 1) % len) (set ps curr (clear p)) width next
                (ground (arith, count_used-clear ps curr p e)) in
            (
              out,
              rw (e, clock_loop, u, go) run,
              record {
                chosen = t.chosen;
                hand = t.hand;
                width = t.width;
                flags = λ j. t.flags j ∙ free_at-clear ps curr j p e;
              },
            )
      ]
    ]
