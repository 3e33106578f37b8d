-- ===== src/Memory/Region.antt =====
-- Runs of pages: what the loops of mem.c over the page table do to the `free` flags.
use gaveta.Base.{
  ℕ, zero, suc, ◌+◌, ◌*◌, ◌%◌, ◌≤◌, ◌<◌, ◌≡◌, refl, ap, ◌∙◌, ◌↔◌, inl, inr, Bool, true, false, ◌&&◌,
  Option, none, some, List, [], ◌∷◌, arith, ltb, leb, ◌==◌, if◌then◌else◌, length, get_elem?,
  get_elem?-total, ==_iff, Bool-cases, Returns,
}
use gaveta.Memory.{Page, update_page, update_pages, region_free, first_fit, u32}

-- Is page `j` there, and marked free?
abbrev pub free_at : List Page → ℕ → Bool
free_at [] j = false
free_at (p ∷ ps) zero = p.free
free_at (p ∷ ps) (suc j) = free_at ps j

abbrev pub to_nat : Bool → ℕ
to_nat true = 1
to_nat false = 0

unfoldable pub count_free : List Page → ℕ
count_free [] = 0
count_free (p ∷ ps) = to_nat p.free + count_free ps

pub count_free-le : (ps : List Page) → count_free ps ≤ length ps
unfolding count_free
count_free-le [] = omega arith
count_free-le (p ∷ ps) = ground (arith, count_free-le ps)

-- The pages i, …, i + n - 1 exist and are free.
abbrev pub IsRegion : ℕ → ℕ → List Page → Type 0
IsRegion n i ps = (i + n ≤ length ps) × ((j : ℕ) → i ≤ j → j < i + n → free_at ps j ≡ true)

unfoldable pub within : ℕ → ℕ → ℕ → Bool
within i n j = leb i j && ltb j (i + n)

pub free_at-lt : (ps : List Page) (j : ℕ) → free_at ps j ≡ true → j < length ps
free_at-lt [] j h = cc
free_at-lt (p ∷ ps) zero h = omega arith
free_at-lt (p ∷ ps) (suc j) h = omega (arith, free_at-lt ps j h)

pub get-free_at :
    (ps : List Page) (j : ℕ) (p : Page) → get_elem? ps j ≡ some p → free_at ps j ≡ p.free
get-free_at [] j p e = cc
get-free_at (q ∷ ps) zero p e = ground arith
get-free_at (q ∷ ps) (suc j) p e = get-free_at ps j p e

-- A page, or a run of pages, updated by a function that sets the flag to `v`.
module _ (f : Page → Page) (v : Bool) (sets : (p : Page) → (f p).free ≡ v) where
  pub update_page_lem :
      (i : ℕ) (ps : List Page)
      → i < length ps
      → Returns (update_page f i ps) λ qs.
        (length qs ≡ length ps)
        × ((j : ℕ) → free_at qs j ≡ (if i == j then v else free_at ps j))
        × (count_free qs + to_nat (free_at ps i) ≡ count_free ps + to_nat v)
  unfolding update_page count_free
  update_page_lem i [] h = absurd (omega arith)
  update_page_lem zero (p ∷ ps) h = (f p ∷ ps, refl, (refl, flags, ground (arith, sets p)))
    where
      flags : (j : ℕ) → free_at (f p ∷ ps) j ≡ (if 0 == j then v else free_at (p ∷ ps) j)
      flags zero = sets p
      flags (suc j) = ground arith
  update_page_lem (suc i) (p ∷ ps) h =
      let (qs, run, (width, same, count)) = update_page_lem i ps (omega arith) in
      (p ∷ qs, rw run, (ap suc width, flags qs same, omega arith))
    where
      flags :
          (qs : List Page)
          → ((j : ℕ) → free_at qs j ≡ (if i == j then v else free_at ps j))
          → (j : ℕ) → free_at (p ∷ qs) j ≡ (if suc i == j then v else free_at (p ∷ ps) j)
      flags qs same zero = ground arith
      flags qs same (suc j) = ground (arith, same j)

  pub record Updated (n i : ℕ) (w : Bool) (ps qs : List Page) : Type 0 where
    pub width : length qs ≡ length ps
    pub flags : (j : ℕ) → free_at qs j ≡ (if within i n j then v else free_at ps j)
    pub count : count_free qs + n * to_nat w ≡ count_free ps + n * to_nat v

  -- The loop over a run in range, all of whose flags are `w`, does not fault and sets them to `v`.
  pub update_pages-Updated :
      (n i : ℕ) (w : Bool) (ps : List Page)
      → i + n ≤ length ps
      → ((j : ℕ) → i ≤ j → j < i + n → free_at ps j ≡ w)
      → Returns (update_pages f n i ps) (Updated n i w ps)
  unfolding update_pages within
  update_pages-Updated zero i w ps h all =
      (ps, refl, record { width = refl; flags = λ j. ground arith; count = omega arith })
  update_pages-Updated (suc n) i w ps h all =
      let (qs, run, (width, same, count)) = update_page_lem i ps (omega arith) in
      let first : free_at ps i ≡ w = all i (omega arith) (omega arith) in
      let (rs, run', u) =
        update_pages-Updated n (i + 1) w qs (omega arith)
          (λ j a b. ground (arith, same j, all j)) in
      (
        rs,
        rw run run',
        record {
          width = u.width ∙ width;
          flags = λ j. ground (arith, u.flags j, same j);
          count = omega (arith, ap to_nat first);
        },
      )

-- The inner loop of the scan answers whether the pages are free, and does not fault in range.
pub region_free-true :
    (n i : ℕ) (ps : List Page)
    → i + n ≤ length ps
    → Returns (region_free n i ps) λ b. (b ≡ true) ↔ IsRegion n i ps
unfolding region_free
region_free-true zero i ps h =
    (true, refl, ((λ _. (h, λ j a b. absurd (omega arith))), (λ _. refl)))
region_free-true (suc n) i ps h =
    let (p, e) = get_elem?-total ps i (omega arith) in
    let same : free_at ps i ≡ p.free = get-free_at ps i p e in
    let (b, run, (there, back)) = region_free-true n (i + 1) ps (omega arith) in
    elim (Bool-cases p.free) [
      | inr taken ↦ (false, rw (e, region_free, taken), ((λ c. cc), (λ r. ground (arith, r.1 i))))
      | inl free ↦ (
        b,
        rw (e, region_free, free) run,
        (
          (λ t. (h, λ j x y. ground (arith, (there t).1 j))),
          (λ r. back (omega arith, λ j x y. r.1 j (omega arith) (omega arith))),
        ),
      )
    ]

-- The scan finds the first free run, and says so when there is none.
pub data Scan (k i n : ℕ) (ps : List Page) : Option ℕ → Type 0 where
  found :
      (r : ℕ)
      → i ≤ r
      → IsRegion n r ps
      → ((j : ℕ) → i ≤ j → j < r → ¬ IsRegion n j ps)
      → Scan k i n ps (some r)
  full : ((j : ℕ) → i ≤ j → j < i + k → ¬ IsRegion n j ps) → Scan k i n ps none

from_next :
    (i n : ℕ) (ps : List Page)
    → ¬ IsRegion n i ps
    → (j : ℕ) → i ≤ j
    → (i + 1 ≤ j → ¬ IsRegion n j ps)
    → ¬ IsRegion n j ps
from_next i n ps miss j x later = elim (Bool-cases (i == j)) [
  | inl e ↦ rw ((==_iff i j).0 e) at miss
  | inr e ↦ later (ground arith)
]

Scan-step :
    {k i n : ℕ} {ps : List Page} {o : Option ℕ}
    → ¬ IsRegion n i ps
    → Scan k (i + 1) n ps o
    → Scan (suc k) i n ps o
Scan-step {i = i} {n} {ps} miss (found r a reg before) =
    found r (omega arith) reg λ j x y. from_next i n ps miss j x λ z. before j z y
Scan-step {i = i} {n} {ps} miss (full all) =
    full λ j x y. from_next i n ps miss j x λ z. all j z (omega arith)

pub first_fit-Scan :
    (k i n : ℕ) (ps : List Page)
    → length ps + n < u32
    → i + k ≤ length ps
    → Returns (first_fit k i n (length ps) ps) (Scan k i n ps)
unfolding first_fit
first_fit-Scan zero i n ps h hi = (none, refl, full λ j a b. absurd (omega arith))
first_fit-Scan (suc k) i n ps h hi = elim (Bool-cases (ltb (length ps) ((i + n) % u32))) [
  | inl past ↦ (none, rw (past, first_fit), full λ j a b r. ground arith)
  | inr fits ↦
      let inside : i + n ≤ length ps = ground arith in
      let (b, run, (there, back)) = region_free-true n i ps inside in
      elim (Bool-cases b) [
        | inl t ↦ (
          some i,
          rw (fits, first_fit, run, t),
          found i (omega arith) (there t) λ j a c. absurd (omega arith),
        )
        | inr t ↦
            let none_here : ¬ IsRegion n i ps = λ r. cc (back r) in
            let (o, run', scan) = first_fit-Scan k (i + 1) n ps h (omega arith) in
            (o, rw (fits, first_fit, run, t) run', Scan-step none_here scan)
      ]
]
