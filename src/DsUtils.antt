-- ===== src/DsUtils.antt =====
-- src/modules/ds/ds_utils.c: the comparisons of entries, and the text form of 32-bit numbers, with the
-- loop of `read_ll_from_disk` (src/modules/ds/GenericLinkedList.c) that reads it. The text is that of
-- `fprintf` and `fscanf`: decimal digits.
pub mod Numbers
mod Tests
use gaveta.Base.{
  ℕ, zero, suc, ◌+◌, ◌-◌, ◌*◌, ◌/◌, ◌%◌, ◌^◌, ◌≤◌, ◌<◌, ◌≡◌, ◌≢◌, refl, sym, ◌∙◌, ap, ap₂, subst,
  Bool, true, false, ◌||◌, ◌&&◌, Option, none, some, List, [], ◌∷◌, ◌++◌, append_assoc, arith, ltb,
  leb, ◌==◌, if◌then◌else◌, length, Bool-cases, inl, inr, Run, ok, fault, exited, unfinished, ◌>>=◌,
}
use gaveta.Heap.{Bytes}
use gaveta.BTree.{strcmp}
use gaveta.BTree.Search.{is_eq}

-- The 32 bits at a pointer, the lowest byte first.
pub u32_at : Bytes → Run ℕ
u32_at (a ∷ b ∷ c ∷ d ∷ rest) = ok (a + 2 ^ 8 * b + 2 ^ 16 * c + 2 ^ 24 * d)
u32_at other = fault

-- A failed assertion ends the program. Two `int`s are the same where their bits are.
pub compare_ints : Option Bytes → Option Bytes → Run Bool
compare_ints (some v1) (some v2) = u32_at v1 >>= λ i1. u32_at v2 >>= λ i2. ok (i2 == i1)
compare_ints (some v1) none = exited
compare_ints none v2 = exited

pub compare_u32s : Option Bytes → Option Bytes → Run Bool
compare_u32s (some v1) (some v2) = u32_at v1 >>= λ i1. u32_at v2 >>= λ i2. ok (i2 == i1)
compare_u32s (some v1) none = exited
compare_u32s none v2 = exited

pub compare_strings : Option Bytes → Option Bytes → Run Bool
compare_strings (some s1) (some s2) = ok (is_eq (strcmp s1 s2))
compare_strings (some s1) none = exited
compare_strings none s2 = exited

-- The decimal digits of a number, at most `n` of them.
pub decimal : ℕ → ℕ → Bytes
decimal zero i = []
decimal (suc n) i =
    let front : Bytes = decimal n (i / 10) in
    if ltb i 10 then (48 + i) ∷ [] else front ++ (48 + i % 10) ∷ []

-- "%u\n"
pub write_u32_node : ℕ → Bytes
write_u32_node i = decimal 10 i ++ 10 ∷ []

pub is_digit : ℕ → Bool
is_digit c = leb 48 c && leb c 57

-- The digits from here on, behind those with the value `i`.
pub scan : ℕ → Bytes → ℕ × Bytes
scan i [] = (i, [])
scan i (c ∷ text) = elim (is_digit c) [
  | true ↦ scan (10 * i + (c - 48)) text
  | false ↦ (i, c ∷ text)
]

-- A white space in the format skips all of the input's.
pub skip_space : Bytes → Bytes
skip_space [] = []
skip_space (c ∷ text) = elim (c == 32 || (leb 9 c && leb c 13)) [
  | true ↦ skip_space text
  | false ↦ c ∷ text
]

-- The number that `fscanf` reads with "%u\n", where it has no sign and is below 2 ^ 32, and the input behind it; `none` where there is no digit,
-- and the entry keeps the bytes that it was allocated with.
pub read_u32_node : Bytes → Option (ℕ × Bytes)
read_u32_node text = digits (skip_space text)
  where
    digits : Bytes → Option (ℕ × Bytes)
    digits [] = none
    digits (c ∷ text) =
        if is_digit c then some ((scan 0 (c ∷ text)).0, skip_space (scan 0 (c ∷ text)).1) else none

-- The loop of `read_ll_from_disk` with `read_u32_node`, on the values of the entries, which `insert_ll`
-- puts in front. An entry that nothing is read into keeps what its memory holds, `junk`.
pub read_loop : (fuel junk : ℕ) → List ℕ → Bytes → Run (List ℕ)
read_loop zero junk ll text = unfinished
read_loop (suc fuel) junk ll text =
    let behind : List ℕ → Bytes → Run (List ℕ) = λ entries rest. elim rest [
      | [] ↦ ok entries
      | c ∷ more ↦ read_loop fuel junk entries (c ∷ more)
    ] in
    elim (read_u32_node text) [
      | none ↦ behind (junk ∷ ll) (skip_space text)
      | some r ↦ behind (r.0 ∷ ll) r.1
    ]

-- What `export_ll_to_disk` writes with `write_u32_node`.
pub write_all : List ℕ → Bytes
write_all [] = []
write_all (i ∷ rest) = write_u32_node i ++ write_all rest
