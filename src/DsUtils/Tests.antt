-- ===== src/DsUtils/Tests.antt =====
-- src/modules/ds/ds_utils.c: runs of the comparisons and of the text form of numbers.
use gaveta.Base.{ℕ, ◌≡◌, refl, arith, true, some, List, [], ◌∷◌, ◌++◌, ok, exited, none}
use gaveta.DsUtils.{u32_at, compare_u32s, skip_space, read_u32_node, read_loop, write_all}
use gaveta.DsUtils.Numbers.{backwards, no_more, and_more, read_loop-write_all}

abbrev three : List ℕ
three = 7 ∷ 4294967295 ∷ 0 ∷ []

read_loop-write_all_example : read_loop 3 99 [] (write_all three) ≡ ok (backwards three ++ [])
read_loop-write_all_example =
    read_loop-write_all 3 99 7 (4294967295 ∷ 0 ∷ []) []
      (and_more (omega arith) (and_more (omega arith) (and_more (omega arith) no_more)))
      (omega arith)

-- From a file without entries one is read all the same, with what its memory holds.
empty_file : read_loop 1 99 [] [] ≡ ok (99 ∷ [])
unfolding read_loop read_u32_node skip_space
empty_file = refl

same_numbers : compare_u32s (some (1 ∷ 2 ∷ 0 ∷ 0 ∷ [])) (some (1 ∷ 2 ∷ 0 ∷ 0 ∷ [])) ≡ ok true
unfolding compare_u32s u32_at
same_numbers = refl

no_number : compare_u32s (some (1 ∷ 2 ∷ 0 ∷ 0 ∷ [])) none ≡ exited
unfolding compare_u32s
no_number = refl
