-- ===== src/Utils.antt =====
-- src/modules/utils/utils.c: the difference of two numbers, and the removal of line breaks. A string is
-- the list of its characters, without the final NUL. `sleep_ms` is a call of the C library.
mod Tests
use gaveta.Base.{
  ℕ, zero, suc, ◌+◌, ◌-◌, ◌<◌, ◌≤◌, ◌≡◌, ◌≢◌, refl, sym, ◌∙◌, ap, subst, Bool, true, false, ◌||◌,
  Option, none, some, List, [], ◌∷◌, ◌++◌, append_assoc, map, arith, ltb, ◌==◌, if◌then◌else◌,
  length, length-append, get_elem?, get_elem?-append_right, set, set-append_right, Bool-cases, inl,
  inr,
}
use gaveta.Heap.{Bytes}

pub abs_diff : ℕ → ℕ → ℕ
abs_diff a b = if ltb b a then a - b else b - a

-- '\n' and ' '
abbrev pub newline : ℕ
newline = 10

abbrev pub space : ℕ
space = 32

-- The loop from character `i` on, `n` rounds: writes do not change the length.
pub sanitize_from : (n i : ℕ) → Bytes → Bytes
sanitize_from zero i str = str
sanitize_from (suc n) i str = elim (get_elem? str i) [
  | none ↦ str
  | some c ↦ elim (c == newline) [
    | true ↦ sanitize_from n (i + 1) (set str i space)
    | false ↦ sanitize_from n (i + 1) str
  ]
]

-- `none` is NULL.
pub sanitize_str : Option Bytes → Option Bytes
sanitize_str none = none
sanitize_str (some str) = some (sanitize_from (length str) 0 str)

-- The character that stands in the result.
unfoldable pub no_newline : ℕ → ℕ
no_newline c = if c == newline then space else c

sanitize_from-map :
    (n i : ℕ) (pre str : Bytes)
    → length pre ≡ i
    → length str ≡ n
    → sanitize_from n i (pre ++ str) ≡ pre ++ map no_newline str
unfolding sanitize_from no_newline
sanitize_from-map zero i pre [] at len = refl
sanitize_from-map (suc n) i pre [] at len = absurd (omega (arith, len))
sanitize_from-map zero i pre (c ∷ str) at len = absurd (omega (arith, len))
sanitize_from-map (suc n) i pre (c ∷ str) at len =
    let here : length pre + 0 ≡ i = omega (arith, at) in
    let cell : get_elem? (pre ++ c ∷ str) i ≡ some c =
      subst (λ j. get_elem? (pre ++ c ∷ str) j ≡ some c) here
        (get_elem?-append_right pre (c ∷ str) 0) in
    let write : set (pre ++ c ∷ str) i space ≡ pre ++ space ∷ str =
      subst (λ j. set (pre ++ c ∷ str) j space ≡ pre ++ space ∷ str) here
        (set-append_right pre (c ∷ str) 0 space) in
    let next = λ (d : ℕ).
      ap (λ t. sanitize_from n (i + 1) t) (sym (append_assoc pre (d ∷ []) str))
      ∙ sanitize_from-map n (i + 1) (pre ++ d ∷ []) str
          (omega (arith, length-append pre (d ∷ []), at)) (omega (arith, len))
      ∙ append_assoc pre (d ∷ []) (map no_newline str) in
    elim (Bool-cases (c == newline)) [
      | inl line ↦ rw (sanitize_from, cell, line, write) (next space)
      | inr other ↦ rw (sanitize_from, cell, other) (next c)
    ]

-- The loop replaces each line break by a space and leaves all else.
pub sanitize_str-map : (str : Bytes) → sanitize_str (some str) ≡ some (map no_newline str)
unfolding sanitize_str
sanitize_str-map str = ap (λ t. some t) (sanitize_from-map (length str) 0 [] str refl refl)

-- The difference is symmetric, and takes the smaller number to the bigger one.
pub abs_diff-distance :
    (a b : ℕ) → (abs_diff a b ≡ abs_diff b a) × (a ≤ b + abs_diff a b) × (b ≤ a + abs_diff a b)
unfolding abs_diff
abs_diff-distance a b = (ground arith, ground arith, ground arith)
