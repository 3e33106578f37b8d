-- ===== src/DsUtils/Numbers.antt =====
-- src/modules/ds/ds_utils.c, write_u32_node and read_u32_node: numbers that are written to a file and
-- read back, one and a whole list.
use gaveta.DsUtils.{
  decimal, write_u32_node, is_digit, scan, skip_space, read_u32_node, read_loop, write_all,
}
use gaveta.Base.{
  ℕ, zero, suc, ◌+◌, ◌-◌, ◌*◌, ◌/◌, ◌%◌, ◌^◌, ◌≤◌, ◌<◌, ◌≡◌, refl, sym, ◌∙◌, ap, true, false, ◌||◌,
  ◌&&◌, some, List, [], ◌∷◌, ◌++◌, append_assoc, arith, ltb, leb, ◌==◌, length, Bool-cases, inl,
  inr, ok,
}
use gaveta.Heap.{Bytes}
use native.Mathlib.Nat.{pow-succ'}

scan-digit : (i d : ℕ) (text : Bytes) → d < 10 → scan i ((48 + d) ∷ text) ≡ scan (10 * i + d) text
unfolding scan is_digit
scan-digit i d text small =
    let digit : is_digit (48 + d) ≡ true = ground (arith, small) in
    let value : 10 * i + (48 + d - 48) ≡ 10 * i + d = omega arith in
    rw (scan, digit) (ap (λ j. scan j text) value)

-- The digits of a number are scanned to it.
scan-decimal : (n i : ℕ) (text : Bytes) → i < 10 ^ n → scan 0 (decimal n i ++ text) ≡ scan i text
unfolding decimal
scan-decimal zero i text small =
    let none_left : 0 ≡ i = omega (arith, small) in ap (λ j. scan j text) none_left
scan-decimal (suc n) i text small = elim (Bool-cases (ltb i 10)) [
  | inl digit ↦
      let d : i < 10 = ground (arith, digit) in
      let value : 10 * 0 + i ≡ i = omega arith in
      rw digit (scan-digit 0 i text d ∙ ap (λ j. scan j text) value)
  | inr more ↦
      let front : i / 10 < 10 ^ n = (let power = pow-succ' 10 n in omega (arith, small, power)) in
      let value : 10 * (i / 10) + i % 10 ≡ i = omega arith in
      let last : i % 10 < 10 = omega arith in
      rw more (
        ap (λ t. scan 0 t) (append_assoc (decimal n (i / 10)) ((48 + i % 10) ∷ []) text)
        ∙ scan-decimal n (i / 10) ((48 + i % 10) ∷ text) front
        ∙ scan-digit (i / 10) (i % 10) text last
        ∙ ap (λ j. scan j text) value)
]

-- A number's text begins with a digit.
decimal-IsDigit :
    (n i : ℕ) → (c : ℕ) × (rest : Bytes) × (decimal (suc n) i ≡ c ∷ rest) × (is_digit c ≡ true)
unfolding decimal is_digit
decimal-IsDigit zero i = elim (Bool-cases (ltb i 10)) [
  | inl digit ↦ (48 + i, [], (rw digit refl), (ground (arith, digit)))
  | inr more ↦ (48 + i % 10, [], (rw more refl), (ground arith))
]
decimal-IsDigit (suc n) i = elim (Bool-cases (ltb i 10)) [
  | inl digit ↦ (48 + i, [], (rw digit refl), (ground (arith, digit)))
  | inr more ↦
      let (c, rest, front, digit) = decimal-IsDigit n (i / 10) in
      (c, rest ++ (48 + i % 10) ∷ [], (rw more (ap (λ t. t ++ (48 + i % 10) ∷ []) front)), digit)
]

digit-not_space : (c : ℕ) → is_digit c ≡ true → (c == 32 || (leb 9 c && leb c 13)) ≡ false
unfolding is_digit
digit-not_space c digit = ground (arith, digit)

skip_space-digit : (c : ℕ) (text : Bytes) → is_digit c ≡ true → skip_space (c ∷ text) ≡ c ∷ text
unfolding skip_space
skip_space-digit c text digit = rw (skip_space, digit-not_space c digit) refl

skip_space-number :
    (i : ℕ) (text : Bytes) → skip_space (write_u32_node i ++ text) ≡ write_u32_node i ++ text
unfolding write_u32_node
skip_space-number i text =
    let (c, rest, first, digit) = decimal-IsDigit 9 i in
    rw first (skip_space-digit c ((rest ++ 10 ∷ []) ++ text) digit)

read_u32_node-digit :
    (c : ℕ) (text : Bytes)
    → is_digit c ≡ true
    → read_u32_node (c ∷ text) ≡ some ((scan 0 (c ∷ text)).0, skip_space (scan 0 (c ∷ text)).1)
unfolding read_u32_node
read_u32_node-digit c text digit = rw (skip_space-digit c text digit, digit) refl

-- A number is read back from its text, up to the next number.
read_u32_node-write_u32_node :
    (i : ℕ) (text : Bytes)
    → i < 2 ^ 32
    → read_u32_node (write_u32_node i ++ text) ≡ some (i, skip_space text)
unfolding write_u32_node scan is_digit skip_space
read_u32_node-write_u32_node i text small =
    let (c, rest, first, digit) = decimal-IsDigit 9 i in
    let read : scan 0 (decimal 10 i ++ 10 ∷ text) ≡ (i, 10 ∷ text) =
      scan-decimal 10 i (10 ∷ text) (omega (arith, small)) in
    let whole : (decimal 10 i ++ 10 ∷ []) ++ text ≡ decimal 10 i ++ 10 ∷ text =
      append_assoc (decimal 10 i) (10 ∷ []) text in
    let begin : decimal 10 i ++ 10 ∷ text ≡ c ∷ (rest ++ 10 ∷ text) =
      ap (λ t. t ++ 10 ∷ text) first in
    let value : scan 0 (c ∷ (rest ++ 10 ∷ text)) ≡ (i, 10 ∷ text) =
      ap (scan 0) (sym begin) ∙ read in
    ap read_u32_node (whole ∙ begin)
    ∙ read_u32_node-digit c (rest ++ 10 ∷ text) digit
    ∙ ap (λ r. some (r.0, skip_space r.1)) value

-- Entries of 32 bits.
pub data U32s : List ℕ → Type 0 where
  no_more : U32s []
  and_more : {i : ℕ} {rest : List ℕ} → i < 2 ^ 32 → U32s rest → U32s (i ∷ rest)

pub backwards : List ℕ → List ℕ
backwards [] = []
backwards (i ∷ rest) = backwards rest ++ i ∷ []

skip_space-write_all : (entries : List ℕ) → skip_space (write_all entries) ≡ write_all entries
unfolding write_all skip_space
skip_space-write_all [] = refl
skip_space-write_all (i ∷ rest) = skip_space-number i (write_all rest)

write_all-starts :
    (i : ℕ) (rest : List ℕ) → (c : ℕ) × (text : Bytes) × (write_all (i ∷ rest) ≡ c ∷ text)
unfolding write_all write_u32_node
write_all-starts i rest =
    let (c, text, first, digit) = decimal-IsDigit 9 i in
    (c, (text ++ 10 ∷ []) ++ write_all rest, ap (λ t. (t ++ 10 ∷ []) ++ write_all rest) first)

read_loop-last :
    (fuel junk i : ℕ) (ll : List ℕ) (text : Bytes)
    → read_u32_node text ≡ some (i, [])
    → read_loop (suc fuel) junk ll text ≡ ok (i ∷ ll)
unfolding read_loop
read_loop-last fuel junk i ll text read = rw (read_loop, read) refl

read_loop-next :
    (fuel junk i c : ℕ) (ll : List ℕ) (text more : Bytes)
    → read_u32_node text ≡ some (i, c ∷ more)
    → read_loop (suc fuel) junk ll text ≡ read_loop fuel junk (i ∷ ll) (c ∷ more)
unfolding read_loop
read_loop-next fuel junk i c ll text more read = rw (read_loop, read) refl

-- Entries that were written to a file are read back, each in front of those before it.
pub read_loop-write_all :
    (fuel junk i : ℕ) (rest ll : List ℕ)
    → U32s (i ∷ rest)
    → length (i ∷ rest) ≤ fuel
    → read_loop fuel junk ll (write_all (i ∷ rest)) ≡ ok (backwards (i ∷ rest) ++ ll)
unfolding write_all backwards skip_space
read_loop-write_all zero junk i rest ll small enough = absurd (omega (arith, enough))
read_loop-write_all (suc fuel) junk i [] ll (and_more small others) enough =
    read_loop-last fuel junk i ll (write_u32_node i ++ []) (read_u32_node-write_u32_node i [] small)
read_loop-write_all (suc fuel) junk i (j ∷ rest) ll (and_more small others) enough =
    let (c, text, first) = write_all-starts j rest in
    let all = write_all (j ∷ rest) in
    let read : read_u32_node (write_u32_node i ++ all) ≡ some (i, c ∷ text) =
      read_u32_node-write_u32_node i all small
      ∙ ap (λ t. some (i, t)) (skip_space-write_all (j ∷ rest) ∙ first) in
    let left : length (j ∷ rest) ≤ fuel = omega (arith, enough) in
    read_loop-next fuel junk i c ll (write_u32_node i ++ all) text read
    ∙ ap (read_loop fuel junk (i ∷ ll)) (sym first)
    ∙ read_loop-write_all fuel junk j rest (i ∷ ll) others left
    ∙ ap ok (sym (append_assoc (backwards (j ∷ rest)) (i ∷ []) ll))
