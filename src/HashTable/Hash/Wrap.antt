-- ===== src/HashTable/Hash/Wrap.antt =====
-- What the overflow of the accumulators means for the hash functions of HashTable.c.
use gaveta.Base.{
  ℕ, ◌+◌, ◌*◌, ◌%◌, ◌^◌, ◌≤◌, ◌<◌, ◌≡◌, refl, ◌∙◌, ap, Bool, true, false, ◌&&◌, Bool-cases, ◌⊎◌,
  inl, inr, [], ◌∷◌, arith, ltb, if◌then◌else◌, length, Run, ok, fault,
}
use gaveta.Heap.{Bytes}
use gaveta.HashTable.Hash.{
  char_to, djb2_loop, djb2, modulus, poly_term, poly_loop, polynomial_rolling_hash_fn,
}

-- `hash * 33 + c` on 32 bits.
pub horner : ℕ → Bytes → ℕ
horner hash [] = hash
horner hash (c ∷ str) = horner ((hash * 33 + char_to 32 c) % 2 ^ 32) str

pub data AreBytes : Bytes → Type 0 where
  nil : AreBytes []
  cons : {c : ℕ} {str : Bytes} → c < 2 ^ 8 → AreBytes str → AreBytes (c ∷ str)

djb2-step :
    (hash c : ℕ)
    → c < 2 ^ 8
    → ((((hash * 2 ^ 5) % 2 ^ 64 + hash) % 2 ^ 64 + char_to 64 c) % 2 ^ 64) % 2 ^ 32
      ≡ (hash % 2 ^ 32 * 33 + char_to 32 c) % 2 ^ 32
djb2-step hash c small = elim (Bool-cases (ltb c 128)) [
  | inl t ↦ rw t (omega arith)
  | inr t ↦ let big : 128 ≤ c = ground (arith, t) in rw t (omega (arith, big, small))
]

djb2_loop-horner :
    (str : Bytes) (hash : ℕ)
    → AreBytes str
    → djb2_loop hash str % 2 ^ 32 ≡ horner (hash % 2 ^ 32) str
unfolding djb2_loop horner
djb2_loop-horner [] hash nil = refl
djb2_loop-horner (c ∷ str) hash (cons small bytes) =
    djb2_loop-horner str ((((hash * 2 ^ 5) % 2 ^ 64 + hash) % 2 ^ 64 + char_to 64 c) % 2 ^ 64) bytes
    ∙ ap (λ n. horner n str) (djb2-step hash c small)

-- The upper half of the 64 bits that `djb2` computes on never reaches its result: this is the
-- recurrence on 32 bits.
pub djb2-horner : (str : Bytes) → AreBytes str → djb2 str ≡ horner 5381 str
unfolding djb2
djb2-horner str bytes = djb2_loop-horner str 5381 bytes

tested :
    (b : Bool) (t : ℕ)
    → ((v : ℕ) × ((if b then ok t else fault) ≡ ok v)) ⊎ ((if b then ok t else fault) ≡ fault)
tested true t = inl (t, refl)
tested false t = inr refl

poly_term-ends :
    (c p_pow : ℕ) → ((v : ℕ) × (poly_term c p_pow ≡ ok v)) ⊎ (poly_term c p_pow ≡ fault)
unfolding poly_term
poly_term-ends c p_pow = elim (Bool-cases (ltb 96 c && ltb c 128)) [
  | inl t ↦ rw t (tested _ _)
  | inr t ↦ rw t (tested _ _)
]

same_branches : (b : Bool) → ◌≡◌ {A = Run ℕ} (if b then fault else fault) fault
same_branches true = refl
same_branches false = refl

-- A round faults where the rounds behind it do.
poly_loop-step :
    (p_pow h_value c : ℕ) (key : Bytes)
    → ((h : ℕ) → poly_loop h (p_pow * 31 % modulus) key ≡ fault)
    → poly_loop h_value p_pow (c ∷ key) ≡ fault
unfolding poly_loop
poly_loop-step p_pow h_value c key rest = elim (poly_term-ends c p_pow) [
  | inl (v, e) ↦ rw (e, rest) (same_branches (ltb (p_pow * 31) (2 ^ 31)))
  | inr e ↦ rw e
]

poly_loop-over : (h_value c : ℕ) (key : Bytes) → poly_loop h_value 887503681 (c ∷ key) ≡ fault
unfolding poly_loop
poly_loop-over h_value c key = elim (poly_term-ends c 887503681) [
  | inl (v, e) ↦ rw e
  | inr e ↦ rw e
]

-- On every key of seven characters or more the power of 31 overflows `int`.
pub polynomial_rolling_hash_fn-long :
    (key : Bytes) → 7 ≤ length key → polynomial_rolling_hash_fn key ≡ fault
unfolding polynomial_rolling_hash_fn
polynomial_rolling_hash_fn-long [] long = absurd (omega arith)
polynomial_rolling_hash_fn-long (a ∷ []) long = absurd (omega arith)
polynomial_rolling_hash_fn-long (a ∷ b ∷ []) long = absurd (omega arith)
polynomial_rolling_hash_fn-long (a ∷ b ∷ c ∷ []) long = absurd (omega arith)
polynomial_rolling_hash_fn-long (a ∷ b ∷ c ∷ d ∷ []) long = absurd (omega arith)
polynomial_rolling_hash_fn-long (a ∷ b ∷ c ∷ d ∷ e ∷ []) long = absurd (omega arith)
polynomial_rolling_hash_fn-long (a ∷ b ∷ c ∷ d ∷ e ∷ f ∷ []) long = absurd (omega arith)
polynomial_rolling_hash_fn-long (a ∷ b ∷ c ∷ d ∷ e ∷ f ∷ g ∷ key) long = poly_loop-step 1 0 a _ λ h.
    poly_loop-step 31 h b _ λ h. poly_loop-step 961 h c _ λ h. poly_loop-step 29791 h d _ λ h.
      poly_loop-step 923521 h e _ λ h. poly_loop-step 28629151 h f _ λ h. poly_loop-over h g key
