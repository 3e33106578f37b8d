-- ===== src/Base/Outcome.antt =====
-- What a call can come to. `fault` is undefined behaviour of C (a NULL or dangling pointer, an index
-- out of range), `exited` is `exit(1)` by `g_crit_error`, `blocked` a `sem_wait` that never returns,
-- and `unfinished` a loop whose fuel ran out.
use mathlib.Core.Path.{◌≡◌, ap}

pub data Run {ℓ} (A : Type ℓ) : Type ℓ where
  fault exited blocked unfinished : Run A
  ok : A → Run A

module _ {ℓ κ} {A : Type ℓ} where
  -- The call comes to a value of which `Good` holds.
  abbrev pub Returns : Run A → (A → Type κ) → Type (ℓ ⊔ κ)
  Returns call Good = (result : A) × (call ≡ ok result) × Good result

  infixl 5 ◌>>=◌
  abbrev pub ◌>>=◌ : {B : Type κ} → Run A → (A → Run B) → Run B
  unfinished >>= next = unfinished
  blocked >>= next = blocked
  exited >>= next = exited
  fault >>= next = fault
  ok result >>= next = next result

-- `ok` is injective.
pub ok-injective {ℓ} : {A : Type ℓ} {a b : A} → ok a ≡ ok b → a ≡ b
ok-injective {A} {a} e = ap value e
  where
    value : Run A → A
    value (ok x) = x
    value fault = a
    value exited = a
    value blocked = a
    value unfinished = a
