-- ===== src/Log.antt =====
-- src/modules/log/log.c: which messages are printed, and with which label and text. The time of day and
-- the colours are left out; the text is the message as `vsnprintf` formats it.
mod Tests
use gaveta.Base.{
  ℕ, zero, suc, ◌+◌, ◌-◌, ◌/◌, ◌≤◌, ◌<◌, ◌≡◌, refl, sym, ◌∙◌, ap, Bool, true, false, Option, none,
  some, List, [], ◌∷◌, map, arith, ltb, leb, ◌==◌, is_some, if◌then◌else◌, length, length-take,
  take, min, Bool-cases, inl, inr, ◌⊎◌,
}
use gaveta.Heap.{Bytes}
use gaveta.Utils.{sanitize_str, no_newline, sanitize_str-map}

pub data LogLevel : Type 0 where
  debug info warn error crit_error : LogLevel

-- The value of the enumeration.
unfoldable pub rank : LogLevel → ℕ
rank debug = 0
rank info = 1
rank warn = 2
rank error = 3
rank crit_error = 4

-- DEFAULT_STATUS is -100, all others are not negative.
pub data StatusCode : Type 0 where
  default_status : StatusCode
  code : ℕ → StatusCode

pub data StatusLabel : Type 0 where
  app btree file memory disk user input internal unknown : StatusLabel

-- The argument is the variable `debug`.
pub get_min_log_level : Bool → LogLevel
get_min_log_level true = info
get_min_log_level false = warn

pub label_of : ℕ → StatusLabel
label_of n =
    if n == 0
    then app
    else if n == 1
    then btree
    else if n == 2
    then file
    else if n == 3
    then memory
    else if n == 4
    then disk
    else if n == 5
    then user
    else if n == 6
    then input
    else if n == 7
    then internal
    else unknown

-- `switch (status / 100)`: nothing is printed for DEFAULT_STATUS.
pub status_label : StatusCode → Option (ℕ × StatusLabel)
status_label default_status = none
status_label (code n) = some (n, label_of (n / 100))

pub record Line : Type 0 where
  pub level : LogLevel
  pub status : Option (ℕ × StatusLabel)
  pub text : Option Bytes

-- The line that is printed, if one is. `vsnprintf` keeps 254 characters.
pub g_log : (min_log_level level : LogLevel) → StatusCode → Bytes → Option Line
g_log min_log_level level status message =
    if ltb (rank level) (rank min_log_level)
    then none
    else some (record {
      level = level;
      status = status_label status;
      text = sanitize_str (some (take 254 message));
    })

length-map : {A B : Type 0} (f : A → B) (xs : List A) → length (map f xs) ≡ length xs
length-map f [] = refl
length-map f (x ∷ xs) = ap suc (length-map f xs)

-- A message is printed exactly where its level is not below the least one; it is then one line of at
-- most 254 characters, the first ones of the message with spaces for line breaks.
pub g_log-printed :
    (least level : LogLevel) (status : StatusCode) (message : Bytes)
    → ((rank least ≤ rank level)
        × ((line : Line) × (g_log least level status message ≡ some line)
            × ((text : Bytes) × (line.text ≡ some text)
                × (text ≡ map no_newline (take 254 message))
                × (length text ≤ 254))))
      ⊎ ((rank level < rank least) × (g_log least level status message ≡ none))
unfolding g_log
g_log-printed least level status message = elim (Bool-cases (ltb (rank level) (rank least))) [
  | inl below ↦ inr (ground (arith, below), rw (g_log, below) refl)
  | inr printed ↦
      let text : Bytes = map no_newline (take 254 message) in
      inl (
        ground (arith, printed),
        (
          record {
            level = level;
            status = status_label status;
            text = sanitize_str (some (take 254 message));
          },
          rw (g_log, printed) refl,
          (
            text,
            sanitize_str-map (take 254 message),
            refl,
            omega (arith, length-map no_newline (take 254 message), length-take 254 message),
          ),
        ),
      )
]
