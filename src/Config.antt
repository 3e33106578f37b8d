-- ===== src/Config.antt =====
-- src/modules/config/config.c: the fields that the lines of a configuration file set, and the defaults.
-- A string is the list of its characters, and the buffers are taken to be long enough. `atoi` is the
-- C library's, its result as a `u32`.
pub mod Fields
mod Tests
use gaveta.Base.{
  ℕ, zero, suc, ◌+◌, ◌-◌, ◌≤◌, ◌<◌, ◌≡◌, ◌≢◌, refl, sym, ◌∙◌, ap, subst, Bool, true, false, ◌||◌,
  ◌&&◌, Option, none, some, List, [], ◌∷◌, ◌++◌, append_assoc, append-nil, arith, ltb, leb, ◌==◌,
  if◌then◌else◌, length, length-append, take, get_elem?, get_elem?-append_right, Bool-cases, inl,
  inr, ◌⊎◌,
}
use gaveta.Heap.{Bytes}

-- '"', ':', '\n' and ' '
pub is_end : ℕ → Bool
is_end c = c == 34 || c == 58 || c == 10 || c == 32

-- The loop from character `i` on, `n` rounds at most. The NUL that is written ends the string there.
pub end_from : (n i : ℕ) → Bytes → Bytes
end_from zero i str = str
end_from (suc n) i str = elim (get_elem? str i) [
  | none ↦ str
  | some c ↦ elim (is_end c) [
    | true ↦ end_from n (i + 1) (take i str)
    | false ↦ end_from n (i + 1) str
  ]
]

pub end_str : Bytes → Bytes
end_str str = end_from (length str) 0 str

-- The characters in front of the first that ends a value.
before_end : Bytes → Bytes
before_end [] = []
before_end (c ∷ str) = if is_end c then [] else c ∷ before_end str

take-front : (pre str : Bytes) (i : ℕ) → length pre ≡ i → take i (pre ++ str) ≡ pre
take-front [] str zero e = refl
take-front [] str (suc i) e = absurd (omega (arith, e))
take-front (c ∷ pre) str zero e = absurd (omega (arith, e))
take-front (c ∷ pre) str (suc i) e = ap (λ t. c ∷ t) (take-front pre str i (omega (arith, e)))

end_from-end : (n i : ℕ) (str : Bytes) → length str ≤ i → end_from n i str ≡ str
unfolding end_from
end_from-end zero i str out = refl
end_from-end (suc n) i str out =
    let none_there : get_elem? str i ≡ none = out_of_range str i out in
    rw (end_from, none_there) refl
  where
    out_of_range : (str : Bytes) (i : ℕ) → length str ≤ i → get_elem? str i ≡ none
    out_of_range [] i h = refl
    out_of_range (c ∷ str) zero h = absurd (omega (arith, h))
    out_of_range (c ∷ str) (suc i) h = out_of_range str i (omega (arith, h))

end_from-before :
    (n i : ℕ) (pre str : Bytes)
    → length pre ≡ i
    → length str ≡ n
    → end_from n i (pre ++ str) ≡ pre ++ before_end str
unfolding end_from before_end
end_from-before zero i pre [] at len = refl
end_from-before (suc n) i pre [] at len = absurd (omega (arith, len))
end_from-before zero i pre (c ∷ str) at len = absurd (omega (arith, len))
end_from-before (suc n) i pre (c ∷ str) at len =
    let here : length pre + 0 ≡ i = omega (arith, at) in
    let cell : get_elem? (pre ++ c ∷ str) i ≡ some c =
      subst (λ j. get_elem? (pre ++ c ∷ str) j ≡ some c) here
        (get_elem?-append_right pre (c ∷ str) 0) in
    elim (Bool-cases (is_end c)) [
      | inl ends ↦
          rw (end_from, cell, ends, take-front pre (c ∷ str) i at)
            (end_from-end n (i + 1) pre (omega (arith, at)) ∙ sym (append-nil pre))
      | inr goes_on ↦
          rw (end_from, cell, goes_on)
            (ap (λ t. end_from n (i + 1) t) (sym (append_assoc pre (c ∷ []) str))
              ∙ end_from-before n (i + 1) (pre ++ c ∷ []) str
                  (omega (arith, length-append pre (c ∷ []), at)) (omega (arith, len))
              ∙ append_assoc pre (c ∷ []) (before_end str))
    ]

end_str-before : (str : Bytes) → end_str str ≡ before_end str
unfolding end_str
end_str-before str = end_from-before (length str) 0 [] str refl refl

-- A quotation mark, a colon, a line break or a space.
pub data Ends : ℕ → Type 0 where
  quotation_mark : Ends 34
  colon : Ends 58
  line_break : Ends 10
  blank : Ends 32

-- The text up to the first character that ends a value, or all of it.
pub data Cut : Bytes → Bytes → Type 0 where
  whole : Cut [] []
  ended : {c : ℕ} {str : Bytes} → Ends c → Cut (c ∷ str) []
  longer : {c : ℕ} {str front : Bytes} → ¬ Ends c → Cut str front → Cut (c ∷ str) (c ∷ front)

is_end-Ends : (c : ℕ) → is_end c ≡ true → Ends c
unfolding is_end
is_end-Ends c e = elim (Bool-cases (c == 34)) [
  | inl a ↦ subst (λ d. Ends d) (ground (arith, a)) quotation_mark
  | inr a ↦ elim (Bool-cases (c == 58)) [
    | inl b ↦ subst (λ d. Ends d) (ground (arith, b)) colon
    | inr b ↦ elim (Bool-cases (c == 10)) [
      | inl d ↦ subst (λ x. Ends x) (ground (arith, d)) line_break
      | inr d ↦ subst (λ x. Ends x) (ground (arith, a, b, d, e)) blank
    ]
  ]
]

not_end-Ends : (c : ℕ) → is_end c ≡ false → ¬ Ends c
unfolding is_end
not_end-Ends c e quotation_mark = cc
not_end-Ends c e colon = cc
not_end-Ends c e line_break = cc
not_end-Ends c e blank = cc

before_end-Cut : (str : Bytes) → Cut str (before_end str)
unfolding before_end
before_end-Cut [] = whole
before_end-Cut (c ∷ str) = elim (Bool-cases (is_end c)) [
  | inl e ↦ rw e (ended (is_end-Ends c e))
  | inr e ↦ rw e (longer (not_end-Ends c e) (before_end-Cut str))
]

-- The loop cuts a value off at its first quotation mark, colon, line break or space.
pub end_str-Cut : (str : Bytes) → Cut str (end_str str)
end_str-Cut str = subst (λ t. Cut str t) (sym (end_str-before str)) (before_end-Cut str)

-- `root_rrn` and `header_size` are not set from the file.
pub record BtreeConfig : Type 0 where
  pub name : Bytes
  pub index_file : Bytes
  pub idx_free_rrn_address : Bytes
  pub data_free_rrn_address : Bytes
  pub data_file : Bytes
  pub schema_size : ℕ
  pub order : ℕ

-- "assets/public/"
abbrev pub public_path : Bytes
public_path = 97 ∷ 115 ∷ 115 ∷ 101 ∷ 116 ∷ 115 ∷ 47 ∷ 112 ∷ 117 ∷ 98 ∷ 108 ∷ 105 ∷ 99 ∷ 47 ∷ []

-- "/BTree.idx"
abbrev pub idx_name : Bytes
idx_name = 47 ∷ 66 ∷ 84 ∷ 114 ∷ 101 ∷ 101 ∷ 46 ∷ 105 ∷ 100 ∷ 120 ∷ []

-- "/BTree.dat"
abbrev pub dat_name : Bytes
dat_name = 47 ∷ 66 ∷ 84 ∷ 114 ∷ 101 ∷ 101 ∷ 46 ∷ 100 ∷ 97 ∷ 116 ∷ []

-- "/idx_free_rrn.addr"
abbrev pub idx_free_name : Bytes
idx_free_name =
    47 ∷ 105 ∷ 100 ∷ 120 ∷ 95 ∷ 102 ∷ 114 ∷ 101 ∷ 101 ∷ 95 ∷ 114 ∷ 114 ∷ 110 ∷ 46 ∷ 97 ∷ 100 ∷ 100
    ∷ 114 ∷ []

-- "/data_free_rrn.addr"
abbrev pub data_free_name : Bytes
data_free_name =
    47 ∷ 100 ∷ 97 ∷ 116 ∷ 97 ∷ 95 ∷ 102 ∷ 114 ∷ 101 ∷ 101 ∷ 95 ∷ 114 ∷ 114 ∷ 110 ∷ 46 ∷ 97 ∷ 100
    ∷ 100 ∷ 114 ∷ []

-- assets/public/<name>/<file>
pub public_file : Bytes → Bytes → Bytes
public_file name file = public_path ++ (name ++ file)

-- The address that is set, or the default.
pub address_or : Bytes → Bytes → Bytes
address_or [] default = default
address_or (c ∷ address) default = c ∷ address

pub default_order : ℕ → ℕ
default_order order = if order == 0 || leb 100 order then 20 else order

-- sizeof(key), where `key` is the buffer of the line
pub default_schema_size : ℕ → ℕ
default_schema_size size = if size == 0 then 128 else size

-- The end of `read_btree_config`, behind the loop; `none` is the return of false.
pub finish_config : BtreeConfig → Option BtreeConfig
finish_config cfg = elim cfg.name [
  | [] ↦ none
  | c ∷ rest ↦ some (record cfg {
    index_file = public_file cfg.name idx_name;
    data_file = public_file cfg.name dat_name;
    idx_free_rrn_address = address_or cfg.idx_free_rrn_address (public_file cfg.name idx_free_name);
    data_free_rrn_address =
        address_or cfg.data_free_rrn_address (public_file cfg.name data_free_name);
    schema_size = default_schema_size cfg.schema_size;
    order = default_order cfg.order;
  })
]

default_order-bounds : (n : ℕ) → (1 ≤ default_order n) × (default_order n ≤ 99)
unfolding default_order
default_order-bounds n = (ground arith, ground arith)

default_schema_size-bound : (n : ℕ) → 1 ≤ default_schema_size n
unfolding default_schema_size
default_schema_size-bound n = ground arith

-- A configuration that is accepted has a name, an order from 1 to 99 and a schema size above 0, and the
-- names of its index and data file depend on its name alone; one without a name is refused.
pub finish_config-bounds :
    (cfg : BtreeConfig)
    → ((cfg.name ≡ []) × (finish_config cfg ≡ none))
      ⊎ ((done : BtreeConfig) × (finish_config cfg ≡ some done)
          × (cfg.name ≢ [])
          × (done.name ≡ cfg.name)
          × (1 ≤ done.order)
          × (done.order ≤ 99)
          × (1 ≤ done.schema_size)
          × (done.index_file ≡ public_file cfg.name idx_name)
          × (done.data_file ≡ public_file cfg.name dat_name))
unfolding finish_config
finish_config-bounds cfg = elim (name-cases cfg.name) [
  | inl empty ↦ inl (empty, rw (finish_config, empty) refl)
  | inr (c, rest, is) ↦ inr (
    record cfg {
      index_file = public_file cfg.name idx_name;
      data_file = public_file cfg.name dat_name;
      idx_free_rrn_address =
          address_or cfg.idx_free_rrn_address (public_file cfg.name idx_free_name);
      data_free_rrn_address =
          address_or cfg.data_free_rrn_address (public_file cfg.name data_free_name);
      schema_size = default_schema_size cfg.schema_size;
      order = default_order cfg.order;
    },
    name-run cfg.name is,
    (λ e. let c' = sym is ∙ e in cc),
    refl,
    (default_order-bounds cfg.order).0,
    (default_order-bounds cfg.order).1,
    default_schema_size-bound cfg.schema_size,
    refl,
    refl,
  )
]
  where
    name-cases : (xs : Bytes) → (xs ≡ []) ⊎ ((y : ℕ) × (ys : Bytes) × (xs ≡ y ∷ ys))
    name-cases [] = inl refl
    name-cases (y ∷ ys) = inr (y, ys, refl)

    name-run :
        {A : Type 0} {v : A} {y : ℕ} {ys : Bytes} (xs : Bytes)
        → xs ≡ y ∷ ys
        → elim xs [ [] ↦ none | c ∷ rest ↦ some v ] ≡ some v
    name-run [] e = cc
    name-run (x ∷ xs) e = refl
