-- ===== src/Config/Fields.antt =====
-- The loop of `read_btree_config` of config.c over the lines, each a key and a value as `fscanf` reads
-- them. `read_schema` is an argument: it reads the lines of the schema, and does not change these fields.
use gaveta.Base.{ℕ, Bool, true, false, ◌||◌, ◌&&◌, ◌==◌, List, [], ◌∷◌, if◌then◌else◌}
use gaveta.Heap.{Bytes}
use gaveta.Config.{BtreeConfig, end_str}

pub starts_with : Bytes → Bytes → Bool
starts_with [] str = true
starts_with (c ∷ word) [] = false
starts_with (c ∷ word) (d ∷ str) = c == d && starts_with word str

-- Is `strstr(str, word)` not NULL?
pub strstr : Bytes → Bytes → Bool
strstr [] word = starts_with word []
strstr (c ∷ str) word = starts_with word (c ∷ str) || strstr str word

-- The words of the keys, with those of `strcmp`.
abbrev pub order_word : Bytes
order_word = 111 ∷ 114 ∷ 100 ∷ 101 ∷ 114 ∷ []

abbrev pub index_file_word : Bytes
index_file_word = 105 ∷ 110 ∷ 100 ∷ 101 ∷ 120 ∷ 95 ∷ 102 ∷ 105 ∷ 108 ∷ 101 ∷ []

abbrev pub data_file_word : Bytes
data_file_word = 100 ∷ 97 ∷ 116 ∷ 97 ∷ 95 ∷ 102 ∷ 105 ∷ 108 ∷ 101 ∷ []

abbrev pub idx_free_word : Bytes
idx_free_word =
    105 ∷ 100 ∷ 120 ∷ 95 ∷ 102 ∷ 114 ∷ 101 ∷ 101 ∷ 95 ∷ 114 ∷ 114 ∷ 110 ∷ 95 ∷ 97 ∷ 100 ∷ 100 ∷ 114
    ∷ 101 ∷ 115 ∷ 115 ∷ []

abbrev pub data_free_word : Bytes
data_free_word =
    100 ∷ 97 ∷ 116 ∷ 97 ∷ 95 ∷ 102 ∷ 114 ∷ 101 ∷ 101 ∷ 95 ∷ 114 ∷ 114 ∷ 110 ∷ 95 ∷ 97 ∷ 100 ∷ 100
    ∷ 114 ∷ 101 ∷ 115 ∷ 115 ∷ []

abbrev pub schema_size_word : Bytes
schema_size_word = 115 ∷ 99 ∷ 104 ∷ 101 ∷ 109 ∷ 97 ∷ 95 ∷ 115 ∷ 105 ∷ 122 ∷ 101 ∷ []

abbrev pub schema_word : Bytes
schema_word = 115 ∷ 99 ∷ 104 ∷ 101 ∷ 109 ∷ 97 ∷ []

abbrev pub btree_name_word : Bytes
btree_name_word = 98 ∷ 116 ∷ 114 ∷ 101 ∷ 101 ∷ 95 ∷ 110 ∷ 97 ∷ 109 ∷ 101 ∷ []

-- "{" and "}"
pub is_brace : Bytes → Bool
is_brace [] = false
is_brace (c ∷ []) = c == 123 || c == 125
is_brace (c ∷ d ∷ key) = false

-- end_str(value + 1); of an empty value the byte behind its NUL is read, which is what was there before.
pub value_text : (behind : Bytes) → Bytes → Bytes
value_text behind [] = end_str behind
value_text behind (c ∷ value) = end_str value

module _ (atoi : Bytes → ℕ) (behind : Bytes) (read_schema : BtreeConfig → BtreeConfig) where
  -- One round of the loop.
  pub read_line : Bytes → Bytes → BtreeConfig → BtreeConfig
  read_line key value cfg =
      if is_brace key
      then cfg
      else if strstr key order_word
      then record cfg { order = atoi value }
      else if strstr key index_file_word
      then record cfg { index_file = value_text behind value }
      else if strstr key data_file_word
      then record cfg { data_file = value_text behind value }
      else if strstr key idx_free_word
      then record cfg { idx_free_rrn_address = value_text behind value }
      else if strstr key data_free_word
      then record cfg { data_free_rrn_address = value_text behind value }
      else if strstr key schema_size_word
      then record cfg { schema_size = atoi value }
      else if strstr key schema_word
      then read_schema cfg
      else if strstr key btree_name_word
      then record cfg { name = value_text behind value }
      else cfg

  pub read_lines : List (Bytes × Bytes) → BtreeConfig → BtreeConfig
  read_lines [] cfg = cfg
  read_lines (line ∷ lines) cfg = read_lines lines (read_line line.0 line.1 cfg)
