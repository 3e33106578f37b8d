-- ===== src/Config/Tests.antt =====
-- A configuration without an order, and a value in quotation marks.
use gaveta.Base.{◌≡◌, [], ◌∷◌, ◌⊎◌, ◌≢◌, ◌≤◌, none, some}
use gaveta.Config.{
  BtreeConfig, Cut, end_str, end_str-Cut, public_file, idx_name, dat_name, finish_config,
  finish_config-bounds,
}

abbrev cfg : BtreeConfig
cfg = record {
  name = 116 ∷ [];
  index_file = [];
  idx_free_rrn_address = [];
  data_free_rrn_address = [];
  data_file = [];
  schema_size = 0;
  order = 0;
}

end_str-Cut_example : Cut (116 ∷ 34 ∷ 44 ∷ []) (end_str (116 ∷ 34 ∷ 44 ∷ []))
end_str-Cut_example = end_str-Cut (116 ∷ 34 ∷ 44 ∷ [])

finish_config-bounds_example :
    ((cfg.name ≡ []) × (finish_config cfg ≡ none))
    ⊎ ((done : BtreeConfig) × (finish_config cfg ≡ some done)
        × (cfg.name ≢ [])
        × (done.name ≡ cfg.name)
        × (1 ≤ done.order)
        × (done.order ≤ 99)
        × (1 ≤ done.schema_size)
        × (done.index_file ≡ public_file cfg.name idx_name)
        × (done.data_file ≡ public_file cfg.name dat_name))
finish_config-bounds_example = finish_config-bounds cfg
