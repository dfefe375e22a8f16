-- ===== src/Region/Bound.antt =====
-- `max_encoded_size`
use barrique.Base.{ℕ, ◌+◌, ◌-◌, ◌*◌, ◌/◌}
use barrique.Lz4.{compress_bound}
use barrique.Region.{region_size, header_size}

unfoldable pub max_encoded_size : ℕ → ℕ
max_encoded_size size =
    size / region_size * compress_bound region_size
    + compress_bound (size - size / region_size * region_size)
    + (size + region_size - 1) / region_size * header_size
