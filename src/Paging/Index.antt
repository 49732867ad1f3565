-- ===== src/Paging/Index.antt =====
-- The indices of the two walks are the same nine bits of the address.
use kmd.Base.{ℕ, ◌+◌, ◌-◌, ◌*◌, ◌<◌, ◌≡◌, arith, u16, ◌>>>◌}
use kmd.Base.Bits.{bit_and_low}
use kmd.Paging.{walk_index, map_index}

pub walk_index-lt : (addr level : ℕ) → walk_index addr level < 512
walk_index-lt addr level = omega (arith, bit_and_low 9 (addr >>> ((level - 1) * 9 + 12)))

-- Cutting to sixteen bits first does not change the index.
pub map_index-eq : (addr level : ℕ) → map_index addr level ≡ walk_index addr level
map_index-eq addr level =
    let shift = (level - 1) * 9 + 12 in
    let same : 12 + 9 * (level - 1) ≡ shift = omega arith in
    rw same (omega (arith, bit_and_low 9 (u16 (addr >>> shift)), bit_and_low 9 (addr >>> shift)))
