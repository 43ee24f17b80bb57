-- ===== src/Async/Timer/Slotmap/Ids.antt =====
-- src/async/timer.hpp, `encode_id`, `id_index`, `id_gen`: 24 bits of index under 40 bits of generation.
use rain.Base.{ℕ, ◌+◌, ◌*◌, ◌%◌, ◌^◌, ◌<◌, ◌≡◌, arith}
use rain.Base.Bits.{bit_or_shifted}
use rain.Async.Timer.Slotmap.{encode_id, id_index, id_gen}

pub encode_id-sum :
    (index gen : ℕ) → index < 2 ^ 24 → encode_id index gen ≡ gen % 2 ^ 40 * 2 ^ 24 + index
unfolding encode_id
encode_id-sum index gen h =
    let e : gen * 2 ^ 24 % 2 ^ 64 ≡ gen % 2 ^ 40 * 2 ^ 24 = omega arith in
    rw e (bit_or_shifted 24 (gen % 2 ^ 40) index h)

-- An id gives its index back, and its generation up to 40 bits; it is a 64-bit number, and no other
-- 64-bit number has this index and generation.
pub encode_id_fields :
    (index gen : ℕ)
    → index < 2 ^ 24
    → (id_index (encode_id index gen) ≡ index)
      × (id_gen (encode_id index gen) ≡ gen % 2 ^ 40)
      × (encode_id index gen < 2 ^ 64)
encode_id_fields index gen h = omega (arith, encode_id-sum index gen h)

pub encode_id-decode : (id : ℕ) → id < 2 ^ 64 → encode_id (id_index id) (id_gen id) ≡ id
encode_id-decode id h = omega (arith, encode_id-sum (id_index id) (id_gen id) (omega arith))
