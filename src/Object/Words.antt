-- ===== src/Object/Words.antt =====
-- The 64-bit words of object.c and capability.c: a 32-bit generation above a 32-bit index.
use scdk.Base.{
  ℕ, ◌+◌, ◌-◌, ◌*◌, ◌/◌, ◌%◌, ◌^◌, ◌<◌, bit_and, bit_or, ◌≡◌, ◌≢◌, arith, ◌==◌, if◌then◌else◌,
  bit_or_disjoint, bit_and_low_mask,
}

-- `((uint64_t)generation << 32u) | (uint64_t)index`
unfoldable pub make_id : ℕ → ℕ → ℕ
make_id index generation = bit_or (generation * 2 ^ 32) index

-- `(uint32_t)(id & 0xffffffff)`
unfoldable pub id_index : ℕ → ℕ
id_index id = bit_and id 0xffffffff % 2 ^ 32

-- `(uint32_t)(id >> 32u)`
unfoldable pub id_generation : ℕ → ℕ
id_generation id = id / 2 ^ 32 % 2 ^ 32

-- The generation after one, past 0 when the 32 bits wrap.
unfoldable pub next_generation : ℕ → ℕ
next_generation g = let generation = (g + 1) % 2 ^ 32 in if generation == 0 then 1 else generation

pub make_id-sum : (i g : ℕ) → i < 2 ^ 32 → make_id i g ≡ g * 2 ^ 32 + i
unfolding make_id
make_id-sum i g h = bit_or_disjoint 32 g i h

pub id_index-mod : (id : ℕ) → id_index id ≡ id % 2 ^ 32
unfolding id_index
id_index-mod id = omega (arith, bit_and_low_mask 32 id)

pub id_index-make_id : (i g : ℕ) → i < 2 ^ 32 → id_index (make_id i g) ≡ i
id_index-make_id i g h = omega (arith, make_id-sum i g h, id_index-mod (make_id i g))

pub id_generation-make_id : (i g : ℕ) → i < 2 ^ 32 → g < 2 ^ 32 → id_generation (make_id i g) ≡ g
unfolding id_generation
id_generation-make_id i g h k = omega (arith, make_id-sum i g h)

pub make_id-ne-zero : (i g : ℕ) → i < 2 ^ 32 → 0 < g → make_id i g ≢ 0
make_id-ne-zero i g h k = omega (arith, make_id-sum i g h)

-- A 64-bit id is determined by its two fields.
pub make_id-fields : (id : ℕ) → id < 2 ^ 64 → make_id (id_index id) (id_generation id) ≡ id
unfolding id_generation
make_id-fields id h = omega (
  arith,
  id_index-mod id,
  make_id-sum (id_index id) (id_generation id) (omega (arith, id_index-mod id)),
)

pub next_generation_bounds : (g : ℕ) → (0 < next_generation g) × (next_generation g < 2 ^ 32)
unfolding next_generation
next_generation_bounds g = ground arith

-- Generations go round through 1 to 2 ^ 32 - 1.
pub next_generation-cycle : (g : ℕ) → 0 < g → g < 2 ^ 32 → next_generation g ≡ g % (2 ^ 32 - 1) + 1
unfolding next_generation
next_generation-cycle g lo hi = ground arith
