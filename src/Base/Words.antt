-- ===== src/Base/Words.antt =====
-- Machine words: a value of a w-bit unsigned type is a number below `2 ^ w`, and arithmetic wraps.
use Prim.Native.Nat.{ℕ, ◌+◌, ◌-◌, ◌*◌, ◌/◌, ◌%◌, ◌^◌}

abbrev pub u64 : ℕ → ℕ
u64 n = n % 2 ^ 64

abbrev pub u32 : ℕ → ℕ
u32 n = n % 2 ^ 32

-- `a - b` on `uint64_t`, for `b` below `2 ^ 64`
abbrev pub sub64 : ℕ → ℕ → ℕ
sub64 a b = (a + 2 ^ 64 - b) % 2 ^ 64

abbrev pub page_size : ℕ
page_size = 4096

-- `x & ~0xFFF` and `(x + 0xFFF) & ~0xFFF`
abbrev pub page_align_down : ℕ → ℕ
page_align_down a = a / 4096 * 4096

abbrev pub page_align_up : ℕ → ℕ
page_align_up a = page_align_down (u64 (a + 0xFFF))

-- `(x + 15) & ~15`
abbrev pub align_16 : ℕ → ℕ
align_16 a = u64 (a + 15) / 16 * 16

-- `HHDM_OFFSET`, where the direct map of the physical memory starts
abbrev pub hhdm_offset : ℕ
hhdm_offset = 0xFFFF800000000000

-- `phys_to_virt`
abbrev pub phys_to_virt : ℕ → ℕ
phys_to_virt phys = u64 (phys + hhdm_offset)
