-- ===== src/Pmm/Frames.antt =====
-- What setting and clearing a bit of the bitmap does to every frame.
use kernel_smp.Base.{ℕ, ◌/◌, ◌%◌, ◌<◌, ◌≡◌, not, ◌&&◌, ◌||◌, arith, ◌==◌, update, page_size}
use kernel_smp.Base.Bytes.{
  set_bit, clear_bit, bit_on-set_bit, bit_on-clear_bit, set_bit-lt, clear_bit-lt,
}
use kernel_smp.Pmm.{Pmm, used, pmm_set_frame, pmm_unset_frame}

-- Setting bit `i % 8` of byte `i / 8` marks frame `i` and no other.
pub used-mark :
    (s : Pmm) (i n : ℕ)
    → ((j : ℕ) → s.bytes j < 256)
    → used (record s { bytes = update s.bytes (i / 8) (set_bit (s.bytes (i / 8)) (i % 8)) }) n
      ≡ (n == i || used s n)
unfolding used
used-mark s i n byte =
    ground (arith, bit_on-set_bit (s.bytes (i / 8)) (i % 8) (n % 8), byte (i / 8))

used-unmark :
    (s : Pmm) (i n : ℕ)
    → ((j : ℕ) → s.bytes j < 256)
    → used (record s { bytes = update s.bytes (i / 8) (clear_bit (s.bytes (i / 8)) (i % 8)) }) n
      ≡ (not (n == i) && used s n)
unfolding used
used-unmark s i n byte =
    ground (arith, bit_on-clear_bit (s.bytes (i / 8)) (i % 8) (n % 8), byte (i / 8))

pub mark-byte :
    (f : ℕ → ℕ) (i k j : ℕ) → ((j : ℕ) → f j < 256) → k < 8 → update f i (set_bit (f i) k) j < 256
mark-byte f i k j byte h = ground (arith, set_bit-lt (f i) k, byte i, byte j)

pub unmark-byte :
    (f : ℕ → ℕ) (i k j : ℕ) → ((j : ℕ) → f j < 256) → k < 8 → update f i (clear_bit (f i) k) j < 256
unmark-byte f i k j byte h = ground (arith, clear_bit-lt (f i) k, byte i, byte j)

pub used-set_frame :
    (s : Pmm) (a n : ℕ)
    → ((j : ℕ) → s.bytes j < 256)
    → used (pmm_set_frame s a) n ≡ (n == a / page_size || used s n)
unfolding pmm_set_frame
used-set_frame s a n byte = used-mark s (a / page_size) n byte

pub used-unset_frame :
    (s : Pmm) (a n : ℕ)
    → ((j : ℕ) → s.bytes j < 256)
    → used (pmm_unset_frame s a) n ≡ (not (n == a / page_size) && used s n)
unfolding pmm_unset_frame
used-unset_frame s a n byte = used-unmark s (a / page_size) n byte
