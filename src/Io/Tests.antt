-- ===== src/Io/Tests.antt =====
-- Numbers that are printed, one of them into a buffer that is too short.
use kernel_smp.Base.{ℕ, ◌+◌, ◌≤◌, ◌-◌, ◌≡◌, refl, List, [], ◌∷◌, ◌++◌, All, length, some, arith}
use kernel_smp.Io.{word, ksprint_int, digits_of, append_to, convert, print, vsnprintf, replicate}
use kernel_smp.Io.Digits.{read_number, IsDigit, HasLength, ksprint_int_lem}
use kernel_smp.Io.Length.{length-vsnprintf}

ksprint_int_lem_example :
    (ds : List ℕ) × (ksprint_int 0xBEEF 16 8 b'0' ≡ some (replicate (8 - length ds) b'0' ++ ds))
    × All (IsDigit 16) ds
    × (read_number 16 0 ds ≡ 0xBEEF)
    × HasLength 16 0xBEEF ds
    × (length ds ≤ 65)
ksprint_int_lem_example =
    ksprint_int_lem 0xBEEF 16 8 b'0' (omega arith) (omega arith) (omega arith) (omega arith)

-- Six digits, into a buffer of four bytes.
abbrev six : List ℕ
six = b'1' ∷ b'2' ∷ b'3' ∷ b'4' ∷ b'5' ∷ b'6' ∷ []

overruns : vsnprintf 4 (b'%' ∷ b'd' ∷ []) (word 123456 ∷ []) ≡ some six
unfolding vsnprintf print convert append_to ksprint_int digits_of
overruns = refl

length-vsnprintf_example : length six + 1 ≤ 4 + 65
length-vsnprintf_example = length-vsnprintf 4 (b'%' ∷ b'd' ∷ []) (word 123456 ∷ []) six overruns
