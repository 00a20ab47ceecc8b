-- ===== src/Tests/Devices.antt =====
-- The theorems of the keyboard, the log, the strings and the archive at small inputs.
use kernel_smp.Base.{
  ℕ, ◌≡◌, refl, Option, some, List, [], ◌∷◌, ◌==◌, ◌+◌, ◌||◌, if◌then◌else◌, arith,
}
use kernel_smp.Keyboard.{Buffer, kbd_push_char}
use kernel_smp.Keyboard.Queue.{InBounds, contents, push_queue, kbd_push_char_lem}
use kernel_smp.Strings.Laws.{IsString}
use kernel_smp.Strings.{strcmp, memcmp}
use kernel_smp.Tar.{
  lookup_from, octal_to_int, octal_from, Tar, File, Skips, IsAnswer, tar_lookup, tar_lookup_lem,
}

-- Two characters, the first at the end of the array.
abbrev buffer : Buffer
buffer = record { chars = λ i. if i == 255 then 104 else 105; head = 1; tail = 255 }

buffer_bounds : InBounds buffer
buffer_bounds = record { head = omega arith; tail = omega arith }

kbd_push_char_lem_example :
    InBounds (kbd_push_char 33 buffer)
    × (contents (kbd_push_char 33 buffer) ≡ push_queue 33 (contents buffer))
kbd_push_char_lem_example = kbd_push_char_lem 33 buffer buffer_bounds

-- "ab" at 16.
abbrev memory : ℕ → ℕ
memory p = if p == 16 then 97 else if p == 17 then 98 else 0

abbrev ab : List ℕ
ab = 97 ∷ 98 ∷ []

-- The direct map of the RAM disk: the empty file "x", and the file "ab" of five bytes.
abbrev base : ℕ
base = 0xFFFF800001000000

abbrev disk : ℕ → ℕ
disk p =
    if p == base
    then 120
    else if p == base + 512
    then 97
    else if p == base + 513
    then 98
    else if p == base + 636
    then 53
    else if p == base + 257 || p == base + 769 || p == 64
    then 117
    else if p == base + 258 || p == base + 770 || p == 65
    then 115
    else if p == base + 259 || p == base + 771 || p == 66
    then 116
    else if p == base + 260 || p == base + 772 || p == 67
    then 97
    else if p == base + 261 || p == base + 773 || p == 68
    then 114
    else memory p

ab_there : IsString disk 16 ab
unfolding IsString
ab_there = (λ e. absurd (omega (arith, e)), refl, (λ e. absurd (omega (arith, e)), refl, refl))

abbrev archive : Tar
archive = record { tar_base = base; tar_limit = 2048 }

-- The lookup passes over "x" and finds "ab".
ab_found :
    tar_lookup 5 3 disk 64 archive 16 ≡ some (some (record { data_at = base + 1024; size = 5 }))
unfolding tar_lookup lookup_from octal_to_int octal_from strcmp memcmp
ab_found = refl

tar_lookup_lem_example :
    (r : Option File) × (tar_lookup 5 3 disk 64 archive 16 ≡ some r)
    × (n : ℕ) × (last : ℕ) × Skips 3 disk 64 16 (base + 2048) n base last
    × IsAnswer 3 disk 64 16 (base + 2048) last r
tar_lookup_lem_example =
    tar_lookup_lem 4 3 disk 64 archive 16 ab ab_there (omega arith) (omega arith) (omega arith)
