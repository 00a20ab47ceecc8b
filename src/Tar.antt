-- ===== src/Tar.antt =====
-- kernel/fs/initrd.c: the lookup of a file in the tar archive of the initial RAM disk.
use kernel_smp.Base.{
  ℕ, zero, suc, ◌+◌, ◌-◌, ◌*◌, ◌/◌, ◌^◌, ◌≤◌, ◌<◌, ◌≡◌, ◌≢◌, ◌⊎◌, inl, inr, refl, ◌∙◌, Bool, true,
  false, not, ◌&&◌, List, length, Option, none, some, ltb, leb, ◌==◌, if◌then◌else◌, u64, arith,
  Bool-cases,
}
use kernel_smp.Strings.{Memory, Diff, minus, plus, memcmp, strcmp}
use kernel_smp.Strings.Laws.{IsString, strcmp_ends}

pub record Tar : Type 0 where
  pub tar_base : ℕ
  pub tar_limit : ℕ

pub tar_init : ℕ → ℕ → Tar
tar_init address size = record { tar_base = address; tar_limit = size }

-- `octal_to_int` with the result so far.
unfoldable pub octal_from : Memory → ℕ → ℕ → ℕ → ℕ
octal_from mem s zero res = res
octal_from mem s (suc n) res =
    let rest = octal_from mem (suc s) n (u64 (res * 8 + (mem s - 48))) in
    if leb 48 (mem s) && leb (mem s) 55 then rest else res

unfoldable pub octal_to_int : Memory → ℕ → ℕ → ℕ
octal_to_int mem s size = octal_from mem s size 0

-- The offsets of the fields `size` and `magic` in `tar_header_t`.
abbrev pub size_field : ℕ
size_field = 124

abbrev pub magic_field : ℕ
magic_field = 257

abbrev pub is_zero : Diff → Bool
is_zero (minus n) = n == 0
is_zero (plus n) = n == 0

-- `512 + ((size + 511) & ~511)`
abbrev pub entry_size : ℕ → ℕ
entry_size size = u64 (512 + u64 (size + 511) / 512 * 512)

-- The file found: where its data is, and how long.
pub record File : Type 0 where
  pub data_at : ℕ
  pub size : ℕ

-- The loop of `tar_lookup` from a header on. The outer `none` is fuel that is used up; `ustar` is
-- the address of the literal "ustar".
unfoldable pub lookup_from : ℕ → ℕ → Memory → ℕ → ℕ → ℕ → ℕ → Option (Option File)
lookup_from zero name_fuel mem ustar filename limit header = none
lookup_from (suc fuel) name_fuel mem ustar filename limit header =
    let size = octal_to_int mem (header + size_field) 12 in
    let rest =
      lookup_from fuel name_fuel mem ustar filename limit (u64 (header + entry_size size)) in
    let file : File = record { data_at = u64 (header + 512); size = size } in
    let compared : Option (Option File) = elim (strcmp name_fuel mem header filename) [
      | none ↦ none
      | some d ↦ if is_zero d then some (some file) else rest
    ] in
    if ltb header limit && not (mem header == 0)
    then (if is_zero (memcmp mem (header + magic_field) ustar 5) then compared else some none)
    else some none

unfoldable pub tar_lookup : ℕ → ℕ → Memory → ℕ → Tar → ℕ → Option (Option File)
tar_lookup fuel name_fuel mem ustar t filename =
    lookup_from fuel name_fuel mem ustar filename (u64 (t.tar_base + t.tar_limit)) t.tar_base

-- What the result can be before `n` more digits, if it stays below `2 ^ 36` at the end.
top : ℕ → ℕ
top zero = 2 ^ 36
top (suc n) = top n / 8

top_le : (n : ℕ) → top n ≤ 2 ^ 36
unfolding top
top_le zero = omega arith
top_le (suc n) = omega (arith, top_le n)

octal-small : (mem : Memory) (n s res : ℕ) → res < top n → octal_from mem s n res < 2 ^ 36
unfolding octal_from top
octal-small mem zero s res lt = lt
octal-small mem (suc n) s res lt = elim (Bool-cases (leb 48 (mem s) && leb (mem s) 55)) [
  | inl digit ↦ rw digit (octal-small mem n (suc s) _ (less (mem s) digit))
  | inr other ↦ rw other (omega (arith, lt, top_le n))
]
  where
    less : (c : ℕ) → (leb 48 c && leb c 55) ≡ true → u64 (res * 8 + (c - 48)) < top n
    less c digit = let le : c ≤ 55 = ground arith in omega (arith, lt, le, top_le n)

size-small : (mem : Memory) (header : ℕ) → octal_to_int mem (header + size_field) 12 < 2 ^ 36
unfolding octal_to_int top
size-small mem header = octal-small mem 12 (header + size_field) 0 (omega arith)

-- The header after this one.
abbrev next_header : Memory → ℕ → ℕ
next_header mem header = u64 (header + entry_size (octal_to_int mem (header + size_field) 12))

module _ (name_fuel : ℕ) (mem : Memory) (ustar filename limit : ℕ) where
  -- A header before the end, of the ustar format, and how its name compares.
  abbrev pub IsHeader : ℕ → Bool → Type 0
  IsHeader header same =
      (header < limit)
      × (mem header ≢ 0)
      × (is_zero (memcmp mem (header + magic_field) ustar 5) ≡ true)
      × (d : Diff) × (strcmp name_fuel mem header filename ≡ some d)
      × (is_zero d ≡ same)

  -- From `header` on, `n` files of other names lead to `last`.
  abbrev pub Skips : ℕ → ℕ → ℕ → Type 0
  Skips zero header last = header ≡ last
  Skips (suc n) header last = IsHeader header false × Skips n (next_header mem header) last

  -- What a lookup answers at the header where it stops: the file there has the name, or the archive
  -- ends there.
  abbrev pub IsAnswer : ℕ → Option File → Type 0
  IsAnswer header none =
      ((ltb header limit && not (mem header == 0)) ≡ false)
      ⊎ (is_zero (memcmp mem (header + magic_field) ustar 5) ≡ false)
  IsAnswer header (some f) =
      IsHeader header true
      × (f.data_at ≡ u64 (header + 512))
      × (f.size ≡ octal_to_int mem (header + size_field) 12)

advance :
    (header size limit fuel : ℕ)
    → size < 2 ^ 36
    → header < limit
    → limit ≤ 2 ^ 64 - 2 ^ 37
    → limit ≤ header + 512 * suc fuel
    → limit ≤ u64 (header + entry_size size) + 512 * fuel
advance header size limit fuel a b c d = omega arith

-- A round answers, or it goes on to the next header.
round_lem :
    (fuel name_fuel : ℕ) (mem : Memory) (ustar filename : ℕ) (name : List ℕ) (limit header : ℕ)
    → IsString mem filename name
    → length name < name_fuel
    → ((r : Option File) × (lookup_from (suc fuel) name_fuel mem ustar filename limit header
          ≡ some r)
        × IsAnswer name_fuel mem ustar filename limit header r)
      ⊎ (IsHeader name_fuel mem ustar filename limit header false
          × (lookup_from (suc fuel) name_fuel mem ustar filename limit header
              ≡ lookup_from fuel name_fuel mem ustar filename limit (next_header mem header)))
unfolding lookup_from
round_lem fuel name_fuel mem ustar filename name limit header named enough =
    elim (Bool-cases (ltb header limit && not (mem header == 0))) [
      | inr stop ↦ inl (none, ground arith, inl stop)
      | inl go ↦ elim (Bool-cases (is_zero (memcmp mem (header + magic_field) ustar 5))) [
        | inr stop ↦ inl (none, ground arith, inr stop)
        | inl magic ↦
            let (d, e) = strcmp_ends mem name_fuel name header filename named enough in
            elim (Bool-cases (is_zero d)) [
              | inl found ↦ inl (
                some (record {
                  data_at = u64 (header + 512);
                  size = octal_to_int mem (header + size_field) 12;
                }),
                ground arith,
                ((ground arith, ground arith, magic, d, e, found), refl, refl),
              )
              | inr other ↦ inr ((ground arith, ground arith, magic, d, e, other), ground arith)
            ]
      ]
    ]

lookup_from_lem :
    (fuel name_fuel : ℕ) (mem : Memory) (ustar filename : ℕ) (name : List ℕ) (limit header : ℕ)
    → IsString mem filename name
    → length name < name_fuel
    → limit ≤ 2 ^ 64 - 2 ^ 37
    → limit ≤ header + 512 * fuel
    → (r : Option File) × (lookup_from (suc fuel) name_fuel mem ustar filename limit header
        ≡ some r)
      × (n : ℕ) × (last : ℕ) × Skips name_fuel mem ustar filename limit n header last
      × IsAnswer name_fuel mem ustar filename limit last r
lookup_from_lem zero name_fuel mem ustar filename name limit header named enough low le =
    elim (round_lem 0 name_fuel mem ustar filename name limit header named enough) [
      | inl (r, found, answer) ↦ (r, found, 0, header, refl, answer)
      | inr (skip, e) ↦ absurd (omega (arith, skip.0, le))
    ]
lookup_from_lem (suc n) name_fuel mem ustar filename name limit header named enough low le =
    elim (round_lem (suc n) name_fuel mem ustar filename name limit header named enough) [
      | inl (r, found, answer) ↦ (r, found, 0, header, refl, answer)
      | inr (skip, e) ↦
          let (r, found, m, last, skips, answer) =
            lookup_from_lem n name_fuel mem ustar filename name limit (next_header mem header) named
              enough low
              (advance header (octal_to_int mem (header + size_field) 12) limit n
                (size-small mem header) skip.0 low le) in
          (r, e ∙ found, suc m, last, (skip, skips), answer)
    ]

-- On an archive that ends at `2 ^ 64 - 2 ^ 37` at most, a lookup ends after a round for each 512 bytes and one
-- more. It passes over files of other names, and stops at a file of the name, whose data and size
-- it returns, or finds none where the archive ends: at its limit, at a NUL, or at a header that is
-- not of the ustar format.
pub tar_lookup_lem :
    (fuel name_fuel : ℕ) (mem : Memory) (ustar : ℕ) (t : Tar) (filename : ℕ) (name : List ℕ)
    → IsString mem filename name
    → length name < name_fuel
    → t.tar_base + t.tar_limit ≤ 2 ^ 64 - 2 ^ 37
    → t.tar_limit ≤ 512 * fuel
    → (r : Option File) × (tar_lookup (suc fuel) name_fuel mem ustar t filename ≡ some r)
      × (n : ℕ) × (last : ℕ) × Skips name_fuel mem ustar filename
          (t.tar_base + t.tar_limit)
          n
          t.tar_base
          last
      × IsAnswer name_fuel mem ustar filename (t.tar_base + t.tar_limit) last r
unfolding tar_lookup
tar_lookup_lem fuel name_fuel mem ustar t filename name named enough low le =
    let exact : u64 (t.tar_base + t.tar_limit) ≡ t.tar_base + t.tar_limit = omega arith in
    rw exact (
      lookup_from_lem fuel name_fuel mem ustar filename name (t.tar_base + t.tar_limit) t.tar_base
        named enough low (omega arith))
