-- ===== src/Io.antt =====
-- common/io.c: the formatted output of the kernel. A text is the list of its characters; a result
-- `none` is an access outside an array, or an argument that is missing or of another kind.
pub mod Digits
pub mod Length
mod Tests
use kernel_smp.Base.{
  ℕ, zero, suc, ◌+◌, ◌-◌, ◌*◌, ◌/◌, ◌%◌, ◌^◌, Bool, true, false, not, ◌&&◌, ◌||◌, List, [], ◌∷◌,
  ◌++◌, length, Option, none, some, ltb, leb, ◌==◌, if◌then◌else◌,
}

-- `digits[d]`, for a base up to 16
abbrev pub digit : ℕ → ℕ
digit d = if ltb d 10 then b'0' + d else b'a' + (d - 10)

-- The first loop of `ksprint_int`, from the lowest digit on. The fuel is the size of `tmp`.
pub digits_of : ℕ → ℕ → ℕ → List ℕ
digits_of zero value base = []
digits_of (suc n) value base =
    let rest = digits_of n (value / base) base in
    digit (value % base) ∷ (if value / base == 0 then [] else rest)

-- The third loop writes `tmp` from its end.
abbrev pub rev_append : List ℕ → List ℕ → List ℕ
rev_append [] ys = ys
rev_append (x ∷ xs) ys = rev_append xs (x ∷ ys)

abbrev pub replicate : ℕ → ℕ → List ℕ
replicate zero x = []
replicate (suc n) x = x ∷ replicate n x

-- `sizeof(tmp)`
abbrev pub tmp_size : ℕ
tmp_size = 65

-- The characters that are written. A width above 65 writes behind `tmp`.
unfoldable pub ksprint_int : ℕ → ℕ → ℕ → ℕ → Option (List ℕ)
ksprint_int value base width pad =
    let low = digits_of tmp_size value base in
    if leb width tmp_size
    then some (rev_append (low ++ replicate (width - length low) pad) [])
    else none

-- What `va_arg` finds: a word, or a string, NULL as `none`.
pub data Arg : Type 0 where
  word : ℕ → Arg
  text : Option (List ℕ) → Arg

-- Where the reading of the format is: at a plain character, behind a `%`, or behind a width.
pub data Mode : Type 0 where
  plain : Mode
  start : Mode
  sized : ℕ → ℕ → Mode

abbrev pub is_decimal : ℕ → Bool
is_decimal c = leb b'0' c && leb c b'9'

-- The mode behind the character `c` of a flag or of a width.
abbrev pub next_mode : Mode → ℕ → Mode
next_mode plain c = plain
next_mode start c = if c == b'0' then sized 0 b'0' else sized (c - b'0') b' '
next_mode (sized width pad) c = sized (width * 10 + (c - b'0')) pad

abbrev pub width_of : Mode → ℕ
width_of plain = 0
width_of start = 0
width_of (sized width pad) = width

abbrev pub pad_of : Mode → ℕ
pad_of plain = b' '
pad_of start = b' '
pad_of (sized width pad) = pad

-- The copy of a string stops before the last byte of the buffer.
unfoldable pub copy_string : ℕ → List ℕ → List ℕ → List ℕ
copy_string n [] out = out
copy_string n (c ∷ cs) out =
    let rest = copy_string n cs (out ++ c ∷ []) in if ltb (length out + 1) n then rest else out

abbrev pub null_text : List ℕ
null_text = b'(' ∷ b'n' ∷ b'u' ∷ b'l' ∷ b'l' ∷ b')' ∷ []

-- The characters behind `out`, and the arguments that are left.
unfoldable pub append_to : List ℕ → List Arg → Option (List ℕ) → Option (List ℕ × List Arg)
append_to out args none = none
append_to out args (some cs) = some (out ++ cs, args)

abbrev pub minus : ℕ
minus = b'-'

-- The conversion `c`. A pointer for which there is no room is not taken from the arguments.
unfoldable pub convert : ℕ → ℕ → Mode → List Arg → List ℕ → Option (List ℕ × List Arg)
convert n c mode [] out =
    let room = ltb (length out + 19) n in
    if c == b'c' || (c == b's' || (c == b'd' || (c == b'x' || c == b'b')))
    then none
    else if c == b'p'
    then (if room then none else some (out, []))
    else some (out ++ c ∷ [], [])
convert n c mode (text s ∷ args) out =
    let room = ltb (length out + 19) n in
    let string : List ℕ = elim s [ none ↦ null_text | some cs ↦ cs ] in
    if c == b's'
    then some (copy_string n string out, args)
    else if c == b'c' || (c == b'd' || (c == b'x' || c == b'b'))
    then none
    else if c == b'p'
    then (if room then none else some (out, text s ∷ args))
    else some (out ++ c ∷ [], text s ∷ args)
convert n c mode (word a ∷ args) out =
    let number : ℕ → ℕ → Option (List ℕ × List Arg) =
      λ v base. append_to out args (ksprint_int v base (width_of mode) (pad_of mode)) in
    let signed : Option (List ℕ × List Arg) =
      if ltb a (2 ^ 63)
      then number a 10
      else append_to (out ++ minus ∷ []) args
          (ksprint_int (2 ^ 64 - a) 10 (width_of mode) (pad_of mode)) in
    let pointer : Option (List ℕ × List Arg) =
      if ltb (length out + 19) n
      then append_to (out ++ b'0' ∷ b'x' ∷ []) args (ksprint_int a 16 16 b'0')
      else some (out, word a ∷ args) in
    if c == b'c'
    then some (out ++ (a % 256) ∷ [], args)
    else if c == b's'
    then none
    else if c == b'd'
    then signed
    else if c == b'x'
    then number a 16
    else if c == b'p'
    then pointer
    else if c == b'b'
    then number a 2
    else some (out ++ c ∷ [], word a ∷ args)

-- The loop over the format, which ends with a NUL; a format that ends behind a `%` is read on.
pub print : ℕ → List ℕ → Mode → List Arg → List ℕ → Option (List ℕ)
print n [] plain args out = some out
print n [] start args out = none
print n [] (sized width pad) args out = none
print n (c ∷ cs) plain args out =
    let directive = print n cs start args out in
    let copied = print n cs plain args (out ++ c ∷ []) in
    if not (ltb (length out + 1) n) then some out else if c == b'%' then directive else copied
print n (c ∷ cs) start args out =
    let wider = print n cs (next_mode start c) args out in
    let converted : Option (List ℕ) = elim (convert n c start args out) [
      | none ↦ none
      | some (out', args') ↦ print n cs plain args' out'
    ] in
    if is_decimal c then wider else converted
print n (c ∷ cs) (sized width pad) args out =
    let wider = print n cs (next_mode (sized width pad) c) args out in
    let converted : Option (List ℕ) = elim (convert n c (sized width pad) args out) [
      | none ↦ none
      | some (out', args') ↦ print n cs plain args' out'
    ] in
    if is_decimal c then wider else converted

-- The characters before the NUL; their number is the result of the function.
pub vsnprintf : ℕ → List ℕ → List Arg → Option (List ℕ)
vsnprintf n fmt args = print n fmt plain args []
