-- ===== src/Io/Length.antt =====
-- How many characters `vsnprintf` writes into a buffer of `n` bytes.
use kernel_smp.Base.{
  ℕ, ◌+◌, ◌-◌, ◌*◌, ◌%◌, ◌^◌, ◌≤◌, ◌<◌, ◌≡◌, refl, ap, List, [], ◌∷◌, ◌++◌, length, length-append,
  Bool-cases, Option-cases, inl, inr, Option, some, none, ltb, ltb→lt, ◌==◌, arith,
}
use mathlib.Core.Option.{some-injective, none-ne-some}
use kernel_smp.Io.{
  Arg, word, text, Mode, plain, start, sized, ksprint_int, copy_string, append_to, convert, print,
  vsnprintf, is_decimal, width_of, pad_of, minus, null_text,
}
use kernel_smp.Io.Digits.{length-ksprint_int}

length-snoc : (c : ℕ) (out : List ℕ) → length (out ++ c ∷ []) ≡ length out + 1
length-snoc c out = omega (arith, length-append out (c ∷ []))

length-copy : (n : ℕ) (cs out : List ℕ) → length out + 1 ≤ n → length (copy_string n cs out) + 1 ≤ n
unfolding copy_string
length-copy n [] out h = h
length-copy n (c ∷ cs) out h = elim (Bool-cases (ltb (length out + 1) n)) [
  | inl room ↦ rw room (
      length-copy n cs (out ++ c ∷ [])
        (omega (arith, ltb→lt (length out + 1) n room, length-snoc c out)))
  | inr full ↦ rw full h
]

length-append_to :
    (value base width pad : ℕ) (out out' : List ℕ) (args args' : List Arg)
    → append_to out args (ksprint_int value base width pad) ≡ some (out', args')
    → length out' ≤ length out + 65
unfolding append_to
length-append_to value base width pad out out' args args' e =
    elim (Option-cases (ksprint_int value base width pad)) [
      | inl f ↦ absurd (none-ne-some (out', args') (rw (f, append_to) at e))
      | inr (cs, f) ↦
          let same : out ++ cs ≡ out' =
            ap (λ (r : List ℕ × List Arg). r.0) (some-injective _ _ (rw (f, append_to) at e)) in
          rw (← same)
            (omega (arith, length-append out cs, length-ksprint_int value base width pad cs f))
    ]

module _ (n c : ℕ) (mode : Mode) (args' : List Arg) (out out' : List ℕ)
    (room : length out + 1 < n) where
  -- A conversion starts where there is room for a character, and writes 66 at most.
  convert_none : convert n c mode [] out ≡ some (out', args') → length out' ≤ n + 64
  unfolding convert
  convert_none e = ground (arith, length-snoc c out)

  convert-text :
      (s : Option (List ℕ)) (args : List Arg)
      → convert n c mode (text s ∷ args) out ≡ some (out', args')
      → length out' ≤ n + 64
  unfolding convert
  convert-text none args e = ground (arith, length-snoc c out, length-copy n null_text out)
  convert-text (some cs) args e = ground (arith, length-snoc c out, length-copy n cs out)

  convert_word :
      (a : ℕ) (args : List Arg)
      → convert n c mode (word a ∷ args) out ≡ some (out', args')
      → length out' ≤ n + 64
  unfolding convert
  convert_word a args e = ground (
    arith,
    length-snoc c out,
    length-snoc (a % 256) out,
    length-snoc minus out,
    length-append out (b'0' ∷ b'x' ∷ []),
    length-append_to a 10 (width_of mode) (pad_of mode) out out' args args',
    length-append_to (2 ^ 64 - a) 10 (width_of mode) (pad_of mode) (out ++ minus ∷ []) out' args
        args',
    length-append_to a 16 (width_of mode) (pad_of mode) out out' args args',
    length-append_to a 2 (width_of mode) (pad_of mode) out out' args args',
    length-append_to a 16 16 b'0' (out ++ b'0' ∷ b'x' ∷ []) out' args args',
  )

length-convert :
    (n c : ℕ) (mode : Mode) (args args' : List Arg) (out out' : List ℕ)
    → length out + 1 < n
    → convert n c mode args out ≡ some (out', args')
    → length out' ≤ n + 64
length-convert n c mode [] args' out out' room e = convert_none n c mode args' out out' room e
length-convert n c mode (text s ∷ args) args' out out' room e =
    convert-text n c mode args' out out' room s args e
length-convert n c mode (word a ∷ args) args' out out' room e =
    convert_word n c mode args' out out' room a args e

-- Behind a `%` there is room for a character.
abbrev Fits : ℕ → Mode → List ℕ → Type 0
Fits n plain out = length out ≤ n + 64
Fits n start out = length out + 1 < n
Fits n (sized width pad) out = length out + 1 < n

-- A conversion that is complete goes on at plain characters.
converted :
    (n : ℕ) (cs : List ℕ) (result : Option (List ℕ × List Arg)) (r : List ℕ)
    → ((out' : List ℕ) (args' : List Arg) → result ≡ some (out', args') → length out' ≤ n + 64)
    → ((args' : List Arg) (out' : List ℕ)
        → length out' ≤ n + 64
        → print n cs plain args' out' ≡ some r
        → length r ≤ n + 64)
    → elim result [ none ↦ none | some (out', args') ↦ print n cs plain args' out' ] ≡ some r
    → length r ≤ n + 64
converted n cs none r short rest e = absurd (none-ne-some r e)
converted n cs (some (out', args')) r short rest e = rest args' out' (short out' args' refl) e

length-print :
    (n : ℕ) (fmt : List ℕ) (mode : Mode) (args : List Arg) (out r : List ℕ)
    → Fits n mode out
    → print n fmt mode args out ≡ some r
    → length r ≤ n + 64
unfolding print
length-print n [] plain args out r fits e = rw (← some-injective out r e) fits
length-print n [] start args out r fits e = absurd (none-ne-some r e)
length-print n [] (sized width pad) args out r fits e = absurd (none-ne-some r e)
length-print n (c ∷ cs) plain args out r fits e = elim (Bool-cases (ltb (length out + 1) n)) [
  | inr full ↦ rw (← some-injective out r (rw full at e)) fits
  | inl room ↦
      let less : length out + 1 < n = ltb→lt (length out + 1) n room in
      elim (Bool-cases (c == b'%')) [
        | inl directive ↦ length-print n cs start args out r less (rw (room, directive) at e)
        | inr other ↦
            length-print n cs plain args (out ++ c ∷ []) r (omega (arith, length-snoc c out))
              (rw (room, other) at e)
      ]
]
length-print n (c ∷ cs) start args out r fits e = elim (Bool-cases (is_decimal c)) [
  | inl dec ↦ elim (Bool-cases (c == b'0')) [
    | inl z ↦ length-print n cs (sized 0 b'0') args out r fits (rw (dec, z) at e)
    | inr z ↦ length-print n cs (sized (c - b'0') b' ') args out r fits (rw (dec, z) at e)
  ]
  | inr other ↦
      converted n cs (convert n c start args out) r
        (λ out' args' f. length-convert n c start args args' out out' fits f)
        (λ args' out' short f. length-print n cs plain args' out' r short f) (rw other at e)
]
length-print n (c ∷ cs) (sized width pad) args out r fits e = elim (Bool-cases (is_decimal c)) [
  | inl dec ↦ length-print n cs (sized (width * 10 + (c - b'0')) pad) args out r fits (rw dec at e)
  | inr other ↦
      converted n cs (convert n c (sized width pad) args out) r
        (λ out' args' f. length-convert n c (sized width pad) args args' out out' fits f)
        (λ args' out' short f. length-print n cs plain args' out' r short f) (rw other at e)
]

-- Where the arguments fit the format and no width exceeds 65, `vsnprintf` writes at most 65 bytes behind a buffer of `n`
-- bytes, its NUL included: a number is printed whole where there was room for one character.
pub length-vsnprintf :
    (n : ℕ) (fmt : List ℕ) (args : List Arg) (cs : List ℕ)
    → vsnprintf n fmt args ≡ some cs
    → length cs + 1 ≤ n + 65
unfolding vsnprintf
length-vsnprintf n fmt args cs e =
    omega (arith, length-print n fmt plain args [] cs (omega arith) e)
