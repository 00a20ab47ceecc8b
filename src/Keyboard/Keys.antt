-- ===== src/Keyboard/Keys.antt =====
-- What the machine of kernel/arch/x86_64/drivers/ps2/ps2_kbd.c makes of the scancodes.
use kernel_smp.Base.{
  ℕ, ◌+◌, ◌<◌, ◌≡◌, ◌≢◌, refl, Bool, true, false, not, ◌&&◌, ◌||◌, get_or, ltb, leb, ◌==◌,
  if◌then◌else◌, arith,
}
use kernel_smp.Base.Bytes.{every_below, every_below-at}
use kernel_smp.Keyboard.{
  Keyboard, kbd_step, ascii_of, xor, scancode_set2_lower, scancode_set2_upper,
}

-- A key is released: the code after 0xF0 types nothing, ends the prefix, and lets go of the shift
-- key when it is its code. The caps lock stays.
pub kbd_step-break :
    (scancode : ℕ) (k : Keyboard)
    → scancode ≢ 0xE0
    → scancode ≢ 0xF0
    → let (k', c) = kbd_step scancode (kbd_step 0xF0 k).0 in
      (c ≡ 0)
      × (k'.is_break ≡ false)
      × (k'.is_caps ≡ k.is_caps)
      × (k'.is_shifted ≡ (k.is_shifted && not (scancode == 0x12 || scancode == 0x59)))
unfolding kbd_step
kbd_step-break scancode k a b = ground arith

abbrev pub is_letter : ℕ → Bool
is_letter c = leb 97 c && ltb c 123

abbrev letter_ok : ℕ → Bool
letter_ok i =
    let c = get_or scancode_set2_lower i 0 in
    not (is_letter c)
    || (get_or scancode_set2_upper i 0 + 32 == c && not (i == 0x12 || i == 0x59 || i == 0x58))

letters : every_below 128 letter_ok ≡ true
unfolding every_below
letters = refl

-- What the two tables say of a letter.
letter_lem :
    (i : ℕ)
    → i < 128
    → is_letter (get_or scancode_set2_lower i 0) ≡ true
    → (get_or scancode_set2_upper i 0 + 32 ≡ get_or scancode_set2_lower i 0)
      × (i ≢ 0x12)
      × (i ≢ 0x59)
      × (i ≢ 0x58)
letter_lem i l a =
    by_test (get_or scancode_set2_lower i 0) (get_or scancode_set2_upper i 0)
      (every_below-at 128 letter_ok i l letters) a
  where
    by_test :
        (c u : ℕ)
        → (not (is_letter c) || (u + 32 == c && not (i == 0x12 || i == 0x59 || i == 0x58))) ≡ true
        → is_letter c ≡ true
        → (u + 32 ≡ c) × (i ≢ 0x12) × (i ≢ 0x59) × (i ≢ 0x58)
    by_test c u h a = ground arith

-- A code that is no prefix, no shift and no caps lock types what the tables say.
typed :
    (scancode : ℕ) (k : Keyboard)
    → scancode < 128
    → scancode ≢ 0x12
    → scancode ≢ 0x59
    → scancode ≢ 0x58
    → k.is_break ≡ false
    → (kbd_step scancode k).1 ≡ ascii_of k scancode
unfolding kbd_step
typed scancode k l n₁ n₂ n₃ nb = ground arith

pick : (b : Bool) (c u : ℕ) → u + 32 ≡ c → (if b then u else c) + (if b then 32 else 0) ≡ c
pick true c u e = e
pick false c u e = omega arith

-- A key of a letter that goes down, with no break prefix before, types the small letter if neither
-- or both of the shift key and the caps lock are on, and the capital letter otherwise.
pub kbd_step-letter :
    (scancode : ℕ) (k : Keyboard)
    → scancode < 128
    → is_letter (get_or scancode_set2_lower scancode 0) ≡ true
    → k.is_break ≡ false
    → (kbd_step scancode k).1 + (if xor k.is_shifted k.is_caps then 32 else 0)
      ≡ get_or scancode_set2_lower scancode 0
unfolding ascii_of
kbd_step-letter scancode k l a nb =
    let (up, n₁, n₂, n₃) = letter_lem scancode l a in
    rw (typed scancode k l n₁ n₂ n₃ nb) (
      pick (xor k.is_shifted k.is_caps) (get_or scancode_set2_lower scancode 0)
        (get_or scancode_set2_upper scancode 0) up)
