-- ===== src/Keyboard/Queue.antt =====
-- The buffer of kernel/arch/x86_64/drivers/ps2/ps2_kbd.c as a queue that holds 255 characters.
use kernel_smp.Base.{
  ℕ, suc, ◌+◌, ◌%◌, ◌<◌, ◌≡◌, refl, ◌∙◌, sym, ap, inl, inr, true, false, List, [], ◌∷◌, ◌++◌,
  Option, none, some, length, ◌==◌, if◌then◌else◌, update, update_self, arith, Bool-cases, ne→==,
}
use kernel_smp.Ring.{place, window, fill, length-window, window-snoc, window-update}
use kernel_smp.Keyboard.{Buffer, kbd_push_char, kbd_pop_char}

pub record InBounds (b : Buffer) : Type 0 where
  pub head : b.head < 256
  pub tail : b.tail < 256

abbrev pub contents : Buffer → List ℕ
contents b = window 256 b.chars b.tail (fill 256 b.head b.tail)

-- A queue that drops what does not fit.
abbrev pub push_queue : ℕ → List ℕ → List ℕ
push_queue c q = if length q == 255 then q else q ++ (c ∷ [])

-- The queue without its first character, and that character.
abbrev pub pop_queue : List ℕ → List ℕ × Option ℕ
pop_queue [] = ([], none)
pop_queue (c ∷ q) = (q, some c)

-- How the buffer looks around its head.
head_at : (b : Buffer) → InBounds b → place 256 b.tail (fill 256 b.head b.tail) ≡ b.head
head_at b v = ground (arith, v.head, v.tail)

full :
    (b : Buffer) → InBounds b → ((b.head + 1) % 256 == b.tail) ≡ true → fill 256 b.head b.tail ≡ 255
full b v e = ground (arith, v.head, v.tail)

not_full :
    (b : Buffer)
    → InBounds b
    → ((b.head + 1) % 256 == b.tail) ≡ false
    → (fill 256 ((b.head + 1) % 256) b.tail ≡ suc (fill 256 b.head b.tail))
      × (fill 256 b.head b.tail < 255)
not_full b v e = (ground (arith, v.head, v.tail), ground (arith, v.head, v.tail))

pushed :
    (c : ℕ) (b : Buffer)
    → InBounds b
    → ((b.head + 1) % 256 == b.tail) ≡ false
    → window 256 (update b.chars b.head c) b.tail (fill 256 ((b.head + 1) % 256) b.tail)
      ≡ contents b ++ (c ∷ [])
pushed c b v e =
    let n = fill 256 b.head b.tail in
    let (longer, less) = not_full b v e in
    ap (window 256 (update b.chars b.head c) b.tail) longer
    ∙ window-snoc 256 (update b.chars b.head c) b.tail n v.tail (omega (arith, less))
    ∙ ap (λ p. window 256 (update b.chars b.head c) b.tail n ++ (update b.chars b.head c p ∷ []))
        (head_at b v)
    ∙ ap (λ x. window 256 (update b.chars b.head c) b.tail n ++ (x ∷ []))
        (update_self b.chars b.head c)
    ∙ ap (λ p. window 256 (update b.chars p c) b.tail n ++ (c ∷ [])) (sym (head_at b v))
    ∙ ap (λ w. w ++ (c ∷ []))
        (window-update 256 b.chars b.tail n n c v.tail (omega arith) (omega (arith, less)))

-- On indices in bounds, a push keeps them in bounds and puts the character at the end of the queue,
-- unless 255 characters wait.
pub kbd_push_char_lem :
    (c : ℕ) (b : Buffer)
    → InBounds b
    → InBounds (kbd_push_char c b) × (contents (kbd_push_char c b) ≡ push_queue c (contents b))
unfolding kbd_push_char
kbd_push_char_lem c b v = elim (Bool-cases ((b.head + 1) % 256 == b.tail)) [
  | inl e ↦
      rw e (v, rw (length-window 256 b.chars b.tail (fill 256 b.head b.tail), full b v e) refl)
  | inr e ↦
      let (_, less) = not_full b v e in
      rw e (
        record { head = omega arith; tail = v.tail },
        rw
            (
              length-window 256 b.chars b.tail (fill 256 b.head b.tail),
              ne→== (fill 256 b.head b.tail) 255 (λ a. absurd (omega (arith, a, less))),
            )
            (pushed c b v e),
      )
]

empty : (b : Buffer) → (b.head == b.tail) ≡ true → fill 256 b.head b.tail ≡ 0
empty b e = ground arith

not_empty :
    (b : Buffer)
    → InBounds b
    → (b.head == b.tail) ≡ false
    → fill 256 b.head b.tail ≡ suc (fill 256 b.head ((b.tail + 1) % 256))
not_empty b v e = ground (arith, v.head, v.tail)

next_place : (i : ℕ) → i < 256 → place 256 i 1 ≡ (i + 1) % 256
next_place i l = ground arith

popped :
    (b : Buffer)
    → InBounds b
    → (b.head == b.tail) ≡ false
    → contents b
      ≡ b.chars b.tail
        ∷ window 256 b.chars ((b.tail + 1) % 256) (fill 256 b.head ((b.tail + 1) % 256))
unfolding window
popped b v e =
    ap (window 256 b.chars b.tail) (not_empty b v e)
    ∙ ap (λ i. b.chars b.tail ∷ window 256 b.chars i (fill 256 b.head ((b.tail + 1) % 256)))
        (next_place b.tail v.tail)

-- On indices in bounds, a pop keeps them in bounds and takes the oldest character, if there is one.
pub kbd_pop_char_lem :
    (b : Buffer)
    → InBounds b
    → InBounds (kbd_pop_char b).0
      × ((contents (kbd_pop_char b).0, (kbd_pop_char b).1) ≡ pop_queue (contents b))
unfolding kbd_pop_char window
kbd_pop_char_lem b v = elim (Bool-cases (b.head == b.tail)) [
  | inl e ↦
      let none_left : contents b ≡ [] = ap (window 256 b.chars b.tail) (empty b e) in
      rw e (v, ap (λ q. (q, none)) none_left ∙ ap pop_queue (sym none_left))
  | inr e ↦ rw e (record { head = v.head; tail = omega arith }, ap pop_queue (sym (popped b v e)))
]
