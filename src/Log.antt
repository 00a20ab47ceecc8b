-- ===== src/Log.antt =====
-- The log of kernel/arch/x86_64/serial.c: a circular buffer that forgets its oldest character when
-- it is full. The serial port is hardware: what it accepts is an argument.
use kernel_smp.Base.{
  ℕ, zero, suc, ◌+◌, ◌*◌, ◌/◌, ◌%◌, ◌^◌, ◌<◌, ◌≡◌, refl, ◌∙◌, sym, ap, ◌≢◌, inl, inr, true, false,
  List, [], ◌∷◌, ◌++◌, length, ◌==◌, if◌then◌else◌, update, update_self, arith, Bool-cases, u32,
  ne→==, get_or,
}
use kernel_smp.Ring.{place, window, fill, length-window, window-snoc, window-update}

abbrev pub buffer_size : ℕ
buffer_size = 128 * 1024

pub record Log : Type 0 where
  pub log_buffer : ℕ → ℕ
  pub log_head : ℕ
  pub log_tail : ℕ

pub log_putc : ℕ → Log → Log
log_putc c l =
    let next = u32 (l.log_head + 1) % buffer_size in
    record {
      log_buffer = update l.log_buffer l.log_head c;
      log_head = next;
      log_tail = if next == l.log_tail then u32 (l.log_tail + 1) % buffer_size else l.log_tail;
    }

-- A string is the list of its characters before the NUL. A line feed is logged after a return.
pub kprint : List ℕ → Log → Log
kprint [] l = l
kprint (c ∷ s) l = kprint s (log_putc c (if c == 10 then log_putc 13 l else l))

abbrev pub hex_chars : List ℕ
hex_chars = 48 ∷ 49 ∷ 50 ∷ 51 ∷ 52 ∷ 53 ∷ 54 ∷ 55 ∷ 56 ∷ 57 ∷ 65 ∷ 66 ∷ 67 ∷ 68 ∷ 69 ∷ 70 ∷ []

-- The nibbles from `n - 1` down to 0.
pub put_nibbles : ℕ → ℕ → Log → Log
put_nibbles zero value l = l
put_nibbles (suc i) value l =
    put_nibbles i value (log_putc (get_or hex_chars (value / 2 ^ (i * 4) % 16) 0) l)

pub kprint_hex : ℕ → Log → Log
kprint_hex value l = put_nibbles 16 value (log_putc 120 (log_putc 48 l))

-- The loop of `log_flush` while the port is ready, `ready` rounds at most: the log, and what is sent.
pub log_flush : ℕ → Log → Log × List ℕ
log_flush zero l = (l, [])
log_flush (suc ready) l =
    let (rest, sent) =
      log_flush ready (record l { log_tail = u32 (l.log_tail + 1) % buffer_size }) in
    if l.log_head == l.log_tail then (l, []) else (rest, l.log_buffer l.log_tail ∷ sent)

pub record InBounds (l : Log) : Type 0 where
  pub head : l.log_head < 131072
  pub tail : l.log_tail < 131072

abbrev pub logged : Log → List ℕ
logged l = window 131072 l.log_buffer l.log_tail (fill 131072 l.log_head l.log_tail)

abbrev pub drop_first : List ℕ → List ℕ
drop_first [] = []
drop_first (c ∷ s) = s

-- The log with a character more: the oldest is forgotten when 131071 are there.
abbrev pub remember : ℕ → List ℕ → List ℕ
remember c s = if length s == 131071 then drop_first s ++ (c ∷ []) else s ++ (c ∷ [])

drop_first-append : (s t : List ℕ) → length s ≢ 0 → drop_first (s ++ t) ≡ drop_first s ++ t
drop_first-append [] t ne = absurd (ne refl)
drop_first-append (c ∷ s) t ne = refl

remember_full : (c : ℕ) (s : List ℕ) → length s ≡ 131071 → remember c s ≡ drop_first s ++ (c ∷ [])
remember_full c s e = rw e refl

module _ (c : ℕ) (l : Log) (v : InBounds l) where
  abbrev head' : ℕ
  head' = u32 (l.log_head + 1) % 131072

  abbrev n : ℕ
  n = fill 131072 l.log_head l.log_tail

  head_at : place 131072 l.log_tail n ≡ l.log_head
  head_at = ground (arith, v.head, v.tail)

  n_small : n < 131072
  n_small = ground (arith, v.head, v.tail)

  -- The window of the new buffer that is one character longer.
  longer :
      window 131072 (update l.log_buffer l.log_head c) l.log_tail (suc n) ≡ logged l ++ (c ∷ [])
  longer =
      window-snoc 131072 (update l.log_buffer l.log_head c) l.log_tail n v.tail n_small
      ∙ ap
          (λ p.
            window 131072 (update l.log_buffer l.log_head c) l.log_tail n
            ++ (update l.log_buffer l.log_head c p ∷ []))
          head_at
      ∙ ap (λ x. window 131072 (update l.log_buffer l.log_head c) l.log_tail n ++ (x ∷ []))
          (update_self l.log_buffer l.log_head c)
      ∙ ap (λ p. window 131072 (update l.log_buffer p c) l.log_tail n ++ (c ∷ [])) (sym head_at)
      ∙ ap (λ w. w ++ (c ∷ []))
          (window-update 131072 l.log_buffer l.log_tail n n c v.tail (omega arith) n_small)

  full : (head' == l.log_tail) ≡ true → n ≡ 131071
  full e = ground (arith, v.head, v.tail)

  full_fill : (head' == l.log_tail) ≡ true → fill 131072 head' (u32 (l.log_tail + 1) % 131072) ≡ n
  full_fill e = ground (arith, v.head, v.tail)

  next_place : u32 (l.log_tail + 1) % 131072 ≡ place 131072 l.log_tail 1
  next_place = ground (arith, v.tail)

  abbrev stored : ℕ → ℕ
  stored = update l.log_buffer l.log_head c

  forgets :
      (head' == l.log_tail) ≡ true
      → window 131072 stored
          (u32 (l.log_tail + 1) % 131072)
          (fill 131072 head' (u32 (l.log_tail + 1) % 131072))
        ≡ drop_first (logged l) ++ (c ∷ [])
  unfolding window
  forgets e =
      ap (window 131072 stored (u32 (l.log_tail + 1) % 131072)) (full_fill e)
      ∙ ap (λ i. window 131072 stored i n) next_place
      ∙ ap drop_first longer
      ∙ drop_first-append (logged l) (c ∷ [])
          (λ a. absurd (omega (arith, full e, a, length-window 131072 l.log_buffer l.log_tail n)))

  not_full : (head' == l.log_tail) ≡ false → (fill 131072 head' l.log_tail ≡ suc n) × (n < 131071)
  not_full e = (ground (arith, v.head, v.tail), ground (arith, v.head, v.tail))

-- On indices in bounds, a character that is logged keeps them in bounds and is the last of the
-- log, which has forgotten its first character if 131071 were there.
pub log_putc_lem :
    (c : ℕ) (l : Log)
    → InBounds l
    → InBounds (log_putc c l) × (logged (log_putc c l) ≡ remember c (logged l))
unfolding log_putc
log_putc_lem c l v = elim (Bool-cases (head' c l v == l.log_tail)) [
  | inl e ↦ rw e (
    record { head = omega arith; tail = omega arith },
    forgets c l v e
        ∙ sym (
            remember_full c (logged l)
              (length-window 131072 l.log_buffer l.log_tail (n c l v) ∙ full c l v e)),
  )
  | inr e ↦
      let (more, less) = not_full c l v e in
      rw e (
        record { head = omega arith; tail = v.tail },
        rw
            (
              length-window 131072 l.log_buffer l.log_tail (n c l v),
              ne→== (n c l v) 131071 (λ a. absurd (omega (arith, a, less))),
            )
            (ap (window 131072 (update l.log_buffer l.log_head c) l.log_tail) more ∙ longer c l v),
      )
]
