-- ===== src/Keyboard.antt =====
-- kernel/arch/x86_64/drivers/ps2/ps2_kbd.c and ps2_kbd.h: the state machine of the scancodes, and
-- the circular buffer of the characters. `inb` is hardware: the scancode it returns is an argument.
pub mod Queue
pub mod Keys
use kernel_smp.Base.{
  ℕ, zero, suc, ◌+◌, ◌%◌, Bool, true, false, not, ◌&&◌, ◌||◌, List, [], ◌∷◌, Option, none, some,
  get_or, ltb, ◌==◌, if◌then◌else◌, update,
}
use kernel_smp.Task.{Reason, keyboard}
use kernel_smp.Sched.{Kernel}
use kernel_smp.Sched.Wake.{sched_wakeup}

abbrev pub scancode_set2_lower : List ℕ
scancode_set2_lower =
    0 ∷ 137 ∷ 0 ∷ 138 ∷ 139 ∷ 140 ∷ 141 ∷ 150 ∷ 0 ∷ 151 ∷ 152 ∷ 153 ∷ 154 ∷ 9 ∷ 96 ∷ 0 ∷ 0 ∷ 136
    ∷ 133 ∷ 0 ∷ 135 ∷ 113 ∷ 49 ∷ 0 ∷ 0 ∷ 0 ∷ 122 ∷ 115 ∷ 97 ∷ 119 ∷ 50 ∷ 0 ∷ 0 ∷ 99 ∷ 120 ∷ 100
    ∷ 101 ∷ 52 ∷ 51 ∷ 0 ∷ 0 ∷ 32 ∷ 118 ∷ 102 ∷ 116 ∷ 114 ∷ 53 ∷ 0 ∷ 0 ∷ 110 ∷ 98 ∷ 104 ∷ 103 ∷ 121
    ∷ 54 ∷ 0 ∷ 0 ∷ 0 ∷ 109 ∷ 106 ∷ 117 ∷ 55 ∷ 56 ∷ 0 ∷ 0 ∷ 44 ∷ 107 ∷ 105 ∷ 111 ∷ 48 ∷ 57 ∷ 0 ∷ 0
    ∷ 46 ∷ 47 ∷ 108 ∷ 59 ∷ 112 ∷ 45 ∷ 0 ∷ 0 ∷ 0 ∷ 39 ∷ 0 ∷ 91 ∷ 61 ∷ 0 ∷ 0 ∷ 132 ∷ 134 ∷ 10 ∷ 93 ∷ 0
    ∷ 92 ∷ 0 ∷ 0 ∷ 0 ∷ 0 ∷ 0 ∷ 0 ∷ 0 ∷ 0 ∷ 8 ∷ 0 ∷ 0 ∷ 49 ∷ 0 ∷ 52 ∷ 55 ∷ 0 ∷ 0 ∷ 0 ∷ 48 ∷ 46 ∷ 50
    ∷ 53 ∷ 54 ∷ 56 ∷ 27 ∷ 0 ∷ 155 ∷ 43 ∷ 51 ∷ 45 ∷ 42 ∷ 57 ∷ 0 ∷ 0 ∷ []

abbrev pub scancode_set2_upper : List ℕ
scancode_set2_upper =
    0 ∷ 0 ∷ 0 ∷ 0 ∷ 0 ∷ 0 ∷ 0 ∷ 0 ∷ 0 ∷ 0 ∷ 0 ∷ 0 ∷ 0 ∷ 9 ∷ 126 ∷ 0 ∷ 0 ∷ 0 ∷ 0 ∷ 0 ∷ 0 ∷ 81 ∷ 33
    ∷ 0 ∷ 0 ∷ 0 ∷ 90 ∷ 83 ∷ 65 ∷ 87 ∷ 64 ∷ 0 ∷ 0 ∷ 67 ∷ 88 ∷ 68 ∷ 69 ∷ 36 ∷ 35 ∷ 0 ∷ 0 ∷ 32 ∷ 86
    ∷ 70 ∷ 84 ∷ 82 ∷ 37 ∷ 0 ∷ 0 ∷ 78 ∷ 66 ∷ 72 ∷ 71 ∷ 89 ∷ 94 ∷ 0 ∷ 0 ∷ 0 ∷ 77 ∷ 74 ∷ 85 ∷ 38 ∷ 42
    ∷ 0 ∷ 0 ∷ 60 ∷ 75 ∷ 73 ∷ 79 ∷ 41 ∷ 40 ∷ 0 ∷ 0 ∷ 62 ∷ 63 ∷ 76 ∷ 58 ∷ 80 ∷ 95 ∷ 0 ∷ 0 ∷ 0 ∷ 34 ∷ 0
    ∷ 123 ∷ 43 ∷ 0 ∷ 0 ∷ 0 ∷ 0 ∷ 10 ∷ 125 ∷ 0 ∷ 124 ∷ 0 ∷ 0 ∷ 0 ∷ 0 ∷ 0 ∷ 0 ∷ 0 ∷ 0 ∷ 8 ∷ 0 ∷ 0 ∷ 49
    ∷ 0 ∷ 52 ∷ 55 ∷ 0 ∷ 0 ∷ 0 ∷ 48 ∷ 46 ∷ 50 ∷ 53 ∷ 54 ∷ 56 ∷ 27 ∷ 0 ∷ 0 ∷ 61 ∷ 51 ∷ 45 ∷ 42 ∷ 57
    ∷ 0 ∷ 0 ∷ []

-- A character is its byte.
pub record Buffer : Type 0 where
  pub chars : ℕ → ℕ
  pub head : ℕ
  pub tail : ℕ

abbrev pub kbd_buf_size : ℕ
kbd_buf_size = 256

pub kbd_push_char : ℕ → Buffer → Buffer
kbd_push_char c b =
    let next = (b.head + 1) % kbd_buf_size in
    if next == b.tail then b else record b { chars = update b.chars b.head c; head = next }

-- The state, and the character, `none` when the buffer is empty.
pub kbd_pop_char : Buffer → Buffer × Option ℕ
kbd_pop_char b =
    if b.head == b.tail
    then (b, none)
    else (record b { tail = (b.tail + 1) % kbd_buf_size }, some (b.chars b.tail))

pub record Keyboard : Type 0 where
  pub is_caps : Bool
  pub is_break : Bool
  pub is_shifted : Bool
  pub is_extended : Bool
  pub buffer : Buffer

abbrev pub xor : Bool → Bool → Bool
xor true b = not b
xor false b = b

-- The character of a scancode below 0x80; 0 for none.
pub ascii_of : Keyboard → ℕ → ℕ
ascii_of k scancode =
    if xor k.is_shifted k.is_caps
    then get_or scancode_set2_upper scancode 0
    else get_or scancode_set2_lower scancode 0

-- The state of the machine after a scancode, and the character to push, 0 for none.
pub kbd_step : ℕ → Keyboard → Keyboard × ℕ
kbd_step scancode k =
    let shift = scancode == 0x12 || scancode == 0x59 in
    if scancode == 0xE0
    then (record k { is_extended = true }, 0)
    else if scancode == 0xF0
    then (record k { is_break = true }, 0)
    else if k.is_break
    then (
      record k {
        is_break = false;
        is_extended = false;
        is_shifted = if shift then false else k.is_shifted;
      },
      0,
    )
    else if shift
    then (record k { is_shifted = true }, 0)
    else if scancode == 0x58
    then (record k { is_caps = not k.is_caps }, 0)
    else (record k { is_extended = false }, if ltb scancode 0x80 then ascii_of k scancode else 0)

-- The whole handler: a character goes to the buffer and wakes the tasks that wait for one.
pub ps2_keyboard_handler : ℕ → ℕ → ℕ → Keyboard → Kernel → Option (Keyboard × Kernel)
ps2_keyboard_handler fuel self scancode k kernel =
    let (k', ascii) = kbd_step scancode k in
    let typed : Option (Keyboard × Kernel) = elim (sched_wakeup fuel keyboard self kernel) [
      | none ↦ none
      | some kernel' ↦ some (record k' { buffer = kbd_push_char ascii k'.buffer }, kernel')
    ] in
    if ascii == 0 then some (k', kernel) else typed
