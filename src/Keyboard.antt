-- ===== src/Keyboard.antt =====
-- keyboard.c: the ring buffer between the interrupt handler and the shell, and the scancode state
-- machine. A `char` is the byte that is stored; the port read of the handler is its argument.
pub mod Queue
pub mod Keys
mod Tests
use enclave_os.Prelude.{
  ℕ, ◌+◌, ◌-◌, ◌%◌, Bool, true, false, not, ◌&&◌, ◌||◌, List, [], ◌∷◌, ltb, leb, ◌==◌,
  if◌then◌else◌, length, get_or, set,
}

pub record Kbd : Type 0 where
  pub buffer : List ℕ
  pub head : ℕ
  pub tail : ℕ
  pub shift_pressed : Bool
  pub ctrl_pressed : Bool
  pub capslock_on : Bool
  pub extended_key : Bool

abbrev pub kbd_buffer_size : ℕ
kbd_buffer_size = 256

pub kbd_buffer_push : ℕ → Kbd → Kbd
kbd_buffer_push c k =
    let next_head = (k.head + 1) % kbd_buffer_size in
    if next_head == k.tail then k else record k { buffer = set k.buffer k.head c; head = next_head }

pub k_getchar : Kbd → ℕ × Kbd
k_getchar k =
    if k.head == k.tail
    then (0, k)
    else (get_or k.buffer k.tail 0, record k { tail = (k.tail + 1) % kbd_buffer_size })

-- The argument is the string up to its terminating 0.
pub kbd_push_ansi_seq : List ℕ → Kbd → Kbd
kbd_push_ansi_seq [] k = k
kbd_push_ansi_seq (c ∷ seq) k = kbd_push_ansi_seq seq (kbd_buffer_push c k)

pub scancode_lower : List ℕ
scancode_lower =
    0 ∷ 0 ∷ b'1' ∷ b'2' ∷ b'3' ∷ b'4' ∷ b'5' ∷ b'6' ∷ b'7' ∷ b'8' ∷ b'9' ∷ b'0' ∷ b'-' ∷ b'=' ∷ 8
    ∷ 9 ∷ b'q' ∷ b'w' ∷ b'e' ∷ b'r' ∷ b't' ∷ b'y' ∷ b'u' ∷ b'i' ∷ b'o' ∷ b'p' ∷ b'[' ∷ b']' ∷ 10 ∷ 0
    ∷ b'a' ∷ b's' ∷ b'd' ∷ b'f' ∷ b'g' ∷ b'h' ∷ b'j' ∷ b'k' ∷ b'l' ∷ b';' ∷ 39 ∷ b'`' ∷ 0 ∷ 92
    ∷ b'z' ∷ b'x' ∷ b'c' ∷ b'v' ∷ b'b' ∷ b'n' ∷ b'm' ∷ b',' ∷ b'.' ∷ b'/' ∷ 0 ∷ b'*' ∷ 0 ∷ 32 ∷ []

pub scancode_upper : List ℕ
scancode_upper =
    0 ∷ 0 ∷ b'!' ∷ b'@' ∷ b'#' ∷ b'$' ∷ b'%' ∷ b'^' ∷ b'&' ∷ b'*' ∷ b'(' ∷ b')' ∷ b'_' ∷ b'+' ∷ 8
    ∷ 9 ∷ b'Q' ∷ b'W' ∷ b'E' ∷ b'R' ∷ b'T' ∷ b'Y' ∷ b'U' ∷ b'I' ∷ b'O' ∷ b'P' ∷ b'{' ∷ b'}' ∷ 10 ∷ 0
    ∷ b'A' ∷ b'S' ∷ b'D' ∷ b'F' ∷ b'G' ∷ b'H' ∷ b'J' ∷ b'K' ∷ b'L' ∷ b':' ∷ 34 ∷ b'~' ∷ 0 ∷ b'|'
    ∷ b'Z' ∷ b'X' ∷ b'C' ∷ b'V' ∷ b'B' ∷ b'N' ∷ b'M' ∷ b'<' ∷ b'>' ∷ b'?' ∷ 0 ∷ b'*' ∷ 0 ∷ 32 ∷ []

abbrev pub is_lower : ℕ → Bool
is_lower c = leb b'a' c && leb c b'z'

abbrev pub is_upper : ℕ → Bool
is_upper c = leb b'A' c && leb c b'Z'

pub translate_scancode : Kbd → ℕ → ℕ
translate_scancode k scancode =
    let base_char = get_or scancode_lower scancode 0 in
    let use_upper =
      if k.capslock_on && is_lower base_char then not k.shift_pressed else k.shift_pressed in
    if leb (length scancode_lower) scancode
    then 0
    else if use_upper
    then get_or scancode_upper scancode 0
    else base_char

-- The sequence for the second byte of an extended key, empty for the keys that are ignored.
pub ansi_seq : ℕ → List ℕ
ansi_seq scancode =
    if scancode == 0x48
    then 27 ∷ b'[' ∷ b'A' ∷ []
    else if scancode == 0x50
    then 27 ∷ b'[' ∷ b'B' ∷ []
    else if scancode == 0x4D
    then 27 ∷ b'[' ∷ b'C' ∷ []
    else if scancode == 0x4B
    then 27 ∷ b'[' ∷ b'D' ∷ []
    else if scancode == 0x47
    then 27 ∷ b'[' ∷ b'H' ∷ []
    else if scancode == 0x4F
    then 27 ∷ b'[' ∷ b'F' ∷ []
    else if scancode == 0x53
    then 27 ∷ b'[' ∷ b'3' ∷ b'~' ∷ []
    else []

pub extended : ℕ → Kbd → Kbd
extended scancode k =
    let k' = record k { extended_key = false } in
    if leb 0x80 scancode then k' else kbd_push_ansi_seq (ansi_seq scancode) k'

-- `code` is the scancode with bit 7 cleared.
pub released : ℕ → Kbd → Kbd
released code k =
    if code == 0x2A || code == 0x36
    then record k { shift_pressed = false }
    else if code == 0x1D
    then record k { ctrl_pressed = false }
    else k

-- What follows the switch: the translated character, under Ctrl a control character.
pub typed : ℕ → Kbd → Kbd
typed scancode k =
    let c = translate_scancode k scancode in
    if c == 0
    then k
    else if k.ctrl_pressed
    then (if is_lower c
        then kbd_buffer_push (c - b'a' + 1) k
        else if is_upper c
        then kbd_buffer_push (c - b'A' + 1) k
        else k)
    else kbd_buffer_push c k

pub pressed : ℕ → Kbd → Kbd
pressed scancode k =
    if scancode == 0x2A || scancode == 0x36
    then record k { shift_pressed = true }
    else if scancode == 0x1D
    then record k { ctrl_pressed = true }
    else if scancode == 0x3A
    then record k { capslock_on = not k.capslock_on }
    else if scancode == 0x01
    then kbd_buffer_push 0x1B k
    else if scancode == 0x0E
    then kbd_buffer_push 8 k
    else if scancode == 0x1C
    then kbd_buffer_push 10 k
    else if scancode == 0x0F
    then kbd_buffer_push 9 k
    else typed scancode k

-- `scancode & 0x80` and `scancode & 0x7F` on uint8_t
pub keyboard_handler : ℕ → Kbd → Kbd
keyboard_handler scancode k =
    if scancode == 0xE0
    then record k { extended_key = true }
    else if k.extended_key
    then extended scancode k
    else if leb 0x80 scancode
    then released (scancode % 0x80) k
    else pressed scancode k
