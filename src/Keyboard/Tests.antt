-- ===== src/Keyboard/Tests.antt =====
-- Runs of keyboard.c from an empty buffer, and the theorems on it.
use enclave_os.Prelude.{◌≡◌, refl, false, [], ◌∷◌, arith, get_or}
use enclave_os.Keyboard.{
  Kbd, kbd_buffer_push, k_getchar, keyboard_handler, typed, scancode_lower, scancode_upper,
  extended, pressed, ansi_seq, kbd_push_ansi_seq, translate_scancode,
}
use enclave_os.Keyboard.Queue.{IsValid, unread, enqueue, kbd_buffer_push-enqueue}
use enclave_os.Keyboard.Keys.{IsSound, keyboard_handler-IsSound}
use enclave_os.Klib.Strings.{replicate}

-- The indices are those before a wrap round the end of the array.
abbrev idle : Kbd
idle = record {
  buffer = replicate 256 0;
  head = 255;
  tail = 255;
  shift_pressed = false;
  ctrl_pressed = false;
  capslock_on = false;
  extended_key = false;
}

idle-IsValid : IsValid idle
idle-IsValid = record { storage = refl; head_in = omega arith; tail_in = omega arith }

idle-IsSound : IsSound idle
idle-IsSound = record { valid = idle-IsValid; nonzero = tt }

up_arrow : unread (keyboard_handler 0x48 (keyboard_handler 0xE0 idle)) ≡ 27 ∷ b'[' ∷ b'A' ∷ []
unfolding keyboard_handler extended kbd_push_ansi_seq ansi_seq kbd_buffer_push
up_arrow = refl

q_key : (k_getchar (keyboard_handler 0x10 idle)).0 ≡ b'q'
unfolding keyboard_handler pressed typed translate_scancode kbd_buffer_push k_getchar scancode_lower
    scancode_upper
q_key = refl

q_letter : get_or scancode_lower 0x10 0 ≡ b'q'
unfolding scancode_lower
q_letter = refl

kbd_buffer_push-enqueue_example :
    IsValid (kbd_buffer_push b'x' idle)
    × (unread (kbd_buffer_push b'x' idle) ≡ enqueue (unread idle) b'x')
kbd_buffer_push-enqueue_example = kbd_buffer_push-enqueue b'x' idle idle-IsValid

keyboard_handler-IsSound_example : IsSound (keyboard_handler 0x10 idle)
keyboard_handler-IsSound_example = keyboard_handler-IsSound 0x10 idle idle-IsSound
