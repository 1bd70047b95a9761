-- ===== src/Keyboard/Keys.antt =====
-- The scancode state machine of keyboard.c: what it puts into the ring buffer, and its modifiers.
use enclave_os.Prelude.{
  ℕ, ◌+◌, ◌-◌, ◌%◌, ◌≡◌, ◌≢◌, ◌≤◌, ◌<◌, refl, Bool, true, false, not, List, [], ◌∷◌, ◌++◌, arith,
  ltb, leb, ◌==◌, ◌||◌, if◌then◌else◌, length, get_or, Bool-cases, inl, inr, accepts_below,
  accepted, get_or-beyond,
}
use enclave_os.Keyboard.{
  Kbd, kbd_buffer_push, kbd_push_ansi_seq, translate_scancode, ansi_seq, extended, released, typed,
  pressed, keyboard_handler, is_lower, is_upper, scancode_lower, scancode_upper,
}
use enclave_os.Keyboard.Queue.{IsValid, unread, enqueue, kbd_buffer_push-enqueue}

-- No byte of the list is 0, the answer of k_getchar on an empty buffer.
abbrev pub NoZero : List ℕ → Type 0
NoZero [] = Unit
NoZero (c ∷ cs) = (c ≢ 0) × NoZero cs

-- The ring buffer is well formed and holds no 0.
pub record IsSound (k : Kbd) : Type 0 where
  pub valid : IsValid k
  pub nonzero : NoZero (unread k)

NoZero-append : (xs : List ℕ) (c : ℕ) → NoZero xs → c ≢ 0 → NoZero (xs ++ c ∷ [])
NoZero-append [] c h n = (n, tt)
NoZero-append (x ∷ xs) c h n = (h.0, NoZero-append xs c h.1 n)

NoZero-enqueue : (q : List ℕ) (c : ℕ) → NoZero q → c ≢ 0 → NoZero (enqueue q c)
NoZero-enqueue q c h n = elim (Bool-cases (ltb (length q) 255)) [
  | inl e ↦ rw e (NoZero-append q c h n)
  | inr e ↦ rw e h
]

push-IsSound : (c : ℕ) (k : Kbd) → c ≢ 0 → IsSound k → IsSound (kbd_buffer_push c k)
push-IsSound c k n s =
    let (v, e) = kbd_buffer_push-enqueue c k s.valid in
    record { valid = v; nonzero = rw e (NoZero-enqueue (unread k) c s.nonzero n) }

seq-IsSound : (cs : List ℕ) (k : Kbd) → NoZero cs → IsSound k → IsSound (kbd_push_ansi_seq cs k)
unfolding kbd_push_ansi_seq
seq-IsSound [] k n s = s
seq-IsSound (c ∷ cs) k n s = seq-IsSound cs (kbd_buffer_push c k) n.1 (push-IsSound c k n.0 s)

NoZero-ansi_seq : (scancode : ℕ) → NoZero (ansi_seq scancode)
unfolding ansi_seq
NoZero-ansi_seq scancode = ground arith

-- The modifiers are no part of what is sound.
modifiers-IsSound :
    (k : Kbd) (shift ctrl caps ext : Bool)
    → IsSound k
    → IsSound (record k {
      shift_pressed = shift;
      ctrl_pressed = ctrl;
      capslock_on = caps;
      extended_key = ext;
    })
modifiers-IsSound k shift ctrl caps ext s = record {
  valid = ground (arith, s.valid);
  nonzero = s.nonzero;
}

if-IsSound :
    (b : Bool) (x y : Kbd)
    → (b ≡ true → IsSound x)
    → (b ≡ false → IsSound y)
    → IsSound (if b then x else y)
if-IsSound true x y f g = f refl
if-IsSound false x y f g = g refl

extended-IsSound : (scancode : ℕ) (k : Kbd) → IsSound k → IsSound (extended scancode k)
unfolding extended
extended-IsSound scancode k s =
    let s' = modifiers-IsSound k k.shift_pressed k.ctrl_pressed k.capslock_on false s in
    if-IsSound (leb 0x80 scancode) _ _ (λ _. s')
      (λ _. seq-IsSound (ansi_seq scancode) _ (NoZero-ansi_seq scancode) s')

released-IsSound : (code : ℕ) (k : Kbd) → IsSound k → IsSound (released code k)
unfolding released
released-IsSound code k s =
    if-IsSound (code == 0x2A || code == 0x36) _ _
      (λ _. modifiers-IsSound k false k.ctrl_pressed k.capslock_on k.extended_key s)
      (λ _.
        if-IsSound (code == 0x1D) _ _
          (λ _. modifiers-IsSound k k.shift_pressed false k.capslock_on k.extended_key s) (λ _. s))

typed-IsSound : (scancode : ℕ) (k : Kbd) → IsSound k → IsSound (typed scancode k)
unfolding typed
typed-IsSound scancode k s =
    let c = translate_scancode k scancode in
    if-IsSound (c == 0) _ _ (λ _. s)
      (λ e.
        if-IsSound k.ctrl_pressed _ _
          (λ _.
            if-IsSound (is_lower c) _ _ (λ _. push-IsSound (c - b'a' + 1) k (omega arith) s)
              (λ _.
                if-IsSound (is_upper c) _ _ (λ _. push-IsSound (c - b'A' + 1) k (omega arith) s)
                  (λ _. s)))
          (λ _. push-IsSound c k (ground arith) s))

pressed-IsSound : (scancode : ℕ) (k : Kbd) → IsSound k → IsSound (pressed scancode k)
unfolding pressed
pressed-IsSound scancode k s =
    if-IsSound (scancode == 0x2A || scancode == 0x36) _ _
      (λ _. modifiers-IsSound k true k.ctrl_pressed k.capslock_on k.extended_key s)
      (λ _.
        if-IsSound (scancode == 0x1D) _ _
          (λ _. modifiers-IsSound k k.shift_pressed true k.capslock_on k.extended_key s)
          (λ _.
            if-IsSound (scancode == 0x3A) _ _
              (λ _.
                modifiers-IsSound k k.shift_pressed k.ctrl_pressed (not k.capslock_on)
                  k.extended_key s)
              (λ _.
                if-IsSound (scancode == 0x01) _ _ (λ _. push-IsSound 0x1B k (omega arith) s)
                  (λ _.
                    if-IsSound (scancode == 0x0E) _ _ (λ _. push-IsSound 8 k (omega arith) s)
                      (λ _.
                        if-IsSound (scancode == 0x1C) _ _ (λ _. push-IsSound 10 k (omega arith) s)
                          (λ _.
                            if-IsSound (scancode == 0x0F) _ _
                              (λ _. push-IsSound 9 k (omega arith) s)
                              (λ _. typed-IsSound scancode k s)))))))

-- The handler keeps the ring buffer well formed and puts no 0 into it, so that 0 from k_getchar
-- always means that nothing was typed.
pub keyboard_handler-IsSound :
    (scancode : ℕ) (k : Kbd) → IsSound k → IsSound (keyboard_handler scancode k)
unfolding keyboard_handler
keyboard_handler-IsSound scancode k s =
    if-IsSound (scancode == 0xE0) _ _
      (λ _. modifiers-IsSound k k.shift_pressed k.ctrl_pressed k.capslock_on true s)
      (λ _.
        if-IsSound k.extended_key _ _ (λ _. extended-IsSound scancode k s)
          (λ _.
            if-IsSound (leb 0x80 scancode) _ _ (λ _. released-IsSound (scancode % 0x80) k s)
              (λ _. pressed-IsSound scancode k s)))

-- The code of a release (bit 7 set) puts nothing into the buffer, with or without a prefix before it.
pub keyboard_handler-release :
    (scancode : ℕ) (k : Kbd)
    → 0x80 ≤ scancode
    → let k' = keyboard_handler scancode k in
      (k'.buffer ≡ k.buffer) × (k'.head ≡ k.head) × (k'.tail ≡ k.tail)
unfolding keyboard_handler extended released
keyboard_handler-release scancode k h = ground arith

-- The upper table has the capital of each letter of the lower one.
abbrev is_cased : ℕ → Bool
is_cased scancode =
    let low = get_or scancode_lower scancode 0 in
    if is_lower low then low == get_or scancode_upper scancode 0 + 32 else true

cased_table : accepts_below is_cased 58 ≡ true
unfolding accepts_below scancode_lower scancode_upper
cased_table = refl

length-scancode_lower : length scancode_lower ≡ 58
unfolding scancode_lower
length-scancode_lower = refl

letter :
    (scancode : ℕ)
    → is_lower (get_or scancode_lower scancode 0) ≡ true
    → (scancode < length scancode_lower)
      × (get_or scancode_lower scancode 0 ≡ get_or scancode_upper scancode 0 + 32)
letter scancode l = ground (
  arith,
  length-scancode_lower,
  get_or-beyond scancode_lower scancode 0,
  accepted is_cased 58 {i = scancode},
  cased_table,
)

-- With Ctrl held, a letter key gives the control character of its letter, whatever Shift and Caps
-- Lock are: two states that differ in these alone put the same byte into the buffer.
pub typed-ctrl :
    (scancode : ℕ) (k : Kbd) (shift caps : Bool)
    → k.ctrl_pressed ≡ true
    → is_lower (get_or scancode_lower scancode 0) ≡ true
    → let k' = record k { shift_pressed = shift; capslock_on = caps } in
      let c = get_or scancode_lower scancode 0 - b'a' + 1 in
      (typed scancode k' ≡ kbd_buffer_push c k') × (1 ≤ c) × (c ≤ 26)
unfolding typed translate_scancode
typed-ctrl scancode k shift caps h l = ground (arith, letter scancode l)
