-- ===== src/Keyboard/Queue.antt =====
-- The ring buffer of keyboard.c as a queue of bytes.
use enclave_os.Prelude.{
  ℕ, zero, suc, ◌+◌, ◌-◌, ◌%◌, ◌≡◌, ◌≢◌, ◌<◌, refl, ap, ◌∙◌, List, [], ◌∷◌, ◌++◌, arith, ltb,
  if◌then◌else◌, length, get_or, set, length-set, get_or-set_self, get_or-set_ne,
}
use enclave_os.Keyboard.{Kbd, kbd_buffer_size, kbd_buffer_push, k_getchar, kbd_push_ansi_seq}

pub record IsValid (k : Kbd) : Type 0 where
  pub storage : length k.buffer ≡ kbd_buffer_size
  pub head_in : k.head < kbd_buffer_size
  pub tail_in : k.tail < kbd_buffer_size

-- The `n` bytes from index `t` on, round the end of the array.
abbrev pub slots : List ℕ → ℕ → ℕ → List ℕ
slots buf t zero = []
slots buf t (suc n) = get_or buf t 0 ∷ slots buf ((t + 1) % kbd_buffer_size) n

abbrev pub pending : Kbd → ℕ
pending k = (k.head + kbd_buffer_size - k.tail) % kbd_buffer_size

-- The unread bytes, the oldest first.
abbrev pub unread : Kbd → List ℕ
unread k = slots k.buffer k.tail (pending k)

-- Appends a byte to a queue that holds fewer than 255.
abbrev pub enqueue : List ℕ → ℕ → List ℕ
enqueue q c = if ltb (length q) 255 then q ++ c ∷ [] else q

abbrev pub enqueue_all : List ℕ → List ℕ → List ℕ
enqueue_all q [] = q
enqueue_all q (c ∷ cs) = enqueue_all (enqueue q c) cs

length-slots : (buf : List ℕ) (t n : ℕ) → length (slots buf t n) ≡ n
length-slots buf t zero = refl
length-slots buf t (suc n) = ap suc (length-slots buf ((t + 1) % kbd_buffer_size) n)

-- The byte written behind the last slot becomes the last one; the others do not change.
slots-set :
    (buf : List ℕ) (c n t i : ℕ)
    → length buf ≡ kbd_buffer_size
    → t < kbd_buffer_size
    → n < 255
    → i ≡ (t + n) % kbd_buffer_size
    → slots (set buf i c) t (suc n) ≡ slots buf t n ++ c ∷ []
slots-set buf c zero t i l h m e =
    let here : i ≡ t = omega arith in rw (here, get_or-set_self buf t c 0 (omega arith))
slots-set buf c (suc n) t i l h m e = rw (get_or-set_ne buf {i = i} {j = t} c 0 (omega arith)) (
    ap (λ q. get_or buf t 0 ∷ q)
      (slots-set buf c n ((t + 1) % kbd_buffer_size) i l (omega arith) (omega arith) (omega arith)))

slots-pos :
    (buf : List ℕ) (t n : ℕ)
    → n ≢ 0
    → slots buf t n ≡ get_or buf t 0 ∷ slots buf ((t + 1) % kbd_buffer_size) (n - 1)
slots-pos buf t zero h = absurd (h refl)
slots-pos buf t (suc n) h =
    ap (λ m. get_or buf t 0 ∷ slots buf ((t + 1) % kbd_buffer_size) m) (omega arith)

-- A push keeps the indices in the array, and it appends the byte to the unread ones if there are
-- fewer than 255 of them; otherwise the byte is dropped and nothing changes.
pub kbd_buffer_push-enqueue :
    (c : ℕ) (k : Kbd)
    → IsValid k
    → IsValid (kbd_buffer_push c k) × (unread (kbd_buffer_push c k) ≡ enqueue (unread k) c)
unfolding kbd_buffer_push
kbd_buffer_push-enqueue c k v = ground (
  arith,
  length-set k.buffer k.head c,
  length-slots k.buffer k.tail (pending k),
  slots-set k.buffer c (pending k) k.tail k.head,
)

-- Takes the oldest byte; the answer on an empty queue is 0.
abbrev pub dequeue : List ℕ → ℕ × List ℕ
dequeue [] = (0, [])
dequeue (c ∷ q) = (c, q)

-- k_getchar keeps the indices in the array and takes the oldest unread byte out of the buffer; on
-- an empty one it returns 0 and leaves it empty.
pub k_getchar-dequeue :
    (k : Kbd)
    → IsValid k
    → IsValid (k_getchar k).1 × (((k_getchar k).0, unread (k_getchar k).1) ≡ dequeue (unread k))
unfolding k_getchar
k_getchar-dequeue k v =
    ground (arith, length-slots k.buffer k.tail (pending k), slots-pos k.buffer k.tail (pending k))

-- A sequence of pushes appends as many of the bytes as fit, from the first on.
pub kbd_push_ansi_seq-enqueue :
    (cs : List ℕ) (k : Kbd)
    → IsValid k
    → IsValid (kbd_push_ansi_seq cs k)
      × (unread (kbd_push_ansi_seq cs k) ≡ enqueue_all (unread k) cs)
unfolding kbd_push_ansi_seq
kbd_push_ansi_seq-enqueue [] k v = (v, refl)
kbd_push_ansi_seq-enqueue (c ∷ cs) k v =
    let (v', e) = kbd_buffer_push-enqueue c k v in
    let (v'', e') = kbd_push_ansi_seq-enqueue cs (kbd_buffer_push c k) v' in
    (v'', e' ∙ ap (λ q. enqueue_all q cs) e)
