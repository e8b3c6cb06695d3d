-- ===== src/Keyboard/Queue.antt =====
-- The ring buffer of drivers/keyboard.c holds a queue of at most 255 characters.
use my_os.Base.{
  ℕ, zero, suc, ◌+◌, ◌-◌, ◌%◌, ◌≤◌, ◌<◌, ◌≡◌, refl, ◌≢◌, Option, none, some, List, [], ◌∷◌, ◌++◌,
  arith, ◌==◌, Bool-cases, inl, inr,
}
use my_os.Base.Masks.{update}
use my_os.Keyboard.{Buffer, keyboard_buffer_put, keyboard_buffer_get, rm_last_char_buffer}

pub record IsValid (b : Buffer) : Type 0 where
  pub head_in : b.head < 256
  pub tail_in : b.tail < 256

-- The `n` characters from index `t` on, going round at 256.
unfoldable pub window : (ℕ → ℕ) → ℕ → ℕ → List ℕ
window cells t zero = []
window cells t (suc n) = cells t ∷ window cells ((t + 1) % 256) n

-- The number of characters that wait.
unfoldable pub count : Buffer → ℕ
count b = (b.head + 256 - b.tail) % 256

-- The characters that wait, oldest first.
unfoldable pub contents : Buffer → List ℕ
unfolding window count
contents b = window b.cells b.tail (count b)

window-update :
    (cells : ℕ → ℕ) (c n t i : ℕ)
    → t < 256
    → n < 256
    → i ≡ (t + n) % 256
    → window (update cells i c) t (suc n) ≡ window cells t n ++ (c ∷ [])
unfolding window
window-update cells c zero t i ht hn e = ground arith
window-update cells c (suc n) t i ht hn e =
    ground (arith, window-update cells c n ((t + 1) % 256) i)

-- A write just past a window leaves it.
window-free :
    (cells : ℕ → ℕ) (c n t i : ℕ)
    → t < 256
    → i < 256
    → n ≤ (i + 256 - t) % 256
    → window (update cells i c) t n ≡ window cells t n
unfolding window
window-free cells c zero t i ht hi h = refl
window-free cells c (suc n) t i ht hi h = ground (arith, window-free cells c n ((t + 1) % 256) i)

window-last :
    (cells : ℕ → ℕ) (n t : ℕ)
    → t < 256
    → window cells t (suc n) ≡ window cells t n ++ (cells ((t + n) % 256) ∷ [])
unfolding window
window-last cells zero t ht = ground arith
window-last cells (suc n) t ht = ground (arith, window-last cells n ((t + 1) % 256))

-- With fewer than 255 characters waiting, `keyboard_buffer_put` appends the character.
pub put-append :
    (c : ℕ) {b : Buffer}
    → IsValid b
    → count b < 255
    → IsValid (keyboard_buffer_put c b)
      × (contents (keyboard_buffer_put c b) ≡ contents b ++ (c ∷ []))
unfolding keyboard_buffer_put contents
put-append c {b} v h =
    let more : count (keyboard_buffer_put c b) ≡ suc (count b) =
      omega (arith, v.head_in, v.tail_in, h) in
    (
      ground (arith, v.head_in, v.tail_in),
      rw more (
          window-update b.cells c (count b) b.tail b.head v.tail_in (omega (arith, h))
            (omega (arith, v.head_in, v.tail_in))),
    )

-- With 255 characters waiting, one more empties the buffer: all of them are lost.
pub put-full :
    (c : ℕ) {b : Buffer} → IsValid b → count b ≡ 255 → contents (keyboard_buffer_put c b) ≡ []
unfolding keyboard_buffer_put contents
put-full c {b} v h =
    let none_left : count (keyboard_buffer_put c b) ≡ 0 = omega (arith, v.head_in, v.tail_in, h) in
    rw none_left refl

-- What `keyboard_buffer_get` should return for a queue.
unfoldable pub dequeue : List ℕ → Option (ℕ × List ℕ)
dequeue [] = none
dequeue (c ∷ q) = some (c, q)

unfoldable pub view : Option (ℕ × Buffer) → Option (ℕ × List ℕ)
view none = none
view (some (c, b)) = some (c, contents b)

-- `keyboard_buffer_get` waits exactly when no character waits, and else takes the oldest one.
pub get-dequeue : {b : Buffer} → IsValid b → view (keyboard_buffer_get b) ≡ dequeue (contents b)
unfolding keyboard_buffer_get contents view dequeue window
get-dequeue {b} v = elim (Bool-cases (b.head == b.tail)) [
  | inl e ↦ let z : count b ≡ 0 = ground (arith, v.head_in, v.tail_in) in rw (e, z) refl
  | inr ne ↦
      let n : ℕ = count (record b { tail = (b.tail + 1) % 256 }) in
      let s : count b ≡ suc n = ground (arith, v.head_in, v.tail_in) in rw (ne, s) refl
]

-- Of a buffer that is not empty `rm_last_char_buffer` drops the newest waiting character.
pub rm_last_char_buffer-drops :
    {b : Buffer}
    → IsValid b
    → b.head ≢ b.tail
    → contents b ≡ contents (rm_last_char_buffer b) ++ (b.cells ((b.head + 255) % 256) ∷ [])
unfolding rm_last_char_buffer contents
rm_last_char_buffer-drops {b} v ne =
    let c : Buffer = record b { head = (b.head + 256 - 1) % 256 } in
    let e : rm_last_char_buffer b ≡ c = ground arith in
    let s : count b ≡ suc (count c) = ground (arith, v.head_in, v.tail_in) in
    let at : (b.tail + count c) % 256 ≡ (b.head + 255) % 256 =
      omega (arith, v.head_in, v.tail_in, ne) in
    rw (e, s) (rw at at (window-last b.cells (count c) b.tail v.tail_in))

-- With fewer than 255 characters waiting, `rm_last_char_buffer` undoes `keyboard_buffer_put`.
pub rm_last_char_buffer-put :
    (c : ℕ) {b : Buffer}
    → IsValid b
    → count b < 255
    → contents (rm_last_char_buffer (keyboard_buffer_put c b)) ≡ contents b
unfolding rm_last_char_buffer keyboard_buffer_put contents
rm_last_char_buffer-put c {b} v h =
    let e : rm_last_char_buffer (keyboard_buffer_put c b)
        ≡ record b { cells = update b.cells b.head c } =
      ground (arith, v.head_in, v.tail_in, h) in
    rw e (window-free b.cells c (count b) b.tail b.head v.tail_in v.head_in (omega arith))
