-- ===== src/Keyboard/Queue.antt =====
-- The keyboard's ring buffer is a queue of at most 127 characters.
use lons_os.Base.{
  ℕ, zero, suc, ◌+◌, ◌-◌, ◌%◌, ◌<◌, ◌==◌, ◌≡◌, ◌≢◌, refl, subst, ==→eq, lt→ltb, ltb-false, ap, ap₂,
  sym, ◌∙◌, List, [], ◌∷◌, ◌++◌, arith, inl, inr, if◌then◌else◌, ltb, length, Bool-cases,
}
use lons_os.Machine.{write}
use lons_os.Keyboard.{Keyboard, buffer_size, kbd_init, kbd_push_char, kbd_getchar}

-- Both indices lie in the array.
pub record IsValid (k : Keyboard) : Type 0 where
  pub head_in : k.head < buffer_size
  pub tail_in : k.tail < buffer_size

-- `n` characters from index `t` on, going round at the end.
unfoldable pub window : (ℕ → ℕ) → ℕ → ℕ → List ℕ
window buf t zero = []
window buf t (suc n) = buf t ∷ window buf ((t + 1) % buffer_size) n

abbrev pub count : Keyboard → ℕ
count k = (k.head + buffer_size - k.tail) % buffer_size

-- The characters that wait, oldest first.
abbrev pub contents : Keyboard → List ℕ
contents k = window k.buffer k.tail (count k)

length-window : (buf : ℕ → ℕ) (t n : ℕ) → length (window buf t n) ≡ n
unfolding window
length-window buf t zero = refl
length-window buf t (suc n) = ap suc (length-window buf ((t + 1) % buffer_size) n)

pub length-contents : (k : Keyboard) → length (contents k) ≡ count k
length-contents k = length-window k.buffer k.tail (count k)

-- A write just past a window extends it.
window-write :
    (buf : ℕ → ℕ) (c n t i : ℕ)
    → t < buffer_size
    → n < buffer_size
    → i ≡ (t + n) % buffer_size
    → window (write buf i c) t (suc n) ≡ window buf t n ++ (c ∷ [])
unfolding window
window-write buf c zero t i ht hn e = ground arith
window-write buf c (suc n) t i ht hn e =
    ap₂ ◌∷◌ (ground arith)
      (window-write buf c n ((t + 1) % buffer_size) i (omega arith) (omega arith) (omega arith))

-- The buffer starts empty.
pub kbd_init-empty : (k : Keyboard) → IsValid (kbd_init k) × (contents (kbd_init k) ≡ [])
unfolding kbd_init window
kbd_init-empty k = (omega arith, refl)

pub kbd_push_char-IsValid : (c : ℕ) (k : Keyboard) → IsValid k → IsValid (kbd_push_char c k)
unfolding kbd_push_char
kbd_push_char-IsValid c k v = ground arith

pushed :
    (c : ℕ) (k : Keyboard) (next n : ℕ)
    → IsValid k
    → next ≡ (k.head + 1) % buffer_size
    → next ≢ k.tail
    → n ≡ count k
    → window (write k.buffer k.head c) k.tail ((next + buffer_size - k.tail) % buffer_size)
      ≡ window k.buffer k.tail n ++ (c ∷ [])
pushed c k next n v e ne en =
    ap (window (write k.buffer k.head c) k.tail) (omega (arith, v.head_in, v.tail_in))
    ∙ window-write k.buffer c n k.tail k.head v.tail_in (omega arith)
        (omega (arith, v.head_in, v.tail_in))

-- From a valid state, a character that arrives goes behind the others, or is dropped if 127 of them
-- wait already.
pub kbd_push_char_refines :
    (c : ℕ) (k : Keyboard)
    → IsValid k
    → contents (kbd_push_char c k)
      ≡ (if ltb (length (contents k)) 127 then contents k ++ (c ∷ []) else contents k)
unfolding kbd_push_char
kbd_push_char_refines c k v = elim (Bool-cases ((k.head + 1) % buffer_size == k.tail)) [
  | inl full ↦ rw (
    full,
    ltb-false (length (contents k)) 127
        (omega (arith, length-contents k, ==→eq _ _ full, v.head_in, v.tail_in)),
  )
  | inr free ↦
      let ne : (k.head + 1) % buffer_size ≢ k.tail = ground arith in
      rw
        (
          free,
          lt→ltb (length (contents k)) 127
              (omega (arith, length-contents k, ne, v.head_in, v.tail_in)),
        )
        (pushed c k ((k.head + 1) % buffer_size) (count k) v refl ne refl)
]

-- `window` matches on `suc`, the code compares the indices.
window_of_pos :
    (buf : ℕ → ℕ) (t n : ℕ)
    → 0 < n
    → window buf t n ≡ buf t ∷ window buf ((t + 1) % buffer_size) (n - 1)
unfolding window
window_of_pos buf t zero h = absurd (omega arith)
window_of_pos buf t (suc n) h = ap (λ m. buf t ∷ window buf ((t + 1) % buffer_size) m) (omega arith)

window_of_zero : (buf : ℕ → ℕ) (t n : ℕ) → n ≡ 0 → window buf t n ≡ []
unfolding window
window_of_zero buf t zero e = refl
window_of_zero buf t (suc n) e = absurd (omega arith)

-- What a reader gets: 0 and no change from an empty buffer, else the oldest character, which is gone.
abbrev pub Pops : List ℕ → ℕ × Keyboard → Keyboard → Type 0
Pops [] out k = (out.0 ≡ 0) × (out.1 ≡ k)
Pops (c ∷ q) out k = (out.0 ≡ c) × (contents out.1 ≡ q) × IsValid out.1

-- From a valid state, `kbd_getchar` on an empty buffer returns 0 and changes nothing; else it
-- returns the oldest character, the others stay in order, and the state is valid.
pub kbd_getchar_refines : (k : Keyboard) → IsValid k → Pops (contents k) (kbd_getchar k) k
unfolding kbd_getchar
kbd_getchar_refines k v = elim (Bool-cases (k.head == k.tail)) [
  | inl none ↦ rw none (
      subst (λ l. Pops l (0, k) k)
        (sym (window_of_zero k.buffer k.tail (count k) (omega (arith, ==→eq _ _ none, v.tail_in))))
        (refl, refl))
  | inr some ↦
      let ne : k.head ≢ k.tail = ground arith in
      rw some (
        subst (λ l. Pops l (k.buffer k.tail, record k { tail = (k.tail + 1) % buffer_size }) k)
          (sym (window_of_pos k.buffer k.tail (count k) (omega (arith, ne, v.head_in, v.tail_in))))
          (
            refl,
            ap (window k.buffer ((k.tail + 1) % buffer_size))
                (omega (arith, ne, v.head_in, v.tail_in)),
            omega (arith, v.head_in),
          ))
]
