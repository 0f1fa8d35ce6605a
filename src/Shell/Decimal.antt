-- ===== src/Shell/Decimal.antt =====
-- The decimal numbers that `k_itoa` of kernel/kernel.c and `gui_print_dec` of kernel/gui.c write.
use lons_os.Base.{
  ℕ, zero, suc, ◌+◌, ◌-◌, ◌*◌, ◌/◌, ◌%◌, ◌^◌, ◌<◌, ◌≤◌, ◌==◌, ◌≡◌, ◌≢◌, refl, sym, ap, ◌∙◌, arith,
  List, [], ◌∷◌, ◌++◌, append_assoc, if◌then◌else◌, if_elim, eq_false, ==→eq, ◌⊎◌, inl, inr,
  Bool-cases, Option,
}
use lons_os.Machine.{write}
use lons_os.Machine.Bytes.{Buffer}
use lons_os.Framebuffer.Console.{dec_digits, c_string}
use lons_os.Gui.{Gui}
use lons_os.Gui.Text.{gui_print, gui_print_dec}
use lons_os.Shell.{k_itoa}

-- The digits of a number of at most `i` digits; none for 0.
unfoldable decimal : ℕ → ℕ → List ℕ
decimal zero v = []
decimal (suc i) v =
    let rest = decimal i (v / 10) in if v == 0 then [] else rest ++ ((b'0' + v % 10) ∷ [])

abbrev pub dec_value : ℕ → List ℕ → ℕ
dec_value acc [] = acc
dec_value acc (c ∷ cs) = dec_value (acc * 10 + (c - b'0')) cs

abbrev pub AllDigits : List ℕ → Type 0
AllDigits [] = Unit
AllDigits (c ∷ cs) = (b'0' ≤ c) × (c ≤ b'9') × AllDigits cs

-- The number's text, without a zero at the front.
abbrev pub Leads : List ℕ → Type 0
Leads ds = (d : ℕ) × (rest : List ℕ) × (ds ≡ d ∷ rest) × (d ≢ b'0')

pub record IsDecimal (ds : List ℕ) (v : ℕ) : Type 0 where
  pub digits : AllDigits ds
  pub value : dec_value 0 ds ≡ v
  pub leads : (ds ≡ b'0' ∷ []) ⊎ Leads ds

dec_value-append :
    (cs : List ℕ) (acc d : ℕ) → dec_value acc (cs ++ ((b'0' + d) ∷ [])) ≡ dec_value acc cs * 10 + d
dec_value-append [] acc d = omega arith
dec_value-append (c ∷ cs) acc d = dec_value-append cs (acc * 10 + (c - b'0')) d

AllDigits-append :
    (cs : List ℕ) (d : ℕ) → d < 10 → AllDigits cs → AllDigits (cs ++ ((b'0' + d) ∷ []))
AllDigits-append [] d h all = (omega arith, omega arith, tt)
AllDigits-append (c ∷ cs) d h (low, high, all) = (low, high, AllDigits-append cs d h all)

power_step : (i v : ℕ) → v < 10 ^ suc i → v / 10 < 10 ^ i
power_step i v h = omega arith

decimal-digits : (i v : ℕ) → AllDigits (decimal i v)
unfolding decimal
decimal-digits zero v = tt
decimal-digits (suc i) v =
    if_elim AllDigits (v == 0) [] (decimal i (v / 10) ++ ((b'0' + v % 10) ∷ [])) (λ e. tt)
      (λ e.
        AllDigits-append (decimal i (v / 10)) (v % 10) (omega arith) (decimal-digits i (v / 10)))

dec_value-decimal : (i v : ℕ) → v < 10 ^ i → dec_value 0 (decimal i v) ≡ v
unfolding decimal
dec_value-decimal zero v h = omega arith
dec_value-decimal (suc i) v h =
    if_elim (λ ds. dec_value 0 ds ≡ v) (v == 0) [] (decimal i (v / 10) ++ ((b'0' + v % 10) ∷ []))
      (λ e. sym (==→eq v 0 e))
      (λ e.
        dec_value-append (decimal i (v / 10)) 0 (v % 10)
        ∙ ap (λ n. n * 10 + v % 10) (dec_value-decimal i (v / 10) (power_step i v h))
        ∙ omega arith)

Leads-append : (ds more : List ℕ) → Leads ds → Leads (ds ++ more)
Leads-append ds more (d, rest, e, ne) = (d, rest ++ more, ap (λ l. l ++ more) e, ne)

decimal-zero : (i : ℕ) → decimal i 0 ≡ []
unfolding decimal
decimal-zero zero = refl
decimal-zero (suc i) = refl

-- The last digit is the first one of a number below 10.
decimal-Leads : (i v : ℕ) → v < 10 ^ i → v ≢ 0 → Leads (decimal i v)
unfolding decimal
decimal-Leads zero v h ne = absurd (omega arith)
decimal-Leads (suc i) v h ne = rw (eq_false v 0 ne) (elim (Bool-cases (v / 10 == 0)) [
  | inl e ↦ (
    b'0' + v % 10,
    [],
    ap (λ n. decimal i n ++ ((b'0' + v % 10) ∷ [])) (==→eq _ _ e)
        ∙ ap (λ l. l ++ ((b'0' + v % 10) ∷ [])) (decimal-zero i),
    omega (arith, ==→eq _ _ e),
  )
  | inr e ↦
      Leads-append (decimal i (v / 10)) _
        (decimal-Leads i (v / 10) (power_step i v h) (ground arith))
])

-- The place of the first digit.
abbrev place : ℕ × Buffer → ℕ
place (p, t) = p

abbrev array : ℕ × Buffer → Buffer
array (p, t) = t

dec_digits-place : (i v : ℕ) (b : Buffer) → place (dec_digits i v b) ≤ i
unfolding dec_digits
dec_digits-place zero v b = omega arith
dec_digits-place (suc i) v b =
    if_elim (λ r. place r ≤ suc i) (v == 0) (suc i, b)
      (dec_digits i (v / 10) (write b i (b'0' + v % 10))) (λ e. omega arith)
      (λ e. omega (arith, dec_digits-place i (v / 10) (write b i (b'0' + v % 10))))

-- A string does not depend on the bytes before it.
c_string-write_before :
    (n k j c : ℕ) (b : Buffer) → j < k → c_string n k (write b j c) ≡ c_string n k b
unfolding c_string
c_string-write_before zero k j c b h = refl
c_string-write_before (suc n) k j c b h =
    let same : write b j c k ≡ b k = ground arith in
    rw (same, c_string-write_before n (k + 1) j c b (omega arith)) refl

c_string-digit :
    (n i c : ℕ) (b : Buffer) → 0 < c → c_string (suc n) i (write b i c) ≡ c ∷ c_string n (suc i) b
unfolding c_string
c_string-digit n i c b h =
    let here : write b i c i ≡ c = ground arith in
    rw (here, eq_false c 0 (omega arith))
      (ap (λ l. c ∷ l)
        (ap (λ k. c_string n k (write b i c)) (omega arith)
          ∙ c_string-write_before n (suc i) i c b (omega arith)))

-- The string from the first digit on: the digits, and what the array holds behind them.
abbrev Prints : ℕ → ℕ → ℕ → Buffer → ℕ × Buffer → Type 0
Prints n i v b r = c_string (n + (i - place r)) (place r) (array r) ≡ decimal i v ++ c_string n i b

dec_digits-Prints : (i n v : ℕ) (b : Buffer) → Prints n i v b (dec_digits i v b)
unfolding dec_digits decimal
dec_digits-Prints zero n v b = ap (λ m. c_string m 0 b) (omega arith)
dec_digits-Prints (suc i) n v b = elim (Bool-cases (v == 0)) [
  | inl e ↦ rw e (ap (λ m. c_string m (suc i) b) (omega arith))
  | inr e ↦
      let c : ℕ = b'0' + v % 10 in
      let b1 = write b i c in
      let r = dec_digits i (v / 10) b1 in
      let low : place r ≤ i = dec_digits-place i (v / 10) b1 in
      rw e (
        ap (λ m. c_string m (place r) (array r)) (omega (arith, low))
        ∙ dec_digits-Prints i (suc n) (v / 10) b1
        ∙ ap (λ l. decimal i (v / 10) ++ l) (c_string-digit n i c b (omega arith))
        ∙ sym (append_assoc (decimal i (v / 10)) (c ∷ []) (c_string n (suc i) b)))
]

-- The byte that is copied behind the digits.
abbrev pub left_over : Buffer → ℕ → List ℕ
left_over junk v = if v == 0 then [] else if junk 19 == 0 then [] else junk 19 ∷ []

c_string-junk :
    (junk : Buffer) → c_string 2 19 (write junk 20 0) ≡ (if junk 19 == 0 then [] else junk 19 ∷ [])
unfolding c_string
c_string-junk junk = refl

k_itoa-decimal :
    (junk : Buffer) (v : ℕ)
    → v ≢ 0
    → k_itoa junk v ≡ decimal 19 v ++ (if junk 19 == 0 then [] else junk 19 ∷ [])
unfolding k_itoa
k_itoa-decimal junk v ne =
    let r = dec_digits 19 v (write junk 20 0) in
    rw (eq_false v 0 ne) (
      ap (λ m. c_string m (place r) (array r))
        (omega (arith, dec_digits-place 19 v (write junk 20 0)))
      ∙ dec_digits-Prints 19 2 v (write junk 20 0)
      ∙ ap (λ l. decimal 19 v ++ l) (c_string-junk junk))

-- The digits of the number, and the byte behind them; `gui_print_dec` prints the same text.
abbrev pub PrintsDecimal : Buffer → ℕ → Option ℕ → Gui → Type 0
PrintsDecimal junk v wid s =
    ((ds : List ℕ) × (k_itoa junk v ≡ ds ++ left_over junk v) × IsDecimal ds v)
    × (gui_print_dec junk wid v s ≡ gui_print wid (k_itoa junk v) s)

gui_print_dec-k_itoa :
    (junk : Buffer) (v : ℕ) (wid : Option ℕ) (s : Gui)
    → gui_print_dec junk wid v s ≡ gui_print wid (k_itoa junk v) s
unfolding gui_print_dec k_itoa
gui_print_dec-k_itoa junk v wid s = elim (Bool-cases (v == 0)) [
  | inl e ↦ rw e refl
  | inr e ↦ rw e refl
]

-- A number below 10^19 becomes its decimal digits, with no 0 at the front but for 0 itself, and
-- behind the digits of a number other than 0 the byte that the array held at place 19, unless that
-- is 0; `gui_print_dec` prints the same text.
pub k_itoa_lem :
    (junk : Buffer) (v : ℕ) (wid : Option ℕ) (s : Gui) → v < 10 ^ 19 → PrintsDecimal junk v wid s
unfolding k_itoa
k_itoa_lem junk v wid s h = (
  elim (Bool-cases (v == 0)) [
    | inl e ↦ (
      b'0' ∷ [],
      rw e refl,
      record {
        digits = (omega arith, omega arith, tt);
        value = sym (==→eq v 0 e);
        leads = inl refl;
      },
    )
    | inr e ↦
        let ne : v ≢ 0 = ground arith in
        (
          decimal 19 v,
          k_itoa-decimal junk v ne ∙ rw e refl,
          record {
            digits = decimal-digits 19 v;
            value = dec_value-decimal 19 v h;
            leads = inr (decimal-Leads 19 v h ne);
          },
        )
  ],
  gui_print_dec-k_itoa junk v wid s,
)
