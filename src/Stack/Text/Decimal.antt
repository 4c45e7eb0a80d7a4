-- ===== src/Stack/Text/Decimal.antt =====
-- Decimal numerals as Go's `strconv` and `fmt` write them (`%d`), and their way back by `Atoi`.
use Prim.Native.Char.{Char, code}
use zeroone.Prelude.{
  ℕ, zero, suc, ◌+◌, ◌-◌, ◌*◌, ◌/◌, ◌%◌, ◌^◌, ◌≤◌, ◌<◌, ◌≡◌, ◌∙◌, refl, ap, inl, inr, arith, String,
  true, false, some, ltb, leb, ◌==◌, Bool-cases, if◌then◌else◌,
}
use zeroone.Prelude.Int.{ℤ, pos, negsuc, pos_part, neg_part}
use zeroone.Stack.Text.{has_char, cons, digits_from, unsigned, non_negative, negative, atoi}

digit : ℕ → Char
digit zero = "0"
digit (suc zero) = "1"
digit (suc (suc zero)) = "2"
digit (suc (suc (suc zero))) = "3"
digit (suc (suc (suc (suc zero)))) = "4"
digit (suc (suc (suc (suc (suc zero))))) = "5"
digit (suc (suc (suc (suc (suc (suc zero)))))) = "6"
digit (suc (suc (suc (suc (suc (suc (suc zero))))))) = "7"
digit (suc (suc (suc (suc (suc (suc (suc (suc zero)))))))) = "8"
digit _ = "9"

-- The digits of `n` in front of `rest`; `fuel` is at least `n`.
digits_before : ℕ → ℕ → String → String
unfolding digit
digits_before zero n rest = cons (digit n) rest
digits_before (suc fuel) n rest =
    let more = digits_before fuel (n / 10) (cons (digit (n % 10)) rest) in
    if ltb n 10 then cons (digit n) rest else more

show_ℕ : ℕ → String
unfolding digits_before
show_ℕ n = digits_before n n String.[]

-- `%d`
unfoldable pub show_ℤ : ℤ → String
unfolding show_ℕ
show_ℤ (pos n) = show_ℕ n
show_ℤ (negsuc n) = cons "-" (show_ℕ (suc n))

code-digit : (n : ℕ) → n < 10 → code (digit n) ≡ b'0' + n
unfolding digit
code-digit zero h = refl
code-digit (suc zero) h = refl
code-digit (suc (suc zero)) h = refl
code-digit (suc (suc (suc zero))) h = refl
code-digit (suc (suc (suc (suc zero)))) h = refl
code-digit (suc (suc (suc (suc (suc zero))))) h = refl
code-digit (suc (suc (suc (suc (suc (suc zero)))))) h = refl
code-digit (suc (suc (suc (suc (suc (suc (suc zero))))))) h = refl
code-digit (suc (suc (suc (suc (suc (suc (suc (suc zero)))))))) h = refl
code-digit (suc (suc (suc (suc (suc (suc (suc (suc (suc zero))))))))) h = refl
code-digit (suc (suc (suc (suc (suc (suc (suc (suc (suc (suc n)))))))))) h = absurd (omega arith)

digits_from-digit :
    (acc n : ℕ) (rest : String)
    → n < 10
    → digits_from acc (cons (digit n) rest) ≡ digits_from (acc * 10 + n) rest
unfolding digits_from
digits_from-digit acc n rest h =
    let c = code-digit n h in
    let low : leb b'0' (code (digit n)) ≡ true = ground arith in
    let high : leb (code (digit n)) b'9' ≡ true = ground arith in
    let value : acc * 10 + (code (digit n) - b'0') ≡ acc * 10 + n = omega arith in
    rw (low, high, value)

digits_from-digits_before :
    (fuel n : ℕ) (rest : String)
    → n ≤ fuel
    → digits_from 0 (digits_before fuel n rest) ≡ digits_from n rest
unfolding digits_from digits_before
digits_from-digits_before zero n rest h =
    digits_from-digit 0 n rest (omega arith) ∙ ap (λ k. digits_from k rest) (omega arith)
digits_from-digits_before (suc fuel) n rest h = elim (Bool-cases (ltb n 10)) [
  | inl small ↦
      rw small
        (digits_from-digit 0 n rest (ground arith) ∙ ap (λ k. digits_from k rest) (omega arith))
  | inr large ↦ rw large (
      digits_from-digits_before fuel (n / 10) (cons (digit (n % 10)) rest) (ground arith)
      ∙ digits_from-digit (n / 10) (n % 10) rest (omega arith)
      ∙ ap (λ k. digits_from k rest) (omega arith))
]

starts_with_digit :
    (fuel n : ℕ) (rest : String)
    → n ≤ fuel
    → (k : ℕ) × (s : String) × (k < 10) × (digits_before fuel n rest ≡ cons (digit k) s)
unfolding digits_before
starts_with_digit zero n rest h = (n, rest, omega arith, refl)
starts_with_digit (suc fuel) n rest h = elim (Bool-cases (ltb n 10)) [
  | inl small ↦ (n, rest, ground arith, rw small)
  | inr large ↦
      let (k, s, below, starts) =
        starts_with_digit fuel (n / 10) (cons (digit (n % 10)) rest) (ground arith) in
      (k, s, below, rw large starts)
]

unsigned-show_ℕ : (n : ℕ) → unsigned (show_ℕ n) ≡ some n
unfolding unsigned show_ℕ digits_from
unsigned-show_ℕ n =
    let (k, s, below, starts) = starts_with_digit n n String.[] (omega arith) in
    let whole = digits_from-digits_before n n String.[] (omega arith) in
    rw starts (rw starts at whole)

atoi-digit :
    (k : ℕ) (s : String)
    → k < 10
    → atoi (cons (digit k) s) ≡ non_negative (unsigned (cons (digit k) s))
unfolding atoi
atoi-digit k s h =
    let c = code-digit k h in
    let plus : (code (digit k) == b'+') ≡ false = ground arith in
    let minus : (code (digit k) == b'-') ≡ false = ground arith in rw (plus, minus)

atoi-show_ℕ : (n : ℕ) → atoi (show_ℕ n) ≡ non_negative (unsigned (show_ℕ n))
unfolding show_ℕ
atoi-show_ℕ n =
    let (k, s, below, starts) = starts_with_digit n n String.[] (omega arith) in
    rw starts (atoi-digit k s below)

-- Every 64-bit integer is read back by `Atoi` from the decimal numeral that `%d` writes.
pub atoi-show_ℤ : (n : ℤ) → pos_part n < 2 ^ 63 → neg_part n ≤ 2 ^ 63 → atoi (show_ℤ n) ≡ some n
unfolding show_ℤ atoi
atoi-show_ℤ (pos n) h _ =
    let small : ltb n (2 ^ 63) ≡ true = ground arith in
    atoi-show_ℕ n ∙ ap non_negative (unsigned-show_ℕ n) ∙ rw small
atoi-show_ℤ (negsuc n) _ h =
    let small : ltb n (2 ^ 63) ≡ true = ground arith in
    ap negative (unsigned-show_ℕ (suc n)) ∙ rw small

has_char-digit :
    (m n : ℕ) (rest : String)
    → b'9' < m
    → n < 10
    → has_char m (cons (digit n) rest) ≡ has_char m rest
unfolding has_char
has_char-digit m n rest big h =
    let c = code-digit n h in
    let other : (code (digit n) == m) ≡ false = ground arith in simp (other, has_char)

has_char-digits_before :
    (m fuel n : ℕ) (rest : String)
    → b'9' < m
    → n ≤ fuel
    → has_char m (digits_before fuel n rest) ≡ has_char m rest
unfolding digits_before
has_char-digits_before m zero n rest big h = has_char-digit m n rest big (omega arith)
has_char-digits_before m (suc fuel) n rest big h = elim (Bool-cases (ltb n 10)) [
  | inl small ↦ rw small (has_char-digit m n rest big (ground arith))
  | inr large ↦ rw large (
      has_char-digits_before m fuel (n / 10) (cons (digit (n % 10)) rest) big (ground arith)
      ∙ has_char-digit m (n % 10) rest big (omega arith))
]

-- A numeral has no character above the digits.
pub has_char-show_ℤ : (m n : ℕ) → b'9' < m → has_char m (show_ℤ (pos n)) ≡ false
unfolding show_ℤ show_ℕ has_char
has_char-show_ℤ m n big = has_char-digits_before m n n String.[] big (omega arith)
