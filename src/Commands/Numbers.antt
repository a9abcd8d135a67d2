-- ===== src/Commands/Numbers.antt =====
-- Numbers: the digits that std::to_string writes give the number back when they are read.
use multi_threaded_tcp_chat.Base.{
  ℕ, zero, suc, ◌+◌, ◌*◌, ◌/◌, ◌%◌, ◌<◌, ◌≡◌, ap, sym, ◌∙◌, true, false, [], ◌∷◌, ltb, arith,
  Bool-cases, inl, inr, nat_eq,
}
use multi_threaded_tcp_chat.Base.Text.{Text, decimal_digits, to_string}
use multi_threaded_tcp_chat.Commands.{is_digit, read_digits}

digit_bound : (n : ℕ) → (n % 10 < 10) × (n ≡ 10 * (n / 10) + n % 10)
digit_bound n = (omega arith, omega arith)

-- One digit more.
read_digits-digit :
    (value n : ℕ) (acc : Text)
    → read_digits value ((48 + n % 10) ∷ acc) ≡ read_digits (10 * value + n % 10) acc
unfolding read_digits is_digit
read_digits-digit value n acc = ground (arith, digit_bound n)

-- With more rounds than the number says, all its digits are written.
read_digits-decimal_digits :
    (fuel n : ℕ) (acc : Text)
    → n < fuel
    → read_digits 0 (decimal_digits fuel n acc) ≡ read_digits n acc
unfolding decimal_digits
read_digits-decimal_digits zero n acc h = absurd (omega arith)
read_digits-decimal_digits (suc fuel) n acc h = elim (Bool-cases (ltb n 10)) [
  | inl small ↦
      rw (small, decimal_digits)
        (read_digits-digit 0 n acc ∙ ap (λ (k : ℕ). read_digits k acc) (small_digit n small))
  | inr large ↦
      rw (large, decimal_digits)
        (read_digits-decimal_digits fuel (n / 10) ((48 + n % 10) ∷ acc) (smaller n fuel large h)
          ∙ read_digits-digit (n / 10) n acc
          ∙ ap (λ (k : ℕ). read_digits k acc) (sym (digit_bound n).1))
]
  where
    small_digit : (n : ℕ) → ltb n 10 ≡ true → 10 * 0 + n % 10 ≡ n
    small_digit n small = ground arith

    smaller : (n fuel : ℕ) → ltb n 10 ≡ false → n < suc fuel → n / 10 < fuel
    smaller n fuel large h = ground arith

pub read_digits-to_string : (n : ℕ) → read_digits 0 (to_string n) ≡ n
unfolding to_string read_digits
read_digits-to_string n = read_digits-decimal_digits (suc n) n [] (omega arith)
