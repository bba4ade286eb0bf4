-- ===== src/Sanitize/Decimal.antt =====
-- `itoa` of internal/sanitize/sanitize.go writes the decimal digits: reading them back gives the
-- number, for every number that fits the buffer of 20 digits.
use clipbeam_cli.Prelude.{
  ℕ, zero, suc, ◌+◌, ◌-◌, ◌*◌, ◌/◌, ◌%◌, ◌^◌, ◌<◌, ◌≡◌, refl, sym, ap, ◌∙◌, inl, inr, [], ◌∷◌,
  arith, ◌==◌, ==_iff, Bool-cases, Bytes,
}
use native.Mathlib.Nat.{pow-suc}
use clipbeam_cli.Sanitize.{itoa, itoa_loop}

-- The number that a text of digits stands for, after the digits of `acc`.
pub decimal : Bytes → ℕ → ℕ
decimal [] acc = acc
decimal (c ∷ s) acc = decimal s (acc * 10 + (c - b'0'))

last_digit : (n : ℕ) (out : Bytes) → decimal ((b'0' + n % 10) ∷ out) (n / 10) ≡ decimal out n
unfolding decimal
last_digit n out = ap (decimal out) (omega arith)

decimal-itoa_loop :
    (room n : ℕ) (out : Bytes) → n < 10 ^ room → decimal (itoa_loop room n out) 0 ≡ decimal out n
unfolding itoa_loop
decimal-itoa_loop zero n out h = ap (decimal out) (omega arith)
decimal-itoa_loop (suc room) n out h = elim (Bool-cases (n == 0)) [
  | inl y ↦ rw y (ap (decimal out) (sym ((==_iff n 0).0 y)))
  | inr m ↦ rw m (
      decimal-itoa_loop room (n / 10) ((b'0' + n % 10) ∷ out) (omega (arith, pow-suc 10 room))
      ∙ last_digit n out)
]

-- A number below 10^20 is what its digits say.
pub decimal-itoa : (n : ℕ) → n < 10 ^ 20 → decimal (itoa n) 0 ≡ n
unfolding itoa
decimal-itoa n h = elim (Bool-cases (n == 0)) [
  | inl y ↦ rw y (unfold decimal in sym ((==_iff n 0).0 y))
  | inr m ↦ rw m (decimal-itoa_loop 20 n [] h ∙ unfold decimal in refl)
]

-- Two numbers that are written alike are equal.
pub itoa-injective : (n m : ℕ) → n < 10 ^ 20 → m < 10 ^ 20 → itoa n ≡ itoa m → n ≡ m
itoa-injective n m hn hm e =
    sym (decimal-itoa n hn) ∙ ap (λ (t : Bytes). decimal t 0) e ∙ decimal-itoa m hm
