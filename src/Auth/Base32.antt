-- ===== src/Auth/Base32.antt =====
-- internal/auth/auth.go: the length and the characters of a Base32 token.
use clipbeam_cli.Prelude.{
  ℕ, zero, suc, ◌+◌, ◌-◌, ◌*◌, ◌/◌, ◌%◌, ◌^◌, ◌<◌, ◌≡◌, refl, inl, inr, [], ◌∷◌, arith, ltb, leb,
  ltb→lt, ltb→le, leb→le, leb→lt, Bool-cases, length, All, get_or, length-append, All-append, Bytes,
}
use clipbeam_cli.Auth.{
  emit, encode_loop, base32_encode, base32_alphabet, token_random_bytes, token_chars,
}

emit_counts :
    (fuel buffer bits : ℕ)
    → bits < 5 * fuel
    → (length (emit fuel buffer bits).0 ≡ bits / 5) × ((emit fuel buffer bits).1 ≡ bits % 5)
unfolding emit
emit_counts zero buffer bits h = absurd (omega arith)
emit_counts (suc fuel) buffer bits h = elim (Bool-cases (leb 5 bits)) [
  | inl more ↦
      (let rest = emit_counts fuel buffer (bits - 5) (omega (arith, leb→le 5 bits more, h)) in
        rw more
          (omega (arith, rest.0, leb→le 5 bits more), omega (arith, rest.1, leb→le 5 bits more)))
  | inr done ↦ rw done (omega (arith, leb→lt 5 bits done), omega (arith, leb→lt 5 bits done))
]

length-encode_loop :
    (buffer bits : ℕ) (bytes : Bytes)
    → bits < 5
    → length (encode_loop buffer bits bytes) ≡ (bits + length bytes * 8 + 4) / 5
unfolding encode_loop
length-encode_loop buffer bits [] h = elim (Bool-cases (ltb 0 bits)) [
  | inl some_left ↦ rw some_left (omega (arith, ltb→lt 0 bits some_left))
  | inr nothing ↦ rw nothing (omega (arith, ltb→le 0 bits nothing))
]
length-encode_loop buffer bits (b ∷ bytes) h =
    (let next = (buffer * 2 ^ 8 % 2 ^ 32) + b in
      let counts = emit_counts 3 next (bits + 8) (omega arith) in
      omega (
        arith,
        length-append (emit 3 next (bits + 8)).0
            (encode_loop next (emit 3 next (bits + 8)).1 bytes),
        counts.0,
        counts.1,
        length-encode_loop next (emit 3 next (bits + 8)).1 bytes (omega (arith, counts.1)),
      ))

pub InAlphabet : ℕ → Type 0
InAlphabet c = (i : ℕ) × ((i < 32) × (get_or base32_alphabet i 0 ≡ c))

emit_letters : (fuel buffer bits : ℕ) → All InAlphabet (emit fuel buffer bits).0
unfolding emit InAlphabet
emit_letters zero buffer bits = tt
emit_letters (suc fuel) buffer bits = elim (Bool-cases (leb 5 bits)) [
  | inl more ↦
      rw more
        ((buffer / 2 ^ (bits - 5) % 32, (omega arith, refl)), emit_letters fuel buffer (bits - 5))
  | inr done ↦ rw done tt
]

letters-encode_loop :
    (buffer bits : ℕ) (bytes : Bytes) → All InAlphabet (encode_loop buffer bits bytes)
unfolding encode_loop InAlphabet
letters-encode_loop buffer bits [] = elim (Bool-cases (ltb 0 bits)) [
  | inl some_left ↦ rw some_left ((buffer * 2 ^ (5 - bits) % 2 ^ 32 % 32, (omega arith, refl)), tt)
  | inr nothing ↦ rw nothing tt
]
letters-encode_loop buffer bits (b ∷ bytes) =
    (let next = (buffer * 2 ^ 8 % 2 ^ 32) + b in
      All-append InAlphabet (emit 3 next (bits + 8)).0 _ (emit_letters 3 next (bits + 8))
        (letters-encode_loop next (emit 3 next (bits + 8)).1 bytes))

-- The Base32 form of n bytes has ⌈8n / 5⌉ characters, each at some index below 32 of the alphabet;
-- so a token, which is made from 15 random bytes, has 24.
pub base32_encode_lem :
    (bytes : Bytes)
    → (length (base32_encode bytes) ≡ (length bytes * 8 + 4) / 5)
      × (All InAlphabet (base32_encode bytes)
          × (length bytes ≡ token_random_bytes → length (base32_encode bytes) ≡ token_chars))
unfolding base32_encode
base32_encode_lem bytes = (
  omega (arith, length-encode_loop 0 0 bytes (omega arith)),
  (
    letters-encode_loop 0 0 bytes,
    λ h. omega (arith, length-encode_loop 0 0 bytes (omega arith), h),
  ),
)
