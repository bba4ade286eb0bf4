-- ===== src/Go/Varint/RoundTrip.antt =====
-- Reading undoes writing, whatever follows.
use clipbeam_cli.Prelude.{
  ℕ, zero, suc, ◌+◌, ◌-◌, ◌*◌, ◌/◌, ◌%◌, ◌^◌, ◌≤◌, ◌<◌, ◌≡◌, refl, ap, ◌∙◌, some, [], ◌∷◌, ◌++◌,
  arith, lt→ltb, le→ltb-false, Bytes,
}
use native.Mathlib.Nat.{pow-suc}
use native.Mathlib.Decide.{dec_lt}
use clipbeam_cli.Go.Varint.{put_loop, put_uvarint, read_loop, read_uvarint}

read_small :
    (room acc weight x : ℕ) (rest : Bytes)
    → x < 128
    → x < 2 * 128 ^ room
    → read_loop (suc room) acc weight (x ∷ rest) ≡ some (acc + x * weight, rest)
unfolding read_loop
read_small zero acc weight x rest h k = ground arith
read_small (suc room) acc weight x rest h k = ground arith

read_more :
    (room acc weight b : ℕ) (rest : Bytes)
    → 128 ≤ b
    → read_loop (suc room) acc weight (b ∷ rest)
      ≡ read_loop room (acc + (b - 128) * weight) (weight * 128) rest
unfolding read_loop
read_more room acc weight b rest h = rw (le→ltb-false _ _ h)

put_small : (room x : ℕ) → x < 128 → put_loop (suc room) x ≡ x ∷ []
unfolding put_loop
put_small room x h = rw (lt→ltb _ _ h)

put_more :
    (room x : ℕ) → 128 ≤ x → put_loop (suc room) x ≡ (x % 128 + 128) ∷ put_loop room (x / 128)
unfolding put_loop
put_more room x h = rw (le→ltb-false _ _ h)

weights :
    (acc weight x : ℕ)
    → acc + (x % 128 + 128 - 128) * weight + x / 128 * (weight * 128) ≡ acc + x * weight
weights acc weight x =
    let low : x % 128 + 128 - 128 ≡ x % 128 = omega arith in
    let parts : x ≡ x / 128 * 128 + x % 128 = omega arith in
    ap (λ (t : ℕ). acc + t * weight + x / 128 * (weight * 128)) low
    ∙ omega (arith, ap (λ (t : ℕ). t * weight) parts)

read-put_loop :
    (room acc weight x : ℕ) (rest : Bytes)
    → x < 2 * 128 ^ room
    → read_loop (suc room) acc weight (put_loop (suc room) x ++ rest)
      ≡ some (acc + x * weight, rest)
read-put_loop zero acc weight x rest h =
    rw (put_small 0 x (omega arith)) (read_small 0 acc weight x rest (omega arith) h)
read-put_loop (suc room) acc weight x rest h = elim (dec_lt x 128) [
  | yes k ↦ rw (put_small (suc room) x k) (read_small (suc room) acc weight x rest k h)
  | no k ↦
      rw
        (
          put_more (suc room) x (omega arith),
          read_more (suc room) acc weight (x % 128 + 128) (put_loop (suc room) (x / 128) ++ rest)
              (omega arith),
        )
        (read-put_loop room (acc + (x % 128 + 128 - 128) * weight) (weight * 128) (x / 128) rest
            (omega (arith, pow-suc 128 room))
          ∙ ap (λ (t : ℕ). some (t, rest)) (weights acc weight x))
]

opened :
    (x : ℕ) (rest : Bytes)
    → read_uvarint (put_uvarint x ++ rest) ≡ read_loop 10 0 1 (put_loop 10 x ++ rest)
unfolding read_uvarint put_uvarint
opened x rest = refl

-- A 64-bit number that is written is read back, and what follows it is left.
pub read-put :
    (x : ℕ) (rest : Bytes) → x < 2 ^ 64 → read_uvarint (put_uvarint x ++ rest) ≡ some (x, rest)
read-put x rest h =
    opened x rest ∙ (read-put_loop 9 0 1 x rest h ∙ ap (λ (t : ℕ). some (t, rest)) (omega arith))
