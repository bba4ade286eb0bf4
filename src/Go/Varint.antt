-- ===== src/Go/Varint.antt =====
-- encoding/binary of the standard library: PutUvarint and ReadUvarint on 64-bit numbers.
pub mod RoundTrip
use clipbeam_cli.Prelude.{
  ℕ, zero, suc, ◌+◌, ◌-◌, ◌*◌, ◌/◌, ◌%◌, ◌^◌, ◌≤◌, ◌<◌, ◌≡◌, refl, sym, ap, ◌∙◌, ◌≢◌, ◌↔◌, ◌⊎◌, inl,
  inr, Bool, true, false, not, ◌&&◌, ◌||◌, Option, none, some, List, [], ◌∷◌, ◌++◌, map,
  append_assoc, append-nil, arith, ltb, leb, ◌==◌, if◌then◌else◌, between, ==_iff, lt→ltb, ltb→lt,
  ltb→le, leb→le, leb→lt, le→leb, lt→leb-false, le→ltb-false, All-left, All-right, All-map,
  Bool-cases, Option-cases, length, replicate, take, drop, All, last, get_or, length-append,
  length-take, length-drop, take-append-drop, take-length-append, drop-length-append, All-append,
  All-take, All-drop, Bytes, codes, bytes_eq, bytes_eq_refl, bytes_eq_iff, has_prefix,
  has_prefix-append,
}

-- `buf[i] = byte(x) | 0x80; x >>= 7` while x has more than seven bits, for ten bytes at most.
pub put_loop : ℕ → ℕ → Bytes
put_loop zero x = []
put_loop (suc room) x =
    let more = put_loop room (x / 128) in if ltb x 128 then x ∷ [] else (x % 128 + 128) ∷ more

pub put_uvarint : ℕ → Bytes
put_uvarint x = put_loop 10 x

-- The bytes still allowed, the number so far and the weight of the next seven bits. `none` is any
-- of the errors: the end of the input, or a number of more than 64 bits.
pub read_loop : ℕ → ℕ → ℕ → Bytes → Option (ℕ × Bytes)
read_loop zero acc weight bs = none
read_loop (suc room) acc weight [] = none
read_loop (suc room) acc weight (b ∷ bs) =
    let more = read_loop room (acc + (b - 128) * weight) (weight * 128) bs in
    if ltb b 128 then (if room == 0 && ltb 1 b then none else some (acc + b * weight, bs)) else more

pub read_uvarint : Bytes → Option (ℕ × Bytes)
read_uvarint bs = read_loop 10 0 1 bs

uvarint_300 : put_uvarint 300 ≡ 0xAC ∷ 0x02 ∷ []
unfolding put_uvarint put_loop
uvarint_300 = refl

uvarint_back : read_uvarint (0xAC ∷ 0x02 ∷ 7 ∷ []) ≡ some (300, 7 ∷ [])
unfolding read_uvarint read_loop
uvarint_back = refl
