-- ===== src/Cb01/Items.antt =====
-- One item of internal/sshx/cb01.go: decoding what was encoded.
use clipbeam_cli.Prelude.{
  ℕ, suc, ◌^◌, ◌≤◌, ◌<◌, ◌≡◌, refl, sym, ap, ◌∙◌, Bool, true, false, none, some, [], ◌∷◌, ◌++◌,
  append_assoc, append-nil, arith, ◌==◌, lt→ltb, le→leb, le→ltb-false, length, take, length-append,
  take-length-append, drop-length-append, Bytes,
}
use clipbeam_cli.Go.Varint.{put_uvarint}
use clipbeam_cli.Go.Varint.RoundTrip.{read-put}
use clipbeam_cli.Cb01.{
  Cb01Item, to_reader, ok, write_string, copy_payload, item_head, or_bad, read_byte, read_full,
  read_sized, read_string, signed_size, spill, read_payload, decode_item, cb01_max_string_len,
}

-- An item that the frame can carry: metadata within the decoder's bound, and a payload whose size
-- is an int64.
pub record Fits (it : Cb01Item) : Type 0 where
  pub name : length it.name ≤ cb01_max_string_len
  pub uti : length it.uti ≤ cb01_max_string_len
  pub mime : length it.mime ≤ cb01_max_string_len
  pub payload : length it.payload < 2 ^ 63

pub read_full-append : (s rest : Bytes) → read_full (length s) (s ++ rest) ≡ ok (s, rest)
unfolding read_full
read_full-append s rest = rw (
  le→leb (length s) (length (s ++ rest)) (omega (arith, length-append s rest)),
  take-length-append s rest,
  drop-length-append s rest,
)

empty_of_length : (s : Bytes) → length s ≡ 0 → s ≡ []
empty_of_length [] h = refl
empty_of_length (c ∷ s) h = absurd (omega arith)

pub suc-not_zero : (n : ℕ) → (suc n == 0) ≡ false
suc-not_zero n = ground arith

read_sized-append :
    (s rest : Bytes)
    → length s ≤ cb01_max_string_len
    → read_sized (length s) (s ++ rest) ≡ ok (s, rest)
unfolding read_sized
read_sized-append [] rest h = refl
read_sized-append (c ∷ s) rest h =
    rw (suc-not_zero (length s), le→ltb-false cb01_max_string_len (length (c ∷ s)) h)
      (read_full-append (c ∷ s) rest)

pub read_string-write :
    (s rest : Bytes)
    → length s ≤ cb01_max_string_len
    → read_string (write_string s ++ rest) ≡ ok (s, rest)
unfolding read_string write_string or_bad
read_string-write s rest h =
    rw (append_assoc (put_uvarint (length s)) s rest, read-put (length s) (s ++ rest) (omega arith))
      (read_sized-append s rest h)

take-whole : (bytes : Bytes) → take (length bytes) bytes ≡ bytes
take-whole bytes = ap (take (length bytes)) (sym (append-nil bytes)) ∙ take-length-append bytes []

pub copy_whole : (bytes : Bytes) → copy_payload (length bytes) (some bytes) ≡ some bytes
unfolding copy_payload
copy_whole bytes = rw (le→leb (length bytes) (length bytes) (omega arith), take-whole bytes) refl

pub payload_read :
    (last_one : Bool) (bytes rest : Bytes)
    → length bytes < 2 ^ 63
    → read_payload last_one none (signed_size (length bytes)) (bytes ++ rest) ≡ ok (bytes, rest)
unfolding read_payload signed_size spill
payload_read true bytes rest h =
    rw (
      lt→ltb (length bytes) (2 ^ 63) h,
      take-length-append bytes rest,
      drop-length-append bytes rest,
    )
payload_read false bytes rest h =
    rw (lt→ltb (length bytes) (2 ^ 63) h) (read_full-append bytes rest)

pub head-append :
    (it : Cb01Item) (rest : Bytes)
    → item_head (to_reader it) ++ rest
      ≡ it.kind
        ∷ (write_string it.name
            ++ (write_string it.uti
                ++ (write_string it.mime ++ (put_uvarint (length it.payload) ++ rest))))
unfolding item_head to_reader
head-append it rest = simp append_assoc

-- Decoding an encoded item gives the item, and leaves what follows it.
pub decode_item-head :
    (last_one : Bool) (it : Cb01Item) (rest : Bytes)
    → Fits it
    → decode_item none last_one (item_head (to_reader it) ++ (it.payload ++ rest))
      ≡ ok (to_reader it, rest)
unfolding decode_item read_byte or_bad to_reader
decode_item-head last_one it rest h = rw (
  head-append it (it.payload ++ rest),
  read_string-write it.name _ h.name,
  read_string-write it.uti _ h.uti,
  read_string-write it.mime _ h.mime,
  read-put (length it.payload) (it.payload ++ rest) (omega (arith, h.payload)),
  payload_read last_one it.payload rest h.payload,
)
