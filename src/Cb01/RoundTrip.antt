-- ===== src/Cb01/RoundTrip.antt =====
-- A whole frame of internal/sshx/cb01.go: encoding succeeds, and decoding gives the items back.
use clipbeam_cli.Prelude.{
  ℕ, suc, ◌^◌, ◌≤◌, ◌<◌, ◌≡◌, refl, ap, ◌∙◌, Option, none, some, List, [], ◌∷◌, ◌++◌, map,
  append_assoc, arith, ◌==◌, le→ltb-false, length, All, Bytes, bytes_eq,
}
use clipbeam_cli.Go.Varint.{put_uvarint}
use clipbeam_cli.Go.Varint.RoundTrip.{read-put}
use clipbeam_cli.Cb01.{
  Cb01Item, Cb01ItemReader, to_reader, ok, copy_payload, item_head, write_item, decode_body,
  encode_items, encode_streaming, encode, or_bad, read_byte, decode_items, decode, cb01_magic,
  with_capacity, check_magic, check_count,
}
use clipbeam_cli.Cb01.Items.{Fits, copy_whole, read_full-append, decode_item-head}

-- The items behind one another, as the encoder writes them.
body : List Cb01Item → Bytes
body [] = []
body (it ∷ items) = item_head (to_reader it) ++ (it.payload ++ body items)

encode_items-nil : encode_items [] ≡ some []
unfolding encode_items
encode_items-nil = refl

encode_items-cons :
    (r : Cb01ItemReader) (rs : List Cb01ItemReader) (bytes tail : Bytes)
    → copy_payload r.payload_size r.payload ≡ some bytes
    → encode_items rs ≡ some tail
    → encode_items (r ∷ rs) ≡ some (item_head r ++ (bytes ++ tail))
unfolding encode_items write_item
encode_items-cons r rs bytes tail whole rest = rw (whole, rest) refl

encode_items-body : (items : List Cb01Item) → encode_items (map to_reader items) ≡ some (body items)
unfolding body to_reader
encode_items-body [] = encode_items-nil
encode_items-body (it ∷ items) =
    encode_items-cons (to_reader it) (map to_reader items) it.payload (body items)
      (copy_whole it.payload) (encode_items-body items)

decode_items-body :
    (items : List Cb01Item) (rest : Bytes)
    → All Fits items
    → decode_items (λ n. none) (length items) (body items ++ rest) ≡ ok (map to_reader items)
unfolding decode_items body
decode_items-body [] rest h = refl
decode_items-body (it ∷ items) rest (fits, h) =
    rw
      (
        append_assoc (item_head (to_reader it)) (it.payload ++ body items) rest,
        append_assoc it.payload (body items) rest,
        decode_item-head (length items == 0) it (body items ++ rest) fits,
        decode_items-body items rest h,
      )
      refl

-- What a frame is, in one piece.
frame_of : ℕ → List Cb01Item → Bytes
frame_of channel items = cb01_magic ++ (channel ∷ (put_uvarint (length items) ++ body items))

length-map : (items : List Cb01Item) → length (map to_reader items) ≡ length items
length-map [] = refl
length-map (it ∷ items) = ap suc (length-map items)

encode-frame :
    (channel : ℕ) (it : Cb01Item) (items : List Cb01Item)
    → encode channel (it ∷ items) ≡ some (frame_of channel (it ∷ items))
unfolding encode encode_streaming frame_of
encode-frame channel it items = rw (encode_items-body (it ∷ items), length-map items) refl

count_accepted : (n : ℕ) → check_count (suc n) ≡ ok tt
unfolding check_count
count_accepted n = ground arith

magic_accepted : check_magic cb01_magic ≡ ok tt
unfolding check_magic bytes_eq
magic_accepted = refl

decode-magic :
    (max_items : ℕ) (failures : ℕ → Option ℕ) (tail : Bytes)
    → decode max_items failures (cb01_magic ++ tail) ≡ decode_body max_items failures tail
unfolding decode
decode-magic max_items failures tail = rw (read_full-append cb01_magic tail, magic_accepted) refl

decode-frame :
    (max_items channel : ℕ) (it : Cb01Item) (items : List Cb01Item) (rest : Bytes)
    → All Fits (it ∷ items)
    → length (it ∷ items) ≤ max_items
    → length (it ∷ items) < 2 ^ 64
    → decode max_items (λ n. none) (frame_of channel (it ∷ items) ++ rest)
      ≡ ok (channel, map to_reader (it ∷ items))
unfolding decode_body frame_of read_byte or_bad with_capacity
decode-frame max_items channel it items rest h room small =
    decode-magic max_items (λ n. none)
      (channel ∷ ((put_uvarint (length (it ∷ items)) ++ body (it ∷ items)) ++ rest))
    ∙ rw
        (
          append_assoc (put_uvarint (length (it ∷ items))) (body (it ∷ items)) rest,
          read-put (length (it ∷ items)) (body (it ∷ items) ++ rest) small,
          count_accepted (length items),
          le→ltb-false max_items (length (it ∷ items)) room,
          decode_items-body (it ∷ items) rest h,
        )
        refl

-- EncodeCB01 writes a frame for any nonempty list of items, and DecodeCB01 on a reader that starts
-- with that frame yields the channel and the same items, each with its payload, when the metadata
-- strings are within 64 KiB, the payload sizes are int64 values, the item count is within
-- what `make` can give room to, and no temporary file fails.
pub decode-encode :
    (max_items channel : ℕ) (it : Cb01Item) (items : List Cb01Item) (rest : Bytes)
    → All Fits (it ∷ items)
    → length (it ∷ items) ≤ max_items
    → length (it ∷ items) < 2 ^ 64
    → (frame : Bytes) × ((encode channel (it ∷ items) ≡ some frame)
        × (decode max_items (λ n. none) (frame ++ rest) ≡ ok (channel, map to_reader (it ∷ items))))
decode-encode max_items channel it items rest h room small = (
  frame_of channel (it ∷ items),
  (encode-frame channel it items, decode-frame max_items channel it items rest h room small),
)
