-- ===== src/Cb01/Cut.antt =====
-- internal/sshx/cb01.go on a stream that ends inside the last payload, and the bytes of
-- internal/sshx/cb01_map.go.
use clipbeam_cli.Prelude.{
  ℕ, zero, suc, ◌^◌, ◌≤◌, ◌<◌, ◌≡◌, refl, ap, ◌⊎◌, inl, inr, true, none, some, [], ◌∷◌, ◌++◌, arith,
  lt→ltb, length, take, drop, Bytes, bytes_eq,
}
use clipbeam_cli.Cb01.{
  Cb01Item, to_reader, ok, item_head, decode_item, channel_byte, channel_string, read_payload,
  signed_size, or_bad, read_byte,
}
use clipbeam_cli.Cb01.Items.{Fits, head-append, read_string-write}
use clipbeam_cli.Ingest.{channel_agent, channel_clipboard}
use clipbeam_cli.Go.Varint.RoundTrip.{read-put}

-- The names of the two channels and of the three kinds are their bytes and back.
pub channel_string-channel_byte :
    (channel : Bytes)
    → (channel ≡ channel_agent) ⊎ (channel ≡ channel_clipboard)
    → channel_string (channel_byte channel) ≡ channel
unfolding channel_string channel_byte bytes_eq
channel_string-channel_byte channel (inl e) = rw e refl
channel_string-channel_byte channel (inr e) = rw e refl

take_short : (n : ℕ) (xs : Bytes) → length xs ≤ n → take n xs ≡ xs
take_short zero [] h = refl
take_short zero (x ∷ xs) h = absurd (omega arith)
take_short (suc n) [] h = refl
take_short (suc n) (x ∷ xs) h = ap (λ (t : Bytes). x ∷ t) (take_short n xs (omega arith))

drop_short : (n : ℕ) (xs : Bytes) → length xs ≤ n → drop n xs ≡ []
drop_short zero [] h = refl
drop_short zero (x ∷ xs) h = absurd (omega arith)
drop_short (suc n) [] h = refl
drop_short (suc n) (x ∷ xs) h = drop_short n xs (omega arith)

payload_cut :
    (size : ℕ) (bytes : Bytes)
    → size < 2 ^ 63
    → length bytes ≤ size
    → read_payload true none (signed_size size) bytes ≡ ok (bytes, [])
unfolding read_payload signed_size
payload_cut size bytes h short =
    rw (lt→ltb size (2 ^ 63) h, take_short size bytes short, drop_short size bytes short) refl

-- A stream that ends within the last item's payload is accepted: the item is decoded with the
-- size that the frame declares and with only the bytes that came, and there is no error.
pub decode_item_cut :
    (it : Cb01Item) (came : Bytes)
    → Fits it
    → length came ≤ length it.payload
    → decode_item none true (item_head (to_reader it) ++ came)
      ≡ ok (record (to_reader it) { payload = some came }, [])
unfolding decode_item read_byte or_bad to_reader
decode_item_cut it came h short = rw (
  head-append it came,
  read_string-write it.name _ h.name,
  read_string-write it.uti _ h.uti,
  read_string-write it.mime _ h.mime,
  read-put (length it.payload) came (omega (arith, h.payload)),
  payload_cut (length it.payload) came h.payload short,
)
