-- ===== src/Cb01.antt =====
-- internal/sshx/cb01.go: the framing of items over SSH, and internal/sshx/cb01_map.go, its kind
-- and channel bytes. A reader is the bytes that it still yields before its end.
pub mod Items
pub mod RoundTrip
pub mod Cut
use clipbeam_cli.Prelude.{
  ℕ, zero, suc, ◌+◌, ◌-◌, ◌*◌, ◌/◌, ◌%◌, ◌^◌, ◌≤◌, ◌<◌, ◌≡◌, refl, sym, ap, ◌∙◌, ◌≢◌, ◌↔◌, ◌⊎◌, inl,
  inr, Bool, true, false, not, ◌&&◌, ◌||◌, Option, none, some, List, [], ◌∷◌, ◌++◌, map,
  append_assoc, append-nil, arith, ltb, leb, ◌==◌, if◌then◌else◌, between, ==_iff, lt→ltb, ltb→lt,
  ltb→le, leb→le, leb→lt, le→leb, lt→leb-false, le→ltb-false, All-left, All-right, All-map,
  Bool-cases, Option-cases, length, replicate, take, drop, All, last, get_or, length-append,
  length-take, length-drop, take-append-drop, take-length-append, drop-length-append, All-append,
  All-take, All-drop, Bytes, codes, bytes_eq, bytes_eq_refl, bytes_eq_iff, has_prefix,
  has_prefix-append,
}
use mathlib.Core.Option
use clipbeam_cli.Go.Varint.{put_uvarint, read_uvarint}
use clipbeam_cli.Sanitize.{kind_image, kind_file, kind_text}
use clipbeam_cli.Ingest.{channel_agent, channel_clipboard}

abbrev pub cb01_magic : Bytes
cb01_magic = codes "CB01"

abbrev pub cb01_channel_agent : ℕ
cb01_channel_agent = 1

abbrev pub cb01_channel_clipboard : ℕ
cb01_channel_clipboard = 0

abbrev pub cb01_kind_image : ℕ
cb01_kind_image = 0

abbrev pub cb01_kind_file : ℕ
cb01_kind_file = 1

abbrev pub cb01_kind_text : ℕ
cb01_kind_text = 2

abbrev pub cb01_max_string_len : ℕ
cb01_max_string_len = 64 * 1024

-- `none` is a nil payload reader; `payload_size` is what the frame declares, an `int64` by its bit
-- pattern.
pub record Cb01ItemReader : Type 0 where
  pub kind : ℕ
  pub name : Bytes
  pub uti : Bytes
  pub mime : Bytes
  pub payload : Option Bytes
  pub payload_size : ℕ

-- The buffered form.
pub record Cb01Item : Type 0 where
  pub kind : ℕ
  pub name : Bytes
  pub uti : Bytes
  pub mime : Bytes
  pub payload : Bytes

pub to_reader : Cb01Item → Cb01ItemReader
to_reader it = record {
  kind = it.kind;
  name = it.name;
  uti = it.uti;
  mime = it.mime;
  payload = some it.payload;
  payload_size = length it.payload;
}

-- What a decoder returns: a value, ErrBadFrame, another error by its errno, or no return at all
-- where `make` panics for want of memory.
pub data Decoded {ℓ} (A : Type ℓ) : Type ℓ where
  ok : A → Decoded A
  bad_frame : Decoded A
  os_error : ℕ → Decoded A
  panics : Decoded A

infixl 5 ◌>>=◌
abbrev pub ◌>>=◌ {ℓ κ} : {A : Type ℓ} {B : Type κ} → Decoded A → (A → Decoded B) → Decoded B
ok a >>= f = f a
bad_frame >>= f = bad_frame
os_error e >>= f = os_error e
panics >>= f = panics

pub write_string : Bytes → Bytes
write_string s = put_uvarint (length s) ++ s

-- io.CopyN of the declared size: `none` where the payload is nil or too short.
pub copy_payload : ℕ → Option Bytes → Option Bytes
copy_payload size none = if size == 0 then some [] else none
copy_payload size (some bytes) = if leb size (length bytes) then some (take size bytes) else none

pub item_head : Cb01ItemReader → Bytes
item_head it =
    it.kind
    ∷ (write_string it.name
        ++ (write_string it.uti ++ (write_string it.mime ++ put_uvarint it.payload_size)))

-- The item's head and payload, and the rest of the items after them.
pub write_item : Cb01ItemReader → Option Bytes → Option Bytes → Option Bytes
write_item it none rest = none
write_item it (some bytes) rest = Option.map (λ tail. item_head it ++ (bytes ++ tail)) rest

pub encode_items : List Cb01ItemReader → Option Bytes
encode_items [] = some []
encode_items (it ∷ items) =
    write_item it (copy_payload it.payload_size it.payload) (encode_items items)

-- The frame on a writer that takes all bytes; `none` is an error.
pub encode_streaming : ℕ → List Cb01ItemReader → Option Bytes
encode_streaming channel [] = none
encode_streaming channel (it ∷ items) =
    Option.map (λ body. cb01_magic ++ (channel ∷ (put_uvarint (length (it ∷ items)) ++ body)))
      (encode_items (it ∷ items))

-- EncodeCB01
pub encode : ℕ → List Cb01Item → Option Bytes
encode channel items = encode_streaming channel (map to_reader items)

pub read_byte : Bytes → Decoded (ℕ × Bytes)
read_byte [] = bad_frame
read_byte (b ∷ bs) = ok (b, bs)

pub or_bad {ℓ} : {A : Type ℓ} → Option A → Decoded A
or_bad none = bad_frame
or_bad (some a) = ok a

-- io.ReadFull of n bytes
pub read_full : ℕ → Bytes → Decoded (Bytes × Bytes)
read_full n bs = if leb n (length bs) then ok (take n bs, drop n bs) else bad_frame

read_sized : ℕ → Bytes → Decoded (Bytes × Bytes)
read_sized n bs =
    if n == 0 then ok ([], bs) else if ltb cb01_max_string_len n then bad_frame else read_full n bs

pub read_string : Bytes → Decoded (Bytes × Bytes)
read_string bs = do (n, rest) ← or_bad (read_uvarint bs); read_sized n rest

-- `int64(plen)` where only its sign matters: a size of 2^63 or more is negative, and nothing is
-- read for it.
pub signed_size : ℕ → ℕ
signed_size plen = if ltb plen (2 ^ 63) then plen else 0

-- The temporary file of an earlier item: the errno with which it cannot be made, or the payload.
pub spill : Option ℕ → ℕ → Bytes → Decoded (Bytes × Bytes)
spill (some e) n bs = os_error e
spill none n bs = read_full n bs

-- The last payload is read from the wire later: what is there, up to the declared size.
pub read_payload : Bool → Option ℕ → ℕ → Bytes → Decoded (Bytes × Bytes)
read_payload true failure n bs = ok (take n bs, drop n bs)
read_payload false failure n bs = spill failure n bs

pub decode_item : Option ℕ → Bool → Bytes → Decoded (Cb01ItemReader × Bytes)
decode_item failure last_one bs = do
  (kind, bs₁) ← read_byte bs
  (name, bs₂) ← read_string bs₁
  (uti, bs₃) ← read_string bs₂
  (mime, bs₄) ← read_string bs₃
  (plen, bs₅) ← or_bad (read_uvarint bs₄)
  (bytes, bs₆) ← read_payload last_one failure (signed_size plen) bs₅
  ok (
    record {
      kind = kind;
      name = name;
      uti = uti;
      mime = mime;
      payload = some bytes;
      payload_size = plen;
    },
    bs₆,
  )

-- The items left, with the outcome of each spill by the number of items behind it.
pub decode_items : (ℕ → Option ℕ) → ℕ → Bytes → Decoded (List Cb01ItemReader)
decode_items failures zero bs = ok []
decode_items failures (suc n) bs = do
  (it, rest) ← decode_item (failures n) (n == 0) bs
  items ← decode_items failures n rest
  ok (it ∷ items)

-- `max_items` is the largest capacity that `make` can give room to.
pub with_capacity : ℕ → ℕ → Decoded (List Cb01ItemReader) → Decoded (List Cb01ItemReader)
with_capacity max_items count rest = if ltb max_items count then panics else rest

pub check_magic : Bytes → Decoded (Unit {0})
check_magic magic = if bytes_eq magic cb01_magic then ok tt else bad_frame

pub check_count : ℕ → Decoded (Unit {0})
check_count count = if ltb count 1 then bad_frame else ok tt

-- What follows the magic.
pub decode_body : ℕ → (ℕ → Option ℕ) → Bytes → Decoded (ℕ × List Cb01ItemReader)
decode_body max_items failures bs = do
  (channel, bs₁) ← read_byte bs
  (count, bs₂) ← or_bad (read_uvarint bs₁)
  v ← check_count count
  items ← with_capacity max_items count (decode_items failures count bs₂)
  ok (channel, items)

pub decode : ℕ → (ℕ → Option ℕ) → Bytes → Decoded (ℕ × List Cb01ItemReader)
decode max_items failures bs = do
  (magic, bs₁) ← read_full (length cb01_magic) bs
  u ← check_magic magic
  decode_body max_items failures bs₁

pub channel_byte : Bytes → ℕ
channel_byte channel =
    if bytes_eq channel channel_agent then cb01_channel_agent else cb01_channel_clipboard

pub channel_string : ℕ → Bytes
channel_string b = if b == cb01_channel_agent then channel_agent else channel_clipboard

pub kind_byte : Bytes → ℕ
kind_byte kind =
    if bytes_eq kind kind_file
    then cb01_kind_file
    else if bytes_eq kind kind_text
    then cb01_kind_text
    else cb01_kind_image

pub kind_string : ℕ → Bytes
kind_string b =
    if b == cb01_kind_file then kind_file else if b == cb01_kind_text then kind_text else kind_image
