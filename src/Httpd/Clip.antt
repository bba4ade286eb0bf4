-- ===== src/Httpd/Clip.antt =====
-- internal/httpd/clip.go: one item of the envelope, with the temporary files that its payload is decoded into.
pub mod Ends
pub mod Temps
pub mod Print
use clipbeam_cli.Prelude.{
  ℕ, zero, suc, ◌+◌, ◌-◌, ◌*◌, ◌/◌, ◌%◌, ◌^◌, ◌≤◌, ◌<◌, ◌≡◌, refl, sym, ap, ◌∙◌, ◌≢◌, ◌↔◌, ◌⊎◌, inl,
  inr, Bool, true, false, not, ◌&&◌, ◌||◌, Option, none, some, List, [], ◌∷◌, ◌++◌, map,
  append_assoc, append-nil, arith, ltb, leb, ◌==◌, if◌then◌else◌, between, ==_iff, lt→ltb, ltb→lt,
  ltb→le, leb→le, leb→lt, le→leb, lt→leb-false, le→ltb-false, All-left, All-right, All-map,
  Bool-cases, Option-cases, length, replicate, take, drop, All, last, get_or, length-append,
  length-take, length-drop, take-append-drop, take-length-append, drop-length-append, All-append,
  All-take, All-drop, Bytes, codes, bytes_eq, bytes_eq_refl, bytes_eq_iff, has_prefix,
  has_prefix-append,
}
use clipbeam_cli.Go.Strings.{is_empty}
use clipbeam_cli.Disk.{Disk, Node, file, put}
use clipbeam_cli.Store.{Fault, smooth, open_fails, write_fails, close_fails}
use clipbeam_cli.Httpd.Outcome.{
  ClipError, malformed, incomplete_body, bad_json_string, io_error, Outcome, ok, err, spent, ◌>>=◌,
}
use clipbeam_cli.Httpd.JsonString.{Piece, closed, emitted, failed, next_unit, read_string}
use clipbeam_cli.Httpd.Json.{
  next_byte, skip_ws, skip_ws_then, read_short_json_string, read_json_string_value,
  try_consume_null, read_json_string_or_null, skip_json_value,
}

pub record ParsedItem : Type 0 where
  pub kind : Bytes
  pub name : Bytes
  pub uti : Bytes
  pub mime : Bytes
  pub text : Bytes
  pub tmp_path : Bytes

abbrev pub no_item : ParsedItem
no_item = record { kind = []; name = []; uti = []; mime = []; text = []; tmp_path = [] }

-- The disk, and how many temporary files have been made.
pub record Scratch : Type 0 where
  pub disk : Disk
  pub made : ℕ

-- What base64.NewDecoder gives: the bytes, and CorruptInputError or the error it stops at.
pub data Decoding : Type 0 where
  complete : Bytes → Decoding
  corrupt : Bytes → Decoding
  stopped : Bytes → ClipError → Decoding

-- encoding/base64 on a text that ends with io.EOF or an error, the path of the n-th file that
-- os.CreateTemp makes, and the first call on that file which fails. The errors of the directory and of
-- the creation are `open_fails`.
pub record TempFiles : Type 0 where
  pub decode : Bytes → Option ClipError → Decoding
  pub path : ℕ → Bytes
  pub fault : ℕ → Fault

-- An item as it is at the return, with the bytes left or the error.
pub record Field : Type 0 where
  pub item : ParsedItem
  pub outcome : Outcome (Unit {0})
  pub scratch : Scratch

-- A decoding error is a 400, unless the reader's own error is another.
as_malformed : ClipError → ClipError
as_malformed bad_json_string = malformed
as_malformed e = e

-- What reaches the file, and how the copy and the close end.
settle_stream : Fault → Decoding → Bytes → Bytes × Outcome (Unit {0})
unfolding as_malformed
settle_stream (write_fails n e) (complete bytes) s = (take n bytes, err (io_error e))
settle_stream (write_fails n e) (corrupt bytes) s = (take n bytes, err (io_error e))
settle_stream (write_fails n e) (stopped bytes x) s = (take n bytes, err (io_error e))
settle_stream (close_fails e) (complete bytes) s = (bytes, err (io_error e))
settle_stream fault (complete bytes) s = (bytes, ok tt s)
settle_stream fault (corrupt bytes) s = (bytes, err malformed)
settle_stream fault (stopped bytes x) s = (bytes, err (as_malformed x))

with_file : Bytes → Scratch → Bytes × Outcome (Unit {0}) → Bytes × (Outcome (Unit {0}) × Scratch)
with_file path st (bytes, o) =
    (path, (o, record { disk = put path (file bytes) st.disk; made = suc st.made }))

-- A value that is kept in the item.
pub keep {ℓ} : {A : Type ℓ} → (A → ParsedItem) → ParsedItem → Outcome A → Scratch → Field
keep set pi (ok v rest) st = record { item = set v; outcome = ok tt rest; scratch = st }
keep set pi (err e) st = record { item = pi; outcome = err e; scratch = st }
keep set pi spent st = record { item = pi; outcome = spent; scratch = st }

-- Null leaves the field as it is.
unless_null : (Bytes → ParsedItem) → ParsedItem → Option Bytes → ParsedItem
unless_null set pi none = pi
unless_null set pi (some v) = set v

module _ (broken : Option ClipError) where
  colon_after : Bytes × Bytes → Outcome (Option Bytes)
  colon_after (key, s) = do (u, s₁) ← skip_ws_then broken b':' s; ok (some key) s₁

  -- The quote that opens a key, which `b` is to be; the key, and the colon.
  key_after : ℕ → Bytes → Outcome (Option Bytes)
  key_after b s = if b == 34 then read_short_json_string broken s >>= colon_after else err malformed

  -- `b` is the comma before every key but the first.
  after_comma : Bool → ℕ → Bytes → Outcome (Option Bytes)
  unfolding key_after
  after_comma true b s = key_after b s
  after_comma false b s =
      if b == b','
      then (skip_ws broken s >>= λ r. next_byte r.1 >>= λ p. key_after p.0 p.1)
      else err malformed

  -- The next key of an object with its colon, or `none` at the closing brace. The envelope and the items have
  -- the same lines for it.
  pub next_key : Bool → Bytes → Outcome (Option Bytes)
  unfolding after_comma
  next_key first s = do
    (u, s₁) ← skip_ws broken s
    (b, s₂) ← next_byte s₁
    if b == b'}' then ok none s₂ else after_comma first b s₂

module _ (broken : Option ClipError) (temps : TempFiles) where
  text_rest : (Bytes → Bytes) → Piece → Bytes
  text_rest more (closed s) = []
  text_rest more (failed e) = []
  text_rest more (emitted out s) = out ++ more s

  -- The bytes of a string up to its end or its error.
  text_before : ℕ → Bytes → Bytes
  unfolding text_rest
  text_before zero s = []
  text_before (suc fuel) s = text_rest (text_before fuel) (next_unit broken s)

  decode_all : Bytes → Fault → Outcome Bytes → Bytes × Outcome (Unit {0})
  unfolding settle_stream text_before
  decode_all s fault (ok text rest) = settle_stream fault (temps.decode text none) rest
  decode_all s fault (err e) =
      settle_stream fault (temps.decode (text_before (suc (length s)) s) (some e)) []
  decode_all s fault spent = ([], spent)

  -- The path, which is empty where no file was made.
  stream_to : Fault → Bytes → Scratch → Bytes × (Outcome (Unit {0}) × Scratch)
  unfolding with_file decode_all
  stream_to (open_fails e) s st = ([], (err (io_error e), st))
  stream_to fault s st =
      with_file (temps.path st.made) st (decode_all s fault (read_short_json_string broken s))

  pub stream_base64_to_temp : Bytes → Scratch → Bytes × (Outcome (Unit {0}) × Scratch)
  unfolding stream_to
  stream_base64_to_temp s st = stream_to (temps.fault st.made) s st

  with_path : ParsedItem → Bytes × (Outcome (Unit {0}) × Scratch) → Field
  with_path pi (path, (o, st)) = record {
    item = record pi { tmp_path = path };
    outcome = o;
    scratch = st;
  }

  opened_payload : ParsedItem → Outcome (Unit {0}) → Scratch → Field
  unfolding with_path stream_base64_to_temp
  opened_payload pi (ok u s) st = with_path pi (stream_base64_to_temp s st)
  opened_payload pi (err e) st = record { item = pi; outcome = err e; scratch = st }
  opened_payload pi spent st = record { item = pi; outcome = spent; scratch = st }

  payload_field : ParsedItem → Outcome Bool → Scratch → Field
  unfolding opened_payload
  payload_field pi (ok true s) st = record { item = pi; outcome = ok tt s; scratch = st }
  payload_field pi (ok false s) st = opened_payload pi (skip_ws_then broken 34 s) st
  payload_field pi (err e) st = record { item = pi; outcome = err e; scratch = st }
  payload_field pi spent st = record { item = pi; outcome = spent; scratch = st }

  optional_field : (Bytes → ParsedItem) → ParsedItem → Bytes → Scratch → Field
  unfolding keep unless_null
  optional_field set pi s st = keep (unless_null set pi) pi (read_json_string_or_null broken s) st

  -- The value of one key.
  pub item_field : Bytes → ParsedItem → Bytes → Scratch → Field
  unfolding keep optional_field payload_field
  item_field key pi s st =
      if bytes_eq key (codes "kind")
      then keep (λ v. record pi { kind = v }) pi (read_json_string_value broken s) st
      else if bytes_eq key (codes "name")
      then optional_field (λ v. record pi { name = v }) pi s st
      else if bytes_eq key (codes "uti")
      then optional_field (λ v. record pi { uti = v }) pi s st
      else if bytes_eq key (codes "mime")
      then optional_field (λ v. record pi { mime = v }) pi s st
      else if bytes_eq key (codes "text")
      then optional_field (λ v. record pi { text = v }) pi s st
      else if bytes_eq key (codes "bytesB64")
      then payload_field pi (try_consume_null broken s) st
      else keep (λ u. pi) pi (skip_json_value broken (suc (length s)) s) st

  -- A round of `parseOneItem`, where `field` takes the rest of the item.
  pub item_round : (ParsedItem → Bytes → Scratch → Field) → Field → Field
  item_round later f = elim f.outcome [
    | ok u rest ↦ later f.item rest f.scratch
    | err e ↦ f
    | spent ↦ f
  ]

  pub item_step :
      (ParsedItem → Bytes → Scratch → Field) → ParsedItem → Scratch → Outcome (Option Bytes) → Field
  unfolding item_field item_round
  item_step later pi st (ok none rest) = record { item = pi; outcome = ok tt rest; scratch = st }
  item_step later pi st (ok (some key) rest) = item_round later (item_field key pi rest st)
  item_step later pi st (err e) = record { item = pi; outcome = err e; scratch = st }
  item_step later pi st spent = record { item = pi; outcome = spent; scratch = st }

  -- Each round takes bytes off.
  pub item_loop : ℕ → Bool → ParsedItem → Bytes → Scratch → Field
  unfolding item_step next_key
  item_loop zero first pi s st = record { item = pi; outcome = spent; scratch = st }
  item_loop (suc rounds) first pi s st =
      item_step (item_loop rounds false) pi st (next_key broken first s)

  item_body : Outcome (Unit {0}) → Scratch → Field
  unfolding item_loop
  item_body (ok u s) st = item_loop (suc (length s)) true no_item s st
  item_body (err e) st = record { item = no_item; outcome = err e; scratch = st }
  item_body spent st = record { item = no_item; outcome = spent; scratch = st }

  pub parse_one_item : Bytes → Scratch → Field
  unfolding item_body
  parse_one_item s st = item_body (skip_ws_then broken b'{' s) st
