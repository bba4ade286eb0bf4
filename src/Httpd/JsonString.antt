-- ===== src/Httpd/JsonString.antt =====
-- internal/httpd/jsonstream.go: the bytes of one JSON string, without its escapes, as a stream.
pub mod Sizes
pub mod Windows
pub mod RoundTrip
pub mod Units
use clipbeam_cli.Prelude.{
  ℕ, zero, suc, ◌+◌, ◌-◌, ◌*◌, ◌/◌, ◌%◌, ◌^◌, ◌≤◌, ◌<◌, ◌≡◌, refl, sym, ap, ◌∙◌, ◌≢◌, ◌↔◌, ◌⊎◌, inl,
  inr, Bool, true, false, not, ◌&&◌, ◌||◌, Option, none, some, List, [], ◌∷◌, ◌++◌, map,
  append_assoc, append-nil, arith, ltb, leb, ◌==◌, if◌then◌else◌, between, ==_iff, lt→ltb, ltb→lt,
  ltb→le, leb→le, leb→lt, le→leb, lt→leb-false, le→ltb-false, All-left, All-right, All-map,
  Bool-cases, Option-cases, length, replicate, take, drop, All, last, get_or, length-append,
  length-take, length-drop, take-append-drop, take-length-append, drop-length-append, All-append,
  All-take, All-drop, Bytes, codes, bytes_eq, bytes_eq_refl, bytes_eq_iff, has_prefix,
  has_prefix-append,
}
use clipbeam_cli.Go.Strings.{is_empty}
use clipbeam_cli.Httpd.Outcome.{ClipError, bad_json_string, Outcome, ok, err, spent, ending}

-- `none` is errBadJSONString.
infixl 5 ◌>>=◌
abbrev ◌>>=◌ {ℓ κ} : {A : Type ℓ} {B : Type κ} → Option A → (A → Option B) → Option B
none >>= f = none
some a >>= f = f a

pub hex_value : ℕ → Option ℕ
hex_value b =
    if between b'0' b'9' b
    then some (b - b'0')
    else if between b'a' b'f' b
    then some (b - b'a' + 10)
    else if between b'A' b'F' b
    then some (b - b'A' + 10)
    else none

-- The digits of `readHex4`, with the value so far.
pub read_hex : ℕ → ℕ → Bytes → Option (ℕ × Bytes)
read_hex zero v s = some (v, s)
read_hex (suc n) v [] = none
read_hex (suc n) v (b ∷ s) = do d ← hex_value b; read_hex n (v * 16 + d) s

pub encode_rune : ℕ → Bytes
encode_rune cp =
    if ltb cp 0x80
    then cp ∷ []
    else if ltb cp 0x800
    then (0xC0 + cp / 64) ∷ ((0x80 + cp % 64) ∷ [])
    else if ltb cp 0x10000
    then (0xE0 + cp / 4096) ∷ ((0x80 + cp / 64 % 64) ∷ ((0x80 + cp % 64) ∷ []))
    else (0xF0 + cp / 262144)
      ∷ ((0x80 + cp / 4096 % 64) ∷ ((0x80 + cp / 64 % 64) ∷ ((0x80 + cp % 64) ∷ [])))

expect : ℕ → Bytes → Option Bytes
expect want [] = none
expect want (b ∷ s) = if b == want then some s else none

pair : ℕ → ℕ → Bytes → Option (Bytes × Bytes)
pair r₁ r₂ s =
    if ltb r₂ 0xDC00 || ltb 0xDFFF r₂
    then none
    else some (encode_rune (0x10000 + (r₁ - 0xD800) * 1024 + (r₂ - 0xDC00)), s)

-- The low half of a surrogate pair.
low_surrogate : ℕ → Bytes → Option (Bytes × Bytes)
unfolding expect pair
low_surrogate r₁ s = do
  s₁ ← expect 92 s
  s₂ ← expect b'u' s₁
  (r₂, s₃) ← read_hex 4 0 s₂
  pair r₁ r₂ s₃

pub unicode_escape : ℕ × Bytes → Option (Bytes × Bytes)
unfolding low_surrogate
unicode_escape (r₁, s) =
    if between 0xD800 0xDBFF r₁
    then low_surrogate r₁ s
    else if between 0xDC00 0xDFFF r₁
    then none
    else some (encode_rune r₁, s)

read_unicode_escape : Bytes → Option (Bytes × Bytes)
read_unicode_escape s = do r ← read_hex 4 0 s; unicode_escape r

one : ℕ → Bytes → Option (Bytes × Bytes)
one c s = some (c ∷ [], s)

pub read_escape : Bytes → Option (Bytes × Bytes)
unfolding one read_unicode_escape
read_escape [] = none
read_escape (c ∷ s) =
    if c == 34
    then one 34 s
    else if c == 92
    then one 92 s
    else if c == b'/'
    then one b'/' s
    else if c == b'b'
    then one 8 s
    else if c == b'f'
    then one 12 s
    else if c == b'n'
    then one 10 s
    else if c == b'r'
    then one 13 s
    else if c == b't'
    then one 9 s
    else if c == b'u'
    then read_unicode_escape s
    else none

-- One round of `Read`: the closing quote, some bytes, or an error.
pub data Piece : Type 0 where
  closed : Bytes → Piece
  emitted : Bytes → Bytes → Piece
  failed : ClipError → Piece

escaped : Option (Bytes × Bytes) → Piece
escaped none = failed bad_json_string
escaped (some (out, s)) = emitted out s

-- Bytes in front of what is read later.
pub prefixed : Bytes → Outcome Bytes → Outcome Bytes
prefixed out (ok text rest) = ok (out ++ text) rest
prefixed out (err e) = err e
prefixed out spent = spent

module _ (broken : Option ClipError) where
  pub next_unit : Bytes → Piece
  unfolding escaped
  next_unit [] = failed (ending bad_json_string broken)
  next_unit (b ∷ s) =
      if b == 34 then closed s else if b == 92 then escaped (read_escape s) else emitted (b ∷ []) s

  -- The whole string, as io.ReadAll gathers it.
  pub read_rest : (Bytes → Outcome Bytes) → Piece → Outcome Bytes
  read_rest more (closed s) = ok [] s
  read_rest more (failed e) = err e
  read_rest more (emitted out s) = prefixed out (more s)

  pub read_string : ℕ → Bytes → Outcome Bytes
  read_string zero s = spent
  read_string (suc fuel) s = read_rest (read_string fuel) (next_unit s)

-- The reader between two calls of `Read`.
pub record StringReader : Type 0 where
  pub pending : Bytes
  pub finished : Bool
  pub rest : Bytes

-- What one `Read` returns besides its bytes: no error, io.EOF, or another error.
pub data Status : Type 0 where
  more : Status
  eof : Status
  error : ClipError → Status

pub record Window : Type 0 where
  pub bytes : Bytes
  pub status : Status
  pub reader : StringReader

-- Bytes that this call has put already.
pub put : Bytes → Window → Window
put out w = record w { bytes = out ++ w.bytes }

-- The closing quote: io.EOF only where nothing was put.
at_close : Bool → Bytes → Window
at_close some_put s = record {
  bytes = [];
  status = if some_put then more else eof;
  reader = record { pending = []; finished = true; rest = s };
}

module _ (broken : Option ClipError) where
  -- The loop, with the room left and whether a byte was put. Each round puts one byte at least, so
  -- the first argument, the room at the start, is enough rounds.
  pub fill_with : (ℕ → Bool → Bytes → Window) → ℕ → Bool → Bytes → Piece → Window
  unfolding at_close
  fill_with more_of room some_put s (closed s') = at_close some_put s'
  fill_with more_of room some_put s (failed e) = record {
    bytes = [];
    status = error e;
    reader = record { pending = []; finished = false; rest = s };
  }
  fill_with more_of room some_put s (emitted out s') = elim (leb (length out) room) [
    | true ↦ put out (more_of (room - length out) true s')
    | false ↦ record {
      bytes = take room out;
      status = more;
      reader = record { pending = drop room out; finished = false; rest = s' };
    }
  ]

  pub fill : ℕ → ℕ → Bool → Bytes → Window
  fill zero room some_put s = record {
    bytes = [];
    status = more;
    reader = record { pending = []; finished = false; rest = s };
  }
  fill (suc rounds) room some_put s =
      if room == 0
      then record {
        bytes = [];
        status = more;
        reader = record { pending = []; finished = false; rest = s };
      }
      else fill_with (fill rounds) room some_put s (next_unit broken s)

  -- `Read` into a buffer of `room` bytes.
  pub read_window : ℕ → StringReader → Window
  read_window room r =
      if room == 0
      then record { bytes = []; status = more; reader = r }
      else if leb room (length r.pending)
      then record {
        bytes = take room r.pending;
        status = more;
        reader = record r { pending = drop room r.pending };
      }
      else if r.finished
      then record {
        bytes = r.pending;
        status = if is_empty r.pending then eof else more;
        reader = record r { pending = [] };
      }
      else put r.pending (fill room (room - length r.pending) (not (is_empty r.pending)) r.rest)

  -- A loop that reads until io.EOF, as io.ReadAll does, into buffers of the given sizes.
  pub after_read : (StringReader → Outcome Bytes) → Bytes → StringReader → Status → Outcome Bytes
  after_read next bytes r more = prefixed bytes (next r)
  after_read next bytes r eof = ok bytes r.rest
  after_read next bytes r (error e) = err e

  pub read_all : (ℕ → ℕ) → ℕ → StringReader → Outcome Bytes
  read_all rooms zero r = spent
  read_all rooms (suc fuel) r =
      let w = read_window (rooms fuel) r in
      after_read (read_all rooms fuel) w.bytes w.reader w.status
