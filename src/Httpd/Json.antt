-- ===== src/Httpd/Json.antt =====
-- internal/httpd/clip.go: the forward JSON helpers. They take the bytes left of the body and return those
-- that they leave.
pub mod Ends
pub mod Reads
use clipbeam_cli.Prelude.{
  ℕ, zero, suc, ◌+◌, ◌-◌, ◌*◌, ◌/◌, ◌%◌, ◌^◌, ◌≤◌, ◌<◌, ◌≡◌, refl, sym, ap, ◌∙◌, ◌≢◌, ◌↔◌, ◌⊎◌, inl,
  inr, Bool, true, false, not, ◌&&◌, ◌||◌, Option, none, some, List, [], ◌∷◌, ◌++◌, map,
  append_assoc, append-nil, arith, ltb, leb, ◌==◌, if◌then◌else◌, between, ==_iff, lt→ltb, ltb→lt,
  ltb→le, leb→le, leb→lt, le→leb, lt→leb-false, le→ltb-false, All-left, All-right, All-map,
  Bool-cases, Option-cases, length, replicate, take, drop, All, last, get_or, length-append,
  length-take, length-drop, take-append-drop, take-length-append, drop-length-append, All-append,
  All-take, All-drop, Bytes, codes, bytes_eq, bytes_eq_refl, bytes_eq_iff, has_prefix,
  has_prefix-append,
}
use clipbeam_cli.Go.Strconv.{ℤ, atoi}
use clipbeam_cli.Httpd.Outcome.{
  ClipError, malformed, incomplete_body, bad_json_string, Outcome, ok, err, spent, ending, ◌>>=◌,
}
use clipbeam_cli.Httpd.JsonString.{read_string}

unfoldable pub is_space : ℕ → Bool
is_space b = b == 32 || b == 9 || b == 10 || b == 13

-- `ReadByte` where each error becomes errIncompleteBody.
unfoldable pub next_byte : Bytes → Outcome ℕ
next_byte [] = err incomplete_body
next_byte (b ∷ s) = ok b s

is_sign_or_digit : ℕ → Bool
is_sign_or_digit b = between b'0' b'9' b || b == b'-' || b == b'+'

-- The rest of a numeric token that is not kept.
skip_fraction : Bytes → Bytes
unfolding is_sign_or_digit
skip_fraction [] = []
skip_fraction (b ∷ s) = let later = skip_fraction s in if is_sign_or_digit b then later else b ∷ s

skip_letters : Bytes → Bytes
skip_letters [] = []
skip_letters (b ∷ s) = let later = skip_letters s in if between b'a' b'z' b then later else b ∷ s

skip_numeric : Bytes → Bytes
unfolding is_sign_or_digit
skip_numeric [] = []
skip_numeric (b ∷ s) =
    let later = skip_numeric s in
    if is_sign_or_digit b || b == b'.' || b == b'e' || b == b'E' then later else b ∷ s

is_literal_start : ℕ → Bool
is_literal_start b = b == b't' || b == b'f' || b == b'n'

finish_number : Option ℤ → Bytes → Outcome ℤ
finish_number none s = err malformed
finish_number (some n) s = ok n s

-- The digits and signs of a number, and what Atoi makes of them.
number_of : Bytes → Bytes → Outcome ℤ
unfolding finish_number
number_of [] s = err malformed
number_of (d ∷ digits) s = finish_number (atoi (d ∷ digits)) s

letters_match : Bytes → Bytes → Outcome Bool
letters_match [] s = ok true s
letters_match (w ∷ want) [] = err malformed
letters_match (w ∷ want) (b ∷ s) =
    let later = letters_match want s in if b == w then later else err malformed

module _ (broken : Option ClipError) where
  pub skip_ws : Bytes → Outcome (Unit {0})
  unfolding is_space
  skip_ws [] = err (ending incomplete_body broken)
  skip_ws (b ∷ s) = let later = skip_ws s in if is_space b then later else ok tt (b ∷ s)

  pub skip_ws_then : ℕ → Bytes → Outcome (Unit {0})
  unfolding skip_ws next_byte
  skip_ws_then want s = do
    (u, s₁) ← skip_ws s
    (b, s₂) ← next_byte s₁
    if b == want then ok tt s₂ else err malformed

  pub read_short_json_string : Bytes → Outcome Bytes
  read_short_json_string s = read_string broken (suc (length s)) s

  pub read_json_string_value : Bytes → Outcome Bytes
  unfolding skip_ws_then read_short_json_string
  read_json_string_value s = do (u, s₁) ← skip_ws_then 34 s; read_short_json_string s₁

  -- `n`, then `ull`; any other byte is left.
  null_or_not : ℕ → Bytes → Outcome Bool
  unfolding letters_match
  null_or_not b s = if b == b'n' then letters_match (codes "ull") s else ok false (b ∷ s)

  pub try_consume_null : Bytes → Outcome Bool
  unfolding skip_ws next_byte null_or_not
  try_consume_null s = do (u, s₁) ← skip_ws s; (b, s₂) ← next_byte s₁; null_or_not b s₂

  string_unless : Bool → Bytes → Outcome (Option Bytes)
  unfolding read_json_string_value
  string_unless true s = ok none s
  string_unless false s = do (v, s₁) ← read_json_string_value s; ok (some v) s₁

  -- `none` is null.
  pub read_json_string_or_null : Bytes → Outcome (Option Bytes)
  unfolding try_consume_null string_unless
  read_json_string_or_null s = do (null, s₁) ← try_consume_null s; string_unless null s₁

  -- The loop of `readJSONNumber`, with the digits and signs so far.
  number_loop : Bytes → Bytes → Outcome ℤ
  unfolding is_sign_or_digit skip_fraction number_of
  number_loop digits [] = elim broken [ none ↦ number_of digits [] | some e ↦ err e ]
  number_loop digits (b ∷ s) =
      let later = number_loop (digits ++ b ∷ []) s in
      if is_sign_or_digit b
      then later
      else if b == b'.' || b == b'e' || b == b'E'
      then number_of digits (skip_fraction s)
      else number_of digits (b ∷ s)

  pub read_json_number : Bytes → Outcome ℤ
  unfolding skip_ws number_loop
  read_json_number s = do (u, s₁) ← skip_ws s; number_loop [] s₁

  -- The members of an object or an array up to its close, where `value` skips a value. Each round takes
  -- a byte off.
  pub skip_container : (Bytes → Outcome (Unit {0})) → ℕ → ℕ → Bytes → Outcome (Unit {0})
  unfolding skip_ws next_byte
  skip_container value zero close s = spent
  skip_container value (suc rounds) close s = do
    (u, s₁) ← skip_ws s
    (b, s₂) ← next_byte s₁
    let again = skip_container value rounds close
    if b == close
        then ok tt s₂
        else if b == b',' || b == b':'
        then again s₂
        else (value (b ∷ s₂) >>= λ r. again r.1)

  drain_string : Bytes → Outcome (Unit {0})
  unfolding read_short_json_string
  drain_string s = do (text, s₁) ← read_short_json_string s; ok tt s₁

  -- The value that starts with `b`.
  value_from : (Bytes → Outcome (Unit {0})) → ℕ → Bytes → Outcome (Unit {0})
  unfolding skip_container drain_string is_literal_start skip_letters skip_numeric
  value_from value b s =
      if b == 34
      then drain_string s
      else if b == b'{'
      then skip_container value (suc (length s)) b'}' s
      else if b == b'['
      then skip_container value (suc (length s)) b']' s
      else if is_literal_start b
      then ok tt (skip_letters s)
      else ok tt (skip_numeric s)

  -- One value; each level of nesting takes one round off. The callers give a round for each byte left, so
  -- the depth is not limited here, where the program ends when the stack of its goroutine is full.
  pub skip_json_value : ℕ → Bytes → Outcome (Unit {0})
  unfolding skip_ws next_byte value_from
  skip_json_value zero s = spent
  skip_json_value (suc depth) s = do
    (u, s₁) ← skip_ws s
    (b, s₂) ← next_byte s₁
    value_from (skip_json_value depth) b s₂
