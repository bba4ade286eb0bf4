-- ===== src/Httpd/Json/Reads.antt =====
-- internal/httpd/clip.go, the forward JSON helpers, on what is written without spaces.
use clipbeam_cli.Prelude.{
  ℕ, suc, ◌<◌, ◌≡◌, refl, ap, ◌∙◌, Bool, true, false, Option, some, [], ◌∷◌, ◌++◌, arith, ◌==◌,
  length, length-append, Bytes,
}
use clipbeam_cli.Go.Strconv.{pos, atoi}
use clipbeam_cli.Httpd.Outcome.{ClipError, Outcome, ok, ◌>>=◌}
use clipbeam_cli.Httpd.JsonString.RoundTrip.{escape_byte, json_string, read_string-json_string}
use clipbeam_cli.Httpd.Json.{
  is_space, next_byte, skip_ws, skip_ws_then, read_short_json_string, read_json_string_value,
  null_or_not, try_consume_null, string_unless, read_json_string_or_null, number_loop, number_of,
  finish_number, is_sign_or_digit, read_json_number,
}

same : (b : ℕ) → (b == b) ≡ true
same b = ground arith

length-escape_byte : (extra : ℕ → Bool) (c : ℕ) → 0 < length (escape_byte extra c)
unfolding escape_byte
length-escape_byte extra c = ground arith

pub length-json_string : (extra : ℕ → Bool) (v : Bytes) → length v < length (json_string extra v)
unfolding json_string
length-json_string extra [] = omega arith
length-json_string extra (c ∷ v) = omega (
  arith,
  length-json_string extra v,
  length-escape_byte extra c,
  length-append (escape_byte extra c) (json_string extra v),
)

module _ (broken : Option ClipError) where
  pub skip_ws_at : (b : ℕ) (s : Bytes) → is_space b ≡ false → skip_ws broken (b ∷ s) ≡ ok tt (b ∷ s)
  unfolding skip_ws
  skip_ws_at b s h = rw (h, skip_ws) refl

  pub next_significant :
      (b : ℕ) (s : Bytes)
      → is_space b ≡ false
      → (skip_ws broken (b ∷ s) >>= λ r. next_byte r.1) ≡ ok b s
  unfolding next_byte
  next_significant b s h = rw (skip_ws_at b s h) refl

  pub skip_ws_then_at :
      (b : ℕ) (s : Bytes) → is_space b ≡ false → skip_ws_then broken b (b ∷ s) ≡ ok tt s
  unfolding skip_ws_then next_byte
  skip_ws_then_at b s h = rw (skip_ws_at b s h) (rw (same b) refl)

module _ (broken : Option ClipError) (extra : ℕ → Bool) where
  pub read_short_json_string-json_string :
      (v t : Bytes) → read_short_json_string broken (json_string extra v ++ t) ≡ ok v t
  unfolding read_short_json_string
  read_short_json_string-json_string v t =
      read_string-json_string broken extra (suc (length (json_string extra v ++ t))) v t
        (omega (arith, length-append (json_string extra v) t, length-json_string extra v))

  pub read_json_string_value-json_string :
      (v t : Bytes) → read_json_string_value broken (34 ∷ (json_string extra v ++ t)) ≡ ok v t
  unfolding read_json_string_value is_space
  read_json_string_value-json_string v t =
      ap (λ (o : Outcome (Unit {0})). o >>= λ r. read_short_json_string broken r.1)
        (skip_ws_then_at broken 34 (json_string extra v ++ t) refl)
      ∙ read_short_json_string-json_string v t

  no_null : (s : Bytes) → try_consume_null broken (34 ∷ s) ≡ ok false (34 ∷ s)
  unfolding try_consume_null null_or_not is_space next_byte
  no_null s =
      ap (λ (o : Outcome (Unit {0})). o >>= λ r. next_byte r.1 >>= λ p. null_or_not broken p.0 p.1)
        (skip_ws_at broken 34 s refl)

  pub read_json_string_or_null-json_string :
      (v t : Bytes)
      → read_json_string_or_null broken (34 ∷ (json_string extra v ++ t)) ≡ ok (some v) t
  unfolding read_json_string_or_null string_unless
  read_json_string_or_null-json_string v t =
      ap (λ (o : Outcome Bool). o >>= λ r. string_unless broken r.0 r.1)
        (no_null (json_string extra v ++ t))
      ∙ ap (λ (o : Outcome Bytes). o >>= λ r. ok (some r.0) r.1)
          (read_json_string_value-json_string v t)

pub read_json_number_one :
    (broken : Option ClipError) (s : Bytes)
    → read_json_number broken (b'1' ∷ (b',' ∷ s)) ≡ ok (pos 1) (b',' ∷ s)
unfolding read_json_number skip_ws is_space number_loop is_sign_or_digit number_of finish_number
    atoi
read_json_number_one broken s = refl
