-- ===== src/Httpd/Json/Ends.antt =====
-- internal/httpd/clip.go, the forward JSON helpers: each leaves less of the body than it was given, and
-- the rounds that the model allows are enough.
use clipbeam_cli.Prelude.{
  ℕ, zero, suc, ◌≤◌, ◌<◌, Bool, true, false, ◌||◌, Option, none, some, [], ◌∷◌, ◌++◌, arith, ◌==◌,
  if◌then◌else◌, between, length, Bytes, codes,
}
use clipbeam_cli.Go.Strconv.{ℤ, atoi}
use clipbeam_cli.Httpd.Outcome.{
  ClipError, malformed, Outcome, ok, err, ◌>>=◌, Within, Within-bind, Within-weaken, Within-if,
}
use clipbeam_cli.Httpd.JsonString.Sizes.{read_string-Within}
use clipbeam_cli.Httpd.Json.{
  is_space, next_byte, is_sign_or_digit, skip_fraction, skip_letters, skip_numeric,
  is_literal_start, finish_number, number_of, letters_match, skip_ws, skip_ws_then,
  read_short_json_string, read_json_string_value, null_or_not, try_consume_null, string_unless,
  read_json_string_or_null, number_loop, read_json_number, skip_container, drain_string, value_from,
  skip_json_value,
}

pub next_byte-Within : (s : Bytes) → Within (length s) (next_byte s)
unfolding next_byte
next_byte-Within [] = tt
next_byte-Within (b ∷ s) = omega arith

if_length :
    (b : Bool) (x y : Bytes) (n : ℕ) → length x ≤ n → length y ≤ n → length (if b then x else y) ≤ n
if_length true x y n h k = h
if_length false x y n h k = k

length-skip_fraction : (s : Bytes) → length (skip_fraction s) ≤ length s
unfolding skip_fraction
length-skip_fraction [] = omega arith
length-skip_fraction (b ∷ s) =
    if_length (is_sign_or_digit b) _ _ _ (omega (arith, length-skip_fraction s)) (omega arith)

length-skip_letters : (s : Bytes) → length (skip_letters s) ≤ length s
unfolding skip_letters
length-skip_letters [] = omega arith
length-skip_letters (b ∷ s) =
    if_length (between b'a' b'z' b) _ _ _ (omega (arith, length-skip_letters s)) (omega arith)

length-skip_numeric : (s : Bytes) → length (skip_numeric s) ≤ length s
unfolding skip_numeric
length-skip_numeric [] = omega arith
length-skip_numeric (b ∷ s) =
    if_length (is_sign_or_digit b || b == b'.' || b == b'e' || b == b'E') _ _ (length (b ∷ s))
      (omega (arith, length-skip_numeric s)) (omega arith)

number_of-Within : (digits s : Bytes) → Within (suc (length s)) (number_of digits s)
unfolding number_of finish_number
number_of-Within [] s = tt
number_of-Within (d ∷ digits) s =
    elim (atoi (d ∷ digits)) as (λ o. Within (suc (length s)) (finish_number o s)) [
      | none ↦ tt
      | some n ↦ omega arith
    ]

letters_match-Within : (want s : Bytes) → Within (suc (length s)) (letters_match want s)
unfolding letters_match
letters_match-Within [] s = omega arith
letters_match-Within (w ∷ want) [] = tt
letters_match-Within (w ∷ want) (b ∷ s) =
    Within-if (suc (length (b ∷ s))) (b == w) _ _
      (Within-weaken (suc (length s)) _ (letters_match want s) (omega arith)
        (letters_match-Within want s))
      tt

module _ (broken : Option ClipError) where
  pub skip_ws-Within : (s : Bytes) → Within (suc (length s)) (skip_ws broken s)
  unfolding skip_ws
  skip_ws-Within [] = tt
  skip_ws-Within (b ∷ s) =
      Within-if (suc (length (b ∷ s))) (is_space b) _ _
        (Within-weaken (suc (length s)) _ (skip_ws broken s) (omega arith) (skip_ws-Within s))
        (omega arith)

  -- What reads a byte after the spaces, and goes on.
  pub at_byte-Within {ℓ} :
      {A : Type ℓ} (m : ℕ) (s : Bytes) (k : ℕ → Bytes → Outcome A)
      → ((b : ℕ) (t : Bytes) → length t < length s → Within m (k b t))
      → Within m (skip_ws broken s >>= λ r. next_byte r.1 >>= λ p. k p.0 p.1)
  at_byte-Within m s k h =
      Within-bind (suc (length s)) m (skip_ws broken s) _ (skip_ws-Within s) λ u t lt.
        Within-bind (length s) m (next_byte t) _
          (Within-weaken (length t) (length s) (next_byte t) (omega arith) (next_byte-Within t))
          λ b t' lt'. h b t' lt'

  pub next_significant-Within :
      (s : Bytes) → Within (length s) (skip_ws broken s >>= λ r. next_byte r.1)
  next_significant-Within s =
      Within-bind (suc (length s)) (length s) (skip_ws broken s) _ (skip_ws-Within s) λ u t lt.
        Within-weaken (length t) (length s) (next_byte t) (omega (arith, lt)) (next_byte-Within t)

  pub skip_ws_then-Within : (want : ℕ) (s : Bytes) → Within (length s) (skip_ws_then broken want s)
  unfolding skip_ws_then
  skip_ws_then-Within want s =
      at_byte-Within (length s) s (λ b t. if b == want then ok tt t else err malformed)
        λ b t lt. Within-if (length s) (b == want) (ok tt t) (err malformed) lt tt

  pub read_short_json_string-Within :
      (s : Bytes) → Within (length s) (read_short_json_string broken s)
  unfolding read_short_json_string
  read_short_json_string-Within s = read_string-Within broken (suc (length s)) s (omega arith)

  read_string_by : (n : ℕ) (s : Bytes) → length s < n → Within n (read_short_json_string broken s)
  read_string_by n s lt =
      Within-weaken (length s) n _ (omega (arith, lt)) (read_short_json_string-Within s)

  pub read_json_string_value-Within :
      (s : Bytes) → Within (length s) (read_json_string_value broken s)
  unfolding read_json_string_value
  read_json_string_value-Within s =
      Within-bind (length s) (length s) (skip_ws_then broken 34 s) _ (skip_ws_then-Within 34 s)
        λ u t lt. read_string_by (length s) t lt

  null_or_not-Within : (b : ℕ) (s : Bytes) → Within (suc (suc (length s))) (null_or_not broken b s)
  unfolding null_or_not
  null_or_not-Within b s =
      Within-if (suc (suc (length s))) (b == b'n') _ _
        (Within-weaken (suc (length s)) _ (letters_match (codes "ull") s) (omega arith)
          (letters_match-Within (codes "ull") s))
        (omega arith)

  pub try_consume_null-Within : (s : Bytes) → Within (suc (length s)) (try_consume_null broken s)
  unfolding try_consume_null
  try_consume_null-Within s = at_byte-Within (suc (length s)) s (null_or_not broken) λ b t lt.
      Within-weaken (suc (suc (length t))) (suc (length s)) _ (omega (arith, lt))
        (null_or_not-Within b t)

  string_unless-Within :
      (null : Bool) (s : Bytes) → Within (suc (length s)) (string_unless broken null s)
  unfolding string_unless
  string_unless-Within true s = omega arith
  string_unless-Within false s =
      Within-bind (length s) (suc (length s)) (read_json_string_value broken s) _
        (read_json_string_value-Within s) λ v t lt. omega (arith, lt)

  pub read_json_string_or_null-Within :
      (s : Bytes) → Within (suc (length s)) (read_json_string_or_null broken s)
  unfolding read_json_string_or_null
  read_json_string_or_null-Within s =
      Within-bind (suc (length s)) (suc (length s)) (try_consume_null broken s) _
        (try_consume_null-Within s)
        λ null t lt.
          Within-weaken (suc (length t)) (suc (length s)) (string_unless broken null t)
            (omega (arith, lt)) (string_unless-Within null t)

  number_loop-Within : (digits s : Bytes) → Within (suc (length s)) (number_loop broken digits s)
  unfolding number_loop
  number_loop-Within digits [] =
      elim broken
        as (λ (o : Option ClipError).
          Within 1 (elim o as (λ x. Outcome ℤ) [ none ↦ number_of digits [] | some e ↦ err e ])) [
            | none ↦ number_of-Within digits []
            | some e ↦ tt
          ]
  number_loop-Within digits (b ∷ s) =
      Within-if (suc (length (b ∷ s))) (is_sign_or_digit b) _ _
        (Within-weaken (suc (length s)) _ (number_loop broken (digits ++ b ∷ []) s) (omega arith)
          (number_loop-Within (digits ++ b ∷ []) s))
        (Within-if (suc (length (b ∷ s))) (b == b'.' || b == b'e' || b == b'E') _ _
          (Within-weaken (suc (length (skip_fraction s))) _ (number_of digits (skip_fraction s))
            (omega (arith, length-skip_fraction s)) (number_of-Within digits (skip_fraction s)))
          (number_of-Within digits (b ∷ s)))

  pub read_json_number-Within : (s : Bytes) → Within (suc (length s)) (read_json_number broken s)
  unfolding read_json_number
  read_json_number-Within s =
      Within-bind (suc (length s)) (suc (length s)) (skip_ws broken s) _ (skip_ws-Within s)
        λ u t lt.
          Within-weaken (suc (length t)) (suc (length s)) (number_loop broken [] t)
            (omega (arith, lt)) (number_loop-Within [] t)

  skip_container-Within :
      (value : Bytes → Outcome (Unit {0})) (rounds close : ℕ) (s : Bytes)
      → ((t : Bytes) → length t ≤ length s → Within (length t) (value t))
      → length s < rounds
      → Within (length s) (skip_container broken value rounds close s)
  unfolding skip_container
  skip_container-Within value zero close s h lt = absurd (omega arith)
  skip_container-Within value (suc rounds) close s h lt =
      at_byte-Within (length s) s
        (λ b t.
          if b == close
          then ok tt t
          else if b == b',' || b == b':'
          then skip_container broken value rounds close t
          else (value (b ∷ t) >>= λ r. skip_container broken value rounds close r.1))
        λ b t lt'.
          let after = λ (t' : Bytes) (lt2 : length t' < length s).
            Within-weaken (length t') (length s) (skip_container broken value rounds close t')
              (omega (arith, lt2))
              (skip_container-Within value rounds close t' (λ t2 le. h t2 (omega (arith, le, lt2)))
                (omega (arith, lt, lt2))) in
          Within-if (length s) (b == close) _ _ lt' (
            Within-if (length s) (b == b',' || b == b':') _ _ (after t lt') (
              Within-bind (length s) (length s) (value (b ∷ t)) _
                (Within-weaken (length (b ∷ t)) (length s) (value (b ∷ t)) (omega (arith, lt'))
                  (h (b ∷ t) (omega (arith, lt'))))
                λ u t' lt2. after t' lt2))

  drain_string-Within : (s : Bytes) → Within (length s) (drain_string broken s)
  unfolding drain_string
  drain_string-Within s =
      Within-bind (length s) (length s) (read_short_json_string broken s) _
        (read_short_json_string-Within s) λ v t lt. lt

  value_from-Within :
      (value : Bytes → Outcome (Unit {0})) (b : ℕ) (s : Bytes)
      → ((t : Bytes) → length t ≤ length s → Within (length t) (value t))
      → Within (suc (length s)) (value_from broken value b s)
  unfolding value_from
  value_from-Within value b s h =
      Within-if (suc (length s)) (b == 34) _ _
        (grown (drain_string broken s) (drain_string-Within s))
        (Within-if (suc (length s)) (b == b'{') _ _
          (grown _ (skip_container-Within value (suc (length s)) b'}' s h (omega arith)))
          (Within-if (suc (length s)) (b == b'[') _ _
            (grown _ (skip_container-Within value (suc (length s)) b']' s h (omega arith)))
            (Within-if (suc (length s)) (is_literal_start b) _ _
              (omega (arith, length-skip_letters s)) (omega (arith, length-skip_numeric s)))))
    where
      grown : (o : Outcome (Unit {0})) → Within (length s) o → Within (suc (length s)) o
      grown o = Within-weaken (length s) (suc (length s)) o (omega arith)

  -- A value is skipped, or refused, in as many levels of nesting as the bytes left and one more, and takes
  -- a byte at least.
  pub skip_json_value-Within :
      (depth : ℕ) (s : Bytes)
      → length s < depth
      → Within (length s) (skip_json_value broken depth s)
  unfolding skip_json_value
  skip_json_value-Within zero s lt = absurd (omega arith)
  skip_json_value-Within (suc depth) s lt =
      at_byte-Within (length s) s (value_from broken (skip_json_value broken depth)) λ b t lt'.
        Within-weaken (suc (length t)) (length s)
          (value_from broken (skip_json_value broken depth) b t) (omega (arith, lt'))
          (value_from-Within (skip_json_value broken depth) b t
            (λ t' le. skip_json_value-Within depth t' (omega (arith, le, lt, lt'))))
