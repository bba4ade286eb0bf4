-- ===== src/Httpd/Clip/Print.antt =====
-- internal/httpd/clip.go, `parseOneItem`: an item of text as encoding/json writes it, and its parse.
use clipbeam_cli.Prelude.{
  ℕ, suc, ◌-◌, ◌<◌, ◌≡◌, refl, ap, ◌∙◌, Bool, true, false, Option, none, some, [], ◌∷◌, ◌++◌, arith,
  ◌==◌, if◌then◌else◌, length, length-append, Bytes, codes, bytes_eq,
}
use clipbeam_cli.Httpd.Outcome.{ClipError, Outcome, ok, ◌>>=◌}
use clipbeam_cli.Httpd.JsonString.RoundTrip.{json_string}
use clipbeam_cli.Httpd.Json.{next_byte, is_space}
use clipbeam_cli.Httpd.Json.Reads.{
  length-json_string, skip_ws_at, skip_ws_then_at, read_short_json_string-json_string,
  read_json_string_value-json_string, read_json_string_or_null-json_string,
}
use clipbeam_cli.Httpd.Clip.{
  item_body, parse_one_item, ParsedItem, no_item, Scratch, TempFiles, keep, unless_null,
  optional_field, item_field, colon_after, key_after, after_comma, next_key, item_round, item_step,
  item_loop,
}

-- A member of an object, after what separates it from the one before, with what comes behind its value.
unfoldable pub member : (ℕ → Bool) → Bytes → Bytes → Bytes
member extra key value = 34 ∷ (json_string extra key ++ (b':' ∷ value))

unfoldable pub string_member : (ℕ → Bool) → Bytes → Bytes → Bytes → Bytes
unfolding member
string_member extra key v t = member extra key (34 ∷ (json_string extra v ++ t))

-- An item of text, without the fields that are null.
unfoldable pub print_item : (ℕ → Bool) → Bytes → Bytes → Bytes
unfolding string_member
print_item extra text t =
    b'{'
    ∷ string_member extra (codes "kind") (codes "text")
        (b',' ∷ string_member extra (codes "text") text (b'}' ∷ t))

abbrev pub text_item : Bytes → ParsedItem
text_item text = record no_item { kind = codes "text"; text = text }

module _ (broken : Option ClipError) (extra : ℕ → Bool) where
  key_after_member :
      (key t : Bytes) → key_after broken 34 (json_string extra key ++ (b':' ∷ t)) ≡ ok (some key) t
  unfolding key_after colon_after is_space
  key_after_member key t =
      ap (λ (o : Outcome Bytes). o >>= colon_after broken)
        (read_short_json_string-json_string broken extra key (b':' ∷ t))
      ∙ ap (λ (o : Outcome (Unit {0})). o >>= λ r. ok (some key) r.1)
          (skip_ws_then_at broken b':' t refl)

  from_byte : Bool → Outcome (Unit {0}) → Outcome (Option Bytes)
  from_byte first o = o >>= λ r.
      next_byte r.1 >>= λ p. if p.0 == b'}' then ok none p.1 else after_comma broken first p.0 p.1

  pub next_key-first : (key t : Bytes) → next_key broken true (member extra key t) ≡ ok (some key) t
  unfolding next_key member from_byte after_comma is_space next_byte
  next_key-first key t =
      ap (from_byte true) (skip_ws_at broken 34 (json_string extra key ++ (b':' ∷ t)) refl)
      ∙ key_after_member key t

  pub next_key-later :
      (key t : Bytes) → next_key broken false (b',' ∷ member extra key t) ≡ ok (some key) t
  unfolding next_key member from_byte after_comma is_space next_byte
  next_key-later key t =
      ap (from_byte false) (skip_ws_at broken b',' (member extra key t) refl)
      ∙ (ap (λ (o : Outcome (Unit {0})). o >>= λ r. next_byte r.1 >>= λ p. key_after broken p.0 p.1)
            (skip_ws_at broken 34 (json_string extra key ++ (b':' ∷ t)) refl)
          ∙ key_after_member key t)

  pub next_key-close : (first : Bool) (t : Bytes) → next_key broken first (b'}' ∷ t) ≡ ok none t
  unfolding next_key from_byte is_space next_byte
  next_key-close first t = ap (from_byte first) (skip_ws_at broken b'}' t refl)

module _ (broken : Option ClipError) (temps : TempFiles) (extra : ℕ → Bool) where
  item_field-kind :
      (pi : ParsedItem) (v t : Bytes) (st : Scratch)
      → item_field broken temps (codes "kind") pi (34 ∷ (json_string extra v ++ t)) st
        ≡ record { item = record pi { kind = v }; outcome = ok tt t; scratch = st }
  unfolding item_field bytes_eq keep
  item_field-kind pi v t st =
      ap (λ o. keep (λ k. record pi { kind = k }) pi o st)
        (read_json_string_value-json_string broken extra v t)

  item_field-text :
      (pi : ParsedItem) (v t : Bytes) (st : Scratch)
      → item_field broken temps (codes "text") pi (34 ∷ (json_string extra v ++ t)) st
        ≡ record { item = record pi { text = v }; outcome = ok tt t; scratch = st }
  unfolding item_field bytes_eq keep optional_field unless_null
  item_field-text pi v t st =
      ap (λ o. keep (unless_null (λ x. record pi { text = x }) pi) pi o st)
        (read_json_string_or_null-json_string broken extra v t)

  item_loop-text :
      (rounds : ℕ) (text t : Bytes) (st : Scratch)
      → item_loop broken temps
          (suc (suc (suc rounds)))
          true
          no_item
          (string_member extra
            (codes "kind")
            (codes "text")
            (b',' ∷ string_member extra (codes "text") text (b'}' ∷ t)))
          st
        ≡ record { item = text_item text; outcome = ok tt t; scratch = st }
  unfolding item_loop item_step item_round string_member
  item_loop-text rounds text t st =
      ap (item_step broken temps (item_loop broken temps (suc (suc rounds)) false) no_item st)
        (next_key-first broken extra (codes "kind") _)
      ∙ (ap (item_round broken temps (item_loop broken temps (suc (suc rounds)) false))
            (item_field-kind no_item (codes "text") _ st)
          ∙ (ap
                (item_step broken temps (item_loop broken temps (suc rounds) false) (text_item [])
                  st)
                (next_key-later broken extra (codes "text") _)
              ∙ (ap (item_round broken temps (item_loop broken temps (suc rounds) false))
                    (item_field-text (text_item []) text _ st)
                  ∙ ap
                      (item_step broken temps (item_loop broken temps rounds false) (text_item text)
                        st)
                      (next_key-close broken extra false t))))

  members : Bytes → Bytes → Bytes
  members text t =
      string_member extra (codes "kind") (codes "text")
        (b',' ∷ string_member extra (codes "text") text (b'}' ∷ t))

  long_enough : (text t : Bytes) → length (members text t) ≡ suc (suc (length (members text t) - 2))
  unfolding members string_member member
  long_enough text t = omega (
    arith,
    length-append (json_string extra (codes "kind")) (
        b':'
        ∷ 34
        ∷ (json_string extra (codes "text")
            ++ (b',' ∷ string_member extra (codes "text") text (b'}' ∷ t)))),
    length-json_string extra (codes "kind"),
  )

  pub parse_one_item-print_item :
      (text t : Bytes) (st : Scratch)
      → parse_one_item broken temps (print_item extra text t) st
        ≡ record { item = text_item text; outcome = ok tt t; scratch = st }
  unfolding parse_one_item print_item item_body is_space members
  parse_one_item-print_item text t st =
      ap (λ o. item_body broken temps o st) (skip_ws_then_at broken b'{' (members text t) refl)
      ∙ (ap (λ n. item_loop broken temps (suc n) true no_item (members text t) st)
            (long_enough text t)
          ∙ item_loop-text (length (members text t) - 2) text t st)

pub length-string_member :
    (extra : ℕ → Bool) (key v t : Bytes) → length t < length (string_member extra key v t)
unfolding string_member member
length-string_member extra key v t = omega (
  arith,
  length-append (json_string extra key) (b':' ∷ 34 ∷ (json_string extra v ++ t)),
  length-append (json_string extra v) t,
)

pub length-print_item :
    (extra : ℕ → Bool) (text t : Bytes) → length t < length (print_item extra text t)
unfolding print_item
length-print_item extra text t = omega (
  arith,
  length-string_member extra (codes "kind") (codes "text")
      (b',' ∷ string_member extra (codes "text") text (b'}' ∷ t)),
  length-string_member extra (codes "text") text (b'}' ∷ t),
)
