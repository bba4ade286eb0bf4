-- ===== src/Httpd/Envelope/Print.antt =====
-- internal/httpd/clip.go, `parseEnvelopeStreaming`: an envelope of texts as encoding/json writes it
-- (strings of valid UTF-8 without U+2028 and U+2029), and its parse.
use clipbeam_cli.Prelude.{
  ℕ, zero, suc, ◌-◌, ◌≤◌, ◌<◌, ◌≡◌, refl, ap, ◌∙◌, Bool, true, false, Option, List, [], ◌∷◌, ◌++◌,
  map, append_assoc, arith, length, length-append, Bytes, codes, bytes_eq,
}
use clipbeam_cli.Go.Strings.{is_empty}
use clipbeam_cli.Go.Strconv.{pos}
use clipbeam_cli.Httpd.Outcome.{ClipError, Outcome, ok, ◌>>=◌}
use clipbeam_cli.Httpd.JsonString.RoundTrip.{json_string}
use clipbeam_cli.Httpd.Json.{next_byte, is_space, skip_ws}
use clipbeam_cli.Httpd.Json.Reads.{
  next_significant, skip_ws_then_at, read_json_string_value-json_string,
  read_json_string_or_null-json_string, read_json_number_one,
}
use clipbeam_cli.Httpd.Clip.{ParsedItem, Scratch, TempFiles}
use clipbeam_cli.Httpd.Clip.Print.{
  member, string_member, print_item, text_item, next_key-first, next_key-later, next_key-close,
  parse_one_item-print_item, length-print_item,
}
use clipbeam_cli.Httpd.Envelope.{
  envelope_body, parse_envelope_streaming, Items, Envelope, no_envelope, add_path, keep,
  channel_unless_null, items_next, items_after, items_step, items_loop, items_body,
  parse_items_streaming, items_field, envelope_field, envelope_round, envelope_step, envelope_loop,
}

-- The items after the first, and the closing bracket.
print_rest : (ℕ → Bool) → List Bytes → Bytes → Bytes
print_rest extra [] t = b']' ∷ t
print_rest extra (x ∷ xs) t = b',' ∷ print_item extra x (print_rest extra xs t)

-- One text at least.
print_items : (ℕ → Bool) → Bytes → List Bytes → Bytes → Bytes
print_items extra x xs t = b'[' ∷ print_item extra x (print_rest extra xs t)

-- The members of an envelope of some texts, in the order of the fields of wire.Envelope.
members : (ℕ → Bool) → Bytes → Bytes → List Bytes → Bytes → Bytes → Bytes
members extra sender x xs channel t = member extra (codes "version") (
    b'1'
    ∷ b','
    ∷ string_member extra (codes "sender") sender (
        b','
        ∷ member extra (codes "items") (
            print_items extra x xs
              (b',' ∷ string_member extra (codes "channel") channel (b'}' ∷ t)))))

pub print_envelope : (ℕ → Bool) → Bytes → Bytes → List Bytes → Bytes → Bytes → Bytes
unfolding members
print_envelope extra sender x xs channel t = b'{' ∷ members extra sender x xs channel t

length-members :
    (extra : ℕ → Bool) (sender x : Bytes) (xs : List Bytes) (channel t : Bytes)
    → 4 ≤ length (members extra sender x xs channel t)
unfolding members member
length-members extra sender x xs channel t = omega (
  arith,
  length-append (json_string extra (codes "version")) (
      b':'
      ∷ b'1'
      ∷ b','
      ∷ string_member extra (codes "sender") sender (
          b','
          ∷ member extra (codes "items") (
              print_items extra x xs
                (b',' ∷ string_member extra (codes "channel") channel (b'}' ∷ t))))),
)

length-print_rest :
    (extra : ℕ → Bool) (xs : List Bytes) (t : Bytes) → length xs < length (print_rest extra xs t)
unfolding print_rest
length-print_rest extra [] t = omega arith
length-print_rest extra (x ∷ xs) t =
    omega (arith, length-print_rest extra xs t, length-print_item extra x (print_rest extra xs t))

module _ (broken : Option ClipError) (temps : TempFiles) (extra : ℕ → Bool) where
  listed : List ParsedItem → List Bytes → Bytes → Scratch → Items
  listed items tmps t st = record { items = items; tmps = tmps; outcome = ok tt t; scratch = st }

  items_loop-print_item :
      (rounds : ℕ) (acc : List ParsedItem) (tmps : List Bytes) (x : Bytes) (xs : List Bytes)
      (t : Bytes) (st : Scratch)
      → length xs ≤ rounds
      → items_loop broken temps
          (suc rounds)
          acc
          tmps
          (print_item extra x (print_rest extra xs t))
          st
        ≡ listed (acc ++ map text_item (x ∷ xs)) tmps t st
  unfolding items_loop items_step items_after items_next listed print_rest add_path is_empty
      is_space
  items_loop-print_item rounds acc tmps x [] t st le =
      ap (items_step broken temps (items_loop broken temps rounds) acc tmps)
        (parse_one_item-print_item broken temps extra x (b']' ∷ t) st)
      ∙ ap
          (items_after broken temps (items_loop broken temps rounds (acc ++ text_item x ∷ []) tmps)
            (listed (acc ++ text_item x ∷ []) tmps (b']' ∷ t) st))
          (next_significant broken b']' t refl)
  items_loop-print_item zero acc tmps x (y ∷ ys) t st le = absurd (omega arith)
  items_loop-print_item (suc rounds) acc tmps x (y ∷ ys) t st le =
      ap (items_step broken temps (items_loop broken temps (suc rounds)) acc tmps)
        (parse_one_item-print_item broken temps extra x (print_rest extra (y ∷ ys) t) st)
      ∙ (ap
            (items_after broken temps
              (items_loop broken temps (suc rounds) (acc ++ text_item x ∷ []) tmps)
              (listed (acc ++ text_item x ∷ []) tmps (print_rest extra (y ∷ ys) t) st))
            (next_significant broken b',' (print_item extra y (print_rest extra ys t)) refl)
          ∙ (items_loop-print_item rounds (acc ++ text_item x ∷ []) tmps y ys t st
                (omega (arith, le))
              ∙ ap (λ items. listed items tmps t st)
                  (append_assoc acc (text_item x ∷ []) (map text_item (y ∷ ys)))))

  item_tail : Bytes → List Bytes → Bytes → Bytes
  item_tail x xs t =
      string_member extra (codes "kind") (codes "text")
        (b',' ∷ string_member extra (codes "text") x (b'}' ∷ print_rest extra xs t))

  enough_rounds :
      (x : Bytes) (xs : List Bytes) (t : Bytes) → length xs ≤ suc (length (item_tail x xs t))
  unfolding item_tail print_item
  enough_rounds x xs t =
      omega (arith, length-print_rest extra xs t, length-print_item extra x (print_rest extra xs t))

  parse_items_streaming-print_items :
      (x : Bytes) (xs : List Bytes) (t : Bytes) (st : Scratch)
      → parse_items_streaming broken temps (print_items extra x xs t) st
        ≡ listed (map text_item (x ∷ xs)) [] t st
  unfolding parse_items_streaming print_items print_item items_body is_space next_byte item_tail
  parse_items_streaming-print_items x xs t st =
      ap
        (λ (o : Outcome (Unit {0})).
          items_body broken temps st (o >>= λ r. skip_ws broken r.1 >>= λ p. next_byte p.1))
        (skip_ws_then_at broken b'[' (print_item extra x (print_rest extra xs t)) refl)
      ∙ (ap (items_body broken temps st) (next_significant broken b'{' (item_tail x xs t) refl)
          ∙ items_loop-print_item (suc (length (item_tail x xs t))) [] [] x xs t st
              (enough_rounds x xs t))

  sent : List ParsedItem → Bytes → Envelope
  sent items channel = record { version = pos 1; channel = channel; items = items; tmps = [] }

  field_version :
      (s : Bytes) (st : Scratch)
      → envelope_field broken temps (codes "version") no_envelope (b'1' ∷ b',' ∷ s) st
        ≡ record { envelope = sent [] []; outcome = ok tt (b',' ∷ s); scratch = st }
  unfolding envelope_field bytes_eq keep sent
  field_version s st =
      ap (λ o. keep (λ n. record no_envelope { version = n }) no_envelope o st)
        (read_json_number_one broken s)

  field_sender :
      (env : Envelope) (v t : Bytes) (st : Scratch)
      → envelope_field broken temps (codes "sender") env (34 ∷ (json_string extra v ++ t)) st
        ≡ record { envelope = env; outcome = ok tt t; scratch = st }
  unfolding envelope_field bytes_eq keep
  field_sender env v t st =
      ap (λ o. keep (λ x. env) env o st) (read_json_string_value-json_string broken extra v t)

  field_items :
      (x : Bytes) (xs : List Bytes) (t : Bytes) (st : Scratch)
      → envelope_field broken temps (codes "items") (sent [] []) (print_items extra x xs t) st
        ≡ record { envelope = sent (map text_item (x ∷ xs)) []; outcome = ok tt t; scratch = st }
  unfolding envelope_field bytes_eq items_field sent listed
  field_items x xs t st =
      ap (items_field broken temps (sent [] [])) (parse_items_streaming-print_items x xs t st)

  field_channel :
      (items : List ParsedItem) (v t : Bytes) (st : Scratch)
      → envelope_field broken temps
          (codes "channel")
          (sent items [])
          (34 ∷ (json_string extra v ++ t))
          st
        ≡ record { envelope = sent items v; outcome = ok tt t; scratch = st }
  unfolding envelope_field bytes_eq keep channel_unless_null sent
  field_channel items v t st =
      ap (λ o. keep (channel_unless_null (sent items [])) (sent items []) o st)
        (read_json_string_or_null-json_string broken extra v t)

  envelope_loop-members :
      (rounds : ℕ) (sender x : Bytes) (xs : List Bytes) (channel t : Bytes) (st : Scratch)
      → envelope_loop broken temps
          (suc (suc (suc (suc (suc rounds)))))
          true
          no_envelope
          (members extra sender x xs channel t)
          st
        ≡ record {
          envelope = sent (map text_item (x ∷ xs)) channel;
          outcome = ok tt t;
          scratch = st;
        }
  unfolding envelope_loop envelope_step envelope_round members sent string_member
  envelope_loop-members rounds sender x xs channel t st =
      let loop = envelope_loop broken temps in
      let start : Envelope = record { version = pos 1; channel = []; items = []; tmps = [] } in
      let items = map text_item (x ∷ xs) in
      ap (envelope_step broken temps (loop (suc (suc (suc (suc rounds)))) false) no_envelope st)
        (next_key-first broken extra (codes "version") _)
      ∙ (ap (envelope_round broken temps (loop (suc (suc (suc (suc rounds)))) false))
            (field_version _ st)
          ∙ (ap (envelope_step broken temps (loop (suc (suc (suc rounds))) false) start st)
                (next_key-later broken extra (codes "sender") _)
              ∙ (ap (envelope_round broken temps (loop (suc (suc (suc rounds))) false))
                    (field_sender start sender _ st)
                  ∙ (ap (envelope_step broken temps (loop (suc (suc rounds)) false) start st)
                        (next_key-later broken extra (codes "items") _)
                      ∙ (ap (envelope_round broken temps (loop (suc (suc rounds)) false))
                            (field_items x xs _ st)
                          ∙ (ap
                                (envelope_step broken temps (loop (suc rounds) false)
                                  (sent items []) st)
                                (next_key-later broken extra (codes "channel") _)
                              ∙ (ap (envelope_round broken temps (loop (suc rounds) false))
                                    (field_channel items channel _ st)
                                  ∙ ap
                                      (envelope_step broken temps (loop rounds false)
                                        (sent items channel) st)
                                      (next_key-close broken extra false t))))))))

  -- The envelope of one or more texts, its strings written with the short escapes, with `\u00XX` for
  -- other control bytes and for any choice of bytes below 128, and with all else as it is, is parsed to its version, channel and texts, makes no temporary file, and leaves what follows it.
  pub parse_envelope_streaming-print_envelope :
      (sender x : Bytes) (xs : List Bytes) (channel t : Bytes) (st : Scratch)
      → parse_envelope_streaming broken temps (print_envelope extra sender x xs channel t) st
        ≡ record {
          envelope = record {
            version = pos 1;
            channel = channel;
            items = map text_item (x ∷ xs);
            tmps = [];
          };
          outcome = ok tt t;
          scratch = st;
        }
  unfolding parse_envelope_streaming print_envelope envelope_body is_space sent
  parse_envelope_streaming-print_envelope sender x xs channel t st =
      let n = length (members extra sender x xs channel t) in
      let enough : n ≡ suc (suc (suc (suc (n - 4)))) =
        omega (arith, length-members extra sender x xs channel t) in
      ap (λ o. envelope_body broken temps o st)
        (skip_ws_then_at broken b'{' (members extra sender x xs channel t) refl)
      ∙ (ap
            (λ k.
              envelope_loop broken temps (suc k) true no_envelope
                (members extra sender x xs channel t) st)
            enough
          ∙ envelope_loop-members (n - 4) sender x xs channel t st)
