-- ===== src/Httpd/Clip/Ends.antt =====
-- internal/httpd/clip.go, `parseOneItem`: each step takes bytes off the body, so as many rounds as there are
-- bytes are enough.
use clipbeam_cli.Prelude.{
  ℕ, zero, suc, ◌<◌, Bool, true, false, Option, none, some, [], arith, ◌==◌, if◌then◌else◌, length,
  Bytes, codes, bytes_eq,
}
use clipbeam_cli.Store.{Fault, open_fails, write_fails, close_fails}
use clipbeam_cli.Httpd.Outcome.{
  ClipError, Outcome, ok, err, spent, Within, Within-bind, Within-weaken, Within-if,
}
use clipbeam_cli.Httpd.Json.{
  skip_ws_then, read_short_json_string, read_json_string_value, try_consume_null,
  read_json_string_or_null, skip_json_value,
}
use clipbeam_cli.Httpd.Json.Ends.{
  at_byte-Within, skip_ws_then-Within, read_short_json_string-Within, read_json_string_value-Within,
  try_consume_null-Within, read_json_string_or_null-Within, skip_json_value-Within,
}
use clipbeam_cli.Httpd.Clip.{
  ParsedItem, Scratch, Decoding, complete, corrupt, stopped, TempFiles, Field, settle_stream,
  with_file, keep, decode_all, stream_to, stream_base64_to_temp, with_path, opened_payload,
  payload_field, optional_field, item_field, colon_after, key_after, after_comma, next_key,
  item_round, item_step, item_loop, item_body, parse_one_item,
}

module _ (broken : Option ClipError) where
  colon_after-Within : (key s : Bytes) → Within (length s) (colon_after broken (key, s))
  unfolding colon_after
  colon_after-Within key s =
      Within-bind (length s) (length s) (skip_ws_then broken b':' s) _
        (skip_ws_then-Within broken b':' s) λ u t lt. lt

  key_after-Within : (b : ℕ) (s : Bytes) → Within (length s) (key_after broken b s)
  unfolding key_after
  key_after-Within b s =
      Within-if (length s) (b == 34) _ _
        (Within-bind (length s) (length s) (read_short_json_string broken s) _
          (read_short_json_string-Within broken s)
          λ key t lt.
            Within-weaken (length t) (length s) (colon_after broken (key, t)) (omega (arith, lt))
              (colon_after-Within key t))
        tt

  after_comma-Within :
      (first : Bool) (b : ℕ) (s : Bytes) → Within (length s) (after_comma broken first b s)
  unfolding after_comma
  after_comma-Within true b s = key_after-Within b s
  after_comma-Within false b s =
      Within-if (length s) (b == b',') _ _
        (at_byte-Within broken (length s) s (key_after broken) λ c t lt.
          Within-weaken (length t) (length s) (key_after broken c t) (omega (arith, lt))
            (key_after-Within c t))
        tt

  pub next_key-Within : (first : Bool) (s : Bytes) → Within (length s) (next_key broken first s)
  unfolding next_key
  next_key-Within first s =
      at_byte-Within broken (length s) s
        (λ b t. if b == b'}' then ok none t else after_comma broken first b t)
        λ b t lt. Within-if (length s) (b == b'}') (ok none t) (after_comma broken first b t) lt (
          Within-weaken (length t) (length s) (after_comma broken first b t) (omega (arith, lt))
            (after_comma-Within first b t))

settle_stream-Within :
    (fault : Fault) (d : Decoding) (s : Bytes) → Within (suc (length s)) (settle_stream fault d s).1
unfolding settle_stream
settle_stream-Within (write_fails n e) (complete bytes) s = tt
settle_stream-Within (write_fails n e) (corrupt bytes) s = tt
settle_stream-Within (write_fails n e) (stopped bytes x) s = tt
settle_stream-Within (close_fails e) (complete bytes) s = tt
settle_stream-Within fault (complete bytes) s = omega arith
settle_stream-Within fault (corrupt bytes) s = tt
settle_stream-Within fault (stopped bytes x) s = tt

keep-Within {ℓ} :
    {A : Type ℓ} (n : ℕ) (set : A → ParsedItem) (pi : ParsedItem) (o : Outcome A) (st : Scratch)
    → Within n o
    → Within n (keep set pi o st).outcome
unfolding keep
keep-Within n set pi (ok v rest) st h = h
keep-Within n set pi (err e) st h = tt
keep-Within n set pi spent st h = h

Field-if :
    (n : ℕ) (b : Bool) (x y : Field)
    → Within n x.outcome
    → Within n y.outcome
    → Within n (if b then x else y).outcome
Field-if n true x y h k = h
Field-if n false x y h k = k

module _ (broken : Option ClipError) (temps : TempFiles) where
  decode_all-Within :
      (s : Bytes) (fault : Fault) (o : Outcome Bytes)
      → Within (length s) o
      → Within (suc (length s)) (decode_all broken temps s fault o).1
  unfolding decode_all
  decode_all-Within s fault (ok text rest) h =
      Within-weaken (suc (length rest)) (suc (length s)) _ (omega (arith, h))
        (settle_stream-Within fault _ rest)
  decode_all-Within s fault (err e) h =
      Within-weaken 1 (suc (length s)) _ (omega arith) (settle_stream-Within fault _ [])
  decode_all-Within s fault spent h = h

  stream_to-Within :
      (fault : Fault) (s : Bytes) (st : Scratch)
      → Within (suc (length s)) (stream_to broken temps fault s st).1.0
  unfolding stream_to with_file
  stream_to-Within (open_fails e) s st = tt
  stream_to-Within fault s st = decode_all-Within s fault _ (read_short_json_string-Within broken s)

  opened_payload-Within :
      (n : ℕ) (pi : ParsedItem) (o : Outcome (Unit {0})) (st : Scratch)
      → Within n o
      → Within n (opened_payload broken temps pi o st).outcome
  unfolding opened_payload with_path stream_base64_to_temp
  opened_payload-Within n pi (ok u s) st h =
      Within-weaken (suc (length s)) n _ (omega (arith, h))
        (stream_to-Within (temps.fault st.made) s st)
  opened_payload-Within n pi (err e) st h = tt
  opened_payload-Within n pi spent st h = h

  payload_field-Within :
      (n : ℕ) (pi : ParsedItem) (o : Outcome Bool) (st : Scratch)
      → Within n o
      → Within n (payload_field broken temps pi o st).outcome
  unfolding payload_field
  payload_field-Within n pi (ok true s) st h = h
  payload_field-Within n pi (ok false s) st h =
      opened_payload-Within n pi (skip_ws_then broken 34 s) st (
        Within-weaken (length s) n (skip_ws_then broken 34 s) (omega (arith, h))
          (skip_ws_then-Within broken 34 s))
  payload_field-Within n pi (err e) st h = tt
  payload_field-Within n pi spent st h = h

  optional_field-Within :
      (set : Bytes → ParsedItem) (pi : ParsedItem) (s : Bytes) (st : Scratch)
      → Within (suc (length s)) (optional_field broken temps set pi s st).outcome
  unfolding optional_field
  optional_field-Within set pi s st =
      keep-Within (suc (length s)) _ pi (read_json_string_or_null broken s) st
        (read_json_string_or_null-Within broken s)

  pub item_field-Within :
      (key : Bytes) (pi : ParsedItem) (s : Bytes) (st : Scratch)
      → Within (suc (length s)) (item_field broken temps key pi s st).outcome
  unfolding item_field
  item_field-Within key pi s st =
      Field-if (suc (length s)) (bytes_eq key (codes "kind")) _ _
        (keep-Within (suc (length s)) _ pi (read_json_string_value broken s) st (
          Within-weaken (length s) (suc (length s)) (read_json_string_value broken s) (omega arith)
            (read_json_string_value-Within broken s)))
        (Field-if (suc (length s)) (bytes_eq key (codes "name")) _ _
          (optional_field-Within _ pi s st)
          (Field-if (suc (length s)) (bytes_eq key (codes "uti")) _ _
            (optional_field-Within _ pi s st)
            (Field-if (suc (length s)) (bytes_eq key (codes "mime")) _ _
              (optional_field-Within _ pi s st)
              (Field-if (suc (length s)) (bytes_eq key (codes "text")) _ _
                (optional_field-Within _ pi s st)
                (Field-if (suc (length s)) (bytes_eq key (codes "bytesB64")) _ _
                  (payload_field-Within (suc (length s)) pi (try_consume_null broken s) st
                    (try_consume_null-Within broken s))
                  (keep-Within (suc (length s)) _ pi (skip_json_value broken (suc (length s)) s) st
                    (Within-weaken (length s) (suc (length s))
                      (skip_json_value broken (suc (length s)) s) (omega arith)
                      (skip_json_value-Within broken (suc (length s)) s (omega arith)))))))))

  item_round-Within :
      (n m : ℕ) (later : ParsedItem → Bytes → Scratch → Field) (pi : ParsedItem)
      (o : Outcome (Unit {0})) (st : Scratch)
      → Within n o
      → ((pi' : ParsedItem) (s : Bytes) (st' : Scratch)
          → length s < n
          → Within m (later pi' s st').outcome)
      → Within m
          (item_round broken temps later (record { item = pi; outcome = o; scratch = st })).outcome
  unfolding item_round
  item_round-Within n m later pi (ok u s) st h k = k pi s st h
  item_round-Within n m later pi (err e) st h k = tt
  item_round-Within n m later pi spent st h k = h

  item_step-Within :
      (n : ℕ) (later : ParsedItem → Bytes → Scratch → Field) (pi : ParsedItem) (st : Scratch)
      (o : Outcome (Option Bytes))
      → Within n o
      → ((pi' : ParsedItem) (s : Bytes) (st' : Scratch)
          → length s < n
          → Within n (later pi' s st').outcome)
      → Within n (item_step broken temps later pi st o).outcome
  unfolding item_step
  item_step-Within n later pi st (ok none rest) h k = h
  item_step-Within n later pi st (ok (some key) rest) h k =
      item_round-Within (suc (length rest)) n later _ _ _ (item_field-Within key pi rest st)
        λ pi' s st' lt. k pi' s st' (omega (arith, lt, h))
  item_step-Within n later pi st (err e) h k = tt
  item_step-Within n later pi st spent h k = h

  item_loop-Within :
      (rounds : ℕ) (first : Bool) (pi : ParsedItem) (s : Bytes) (st : Scratch)
      → length s < rounds
      → Within (length s) (item_loop broken temps rounds first pi s st).outcome
  unfolding item_loop
  item_loop-Within zero first pi s st lt = absurd (omega arith)
  item_loop-Within (suc rounds) first pi s st lt =
      item_step-Within (length s) (item_loop broken temps rounds false) pi st
        (next_key broken first s) (next_key-Within broken first s)
        λ pi' t st' lt'.
          Within-weaken (length t) (length s) _ (omega (arith, lt'))
            (item_loop-Within rounds false pi' t st' (omega (arith, lt, lt')))

  item_body-Within :
      (n : ℕ) (o : Outcome (Unit {0})) (st : Scratch)
      → Within n o
      → Within n (item_body broken temps o st).outcome
  unfolding item_body
  item_body-Within n (ok u s) st h =
      Within-weaken (length s) n _ (omega (arith, h))
        (item_loop-Within (suc (length s)) true _ s st (omega arith))
  item_body-Within n (err e) st h = tt
  item_body-Within n spent st h = h

  pub parse_one_item-Within :
      (s : Bytes) (st : Scratch) → Within (length s) (parse_one_item broken temps s st).outcome
  unfolding parse_one_item
  parse_one_item-Within s st =
      item_body-Within (length s) (skip_ws_then broken b'{' s) st
        (skip_ws_then-Within broken b'{' s)
