-- ===== src/Httpd/Envelope/Ends.antt =====
-- internal/httpd/clip.go, `parseEnvelopeStreaming`: a body of any bytes is read to the end of its envelope or to an
-- error.
use clipbeam_cli.Prelude.{
  ℕ, zero, suc, ◌<◌, Bool, true, false, Option, none, some, List, [], ◌∷◌, ◌++◌, arith, ◌==◌,
  if◌then◌else◌, length, Bytes, codes, bytes_eq,
}
use clipbeam_cli.Httpd.Outcome.{
  ClipError, Outcome, ok, err, spent, ◌>>=◌, Within, Within-bind, Within-weaken,
}
use clipbeam_cli.Httpd.Json.{
  next_byte, skip_ws, skip_ws_then, read_json_string_value, read_json_string_or_null,
  read_json_number, skip_json_value,
}
use clipbeam_cli.Httpd.Json.Ends.{
  next_significant-Within, skip_ws_then-Within, read_json_string_value-Within,
  read_json_number-Within, read_json_string_or_null-Within, skip_json_value-Within,
}
use clipbeam_cli.Httpd.Clip.{ParsedItem, Scratch, TempFiles, next_key}
use clipbeam_cli.Httpd.Clip.Ends.{next_key-Within, parse_one_item-Within}
use clipbeam_cli.Httpd.Envelope.{
  Items, Envelope, Parsed, add_path, keep, items_next, items_after, items_step, items_loop,
  items_body, parse_items_streaming, items_field, envelope_field, envelope_round, envelope_step,
  envelope_loop, envelope_body, parse_envelope_streaming,
}

keep-Within {ℓ} :
    {A : Type ℓ} (n : ℕ) (set : A → Envelope) (env : Envelope) (o : Outcome A) (st : Scratch)
    → Within n o
    → Within n (keep set env o st).outcome
unfolding keep
keep-Within n set env (ok v rest) st h = h
keep-Within n set env (err e) st h = tt
keep-Within n set env spent st h = h

Parsed-if :
    (n : ℕ) (b : Bool) (x y : Parsed)
    → Within n x.outcome
    → Within n y.outcome
    → Within n (if b then x else y).outcome
Parsed-if n true x y h k = h
Parsed-if n false x y h k = k

Items-if :
    (n : ℕ) (b : Bool) (x y : Items)
    → Within n x.outcome
    → Within n y.outcome
    → Within n (if b then x else y).outcome
Items-if n true x y h k = h
Items-if n false x y h k = k

module _ (broken : Option ClipError) (temps : TempFiles) where
  items_after-Within :
      (n : ℕ) (later : Bytes → Scratch → Items) (r : Items) (o : Outcome ℕ)
      → Within n o
      → ((s : Bytes) (st : Scratch) → length s < n → Within n (later s st).outcome)
      → Within n (items_after broken temps later r o).outcome
  unfolding items_after items_next
  items_after-Within n later r (ok b s) h k =
      Items-if n (b == b']') _ _ h (Items-if n (b == b',') _ _ (k s r.scratch h) tt)
  items_after-Within n later r (err e) h k = tt
  items_after-Within n later r spent h k = h

  items_step-Within :
      (n : ℕ) (later : List ParsedItem → List Bytes → Bytes → Scratch → Items)
      (items : List ParsedItem) (tmps : List Bytes) (pi : ParsedItem) (o : Outcome (Unit {0}))
      (st : Scratch)
      → Within n o
      → ((items' : List ParsedItem) (tmps' : List Bytes) (s : Bytes) (st' : Scratch)
          → length s < n
          → Within n (later items' tmps' s st').outcome)
      → Within n
          (items_step broken temps later items tmps
            (record { item = pi; outcome = o; scratch = st })).outcome
  unfolding items_step
  items_step-Within n later items tmps pi (ok u rest) st h k =
      items_after-Within n (later (items ++ pi ∷ []) (add_path tmps pi.tmp_path))
        (record {
          items = items ++ pi ∷ [];
          tmps = add_path tmps pi.tmp_path;
          outcome = ok tt rest;
          scratch = st;
        })
        (skip_ws broken rest >>= λ r. next_byte r.1)
        (Within-weaken (length rest) n (skip_ws broken rest >>= λ r. next_byte r.1)
          (omega (arith, h)) (next_significant-Within broken rest))
        (k (items ++ pi ∷ []) (add_path tmps pi.tmp_path))
  items_step-Within n later items tmps pi (err e) st h k = tt
  items_step-Within n later items tmps pi spent st h k = h

  items_loop-Within :
      (rounds : ℕ) (items : List ParsedItem) (tmps : List Bytes) (s : Bytes) (st : Scratch)
      → length s < rounds
      → Within (length s) (items_loop broken temps rounds items tmps s st).outcome
  unfolding items_loop
  items_loop-Within zero items tmps s st lt = absurd (omega arith)
  items_loop-Within (suc rounds) items tmps s st lt =
      items_step-Within (length s) (items_loop broken temps rounds) items tmps _ _ _
        (parse_one_item-Within broken temps s st)
        λ items' tmps' t st' lt'.
          Within-weaken (length t) (length s) _ (omega (arith, lt'))
            (items_loop-Within rounds items' tmps' t st' (omega (arith, lt, lt')))

  items_body-Within :
      (n : ℕ) (st : Scratch) (o : Outcome ℕ)
      → Within n o
      → Within (suc n) (items_body broken temps st o).outcome
  unfolding items_body
  items_body-Within n st (ok b s) h = Items-if (suc n) (b == b']') _ _ (omega (arith, h)) (
      Within-weaken (length (b ∷ s)) (suc n) _ (omega (arith, h))
        (items_loop-Within (suc (suc (length s))) [] [] (b ∷ s) st (omega arith)))
  items_body-Within n st (err e) h = tt
  items_body-Within n st spent h = h

  parse_items_streaming-Within :
      (s : Bytes) (st : Scratch)
      → Within (suc (length s)) (parse_items_streaming broken temps s st).outcome
  unfolding parse_items_streaming
  parse_items_streaming-Within s st = items_body-Within (length s) st _ (
      Within-bind (length s) (length s) (skip_ws_then broken b'[' s) _
        (skip_ws_then-Within broken b'[' s)
        λ u t lt.
          Within-weaken (length t) (length s) _ (omega (arith, lt))
            (next_significant-Within broken t))

  items_field-Within :
      (n : ℕ) (env : Envelope) (items : List ParsedItem) (tmps : List Bytes)
      (o : Outcome (Unit {0})) (st : Scratch)
      → Within n o
      → Within n
          (items_field broken temps env
            (record { items = items; tmps = tmps; outcome = o; scratch = st })).outcome
  unfolding items_field
  items_field-Within n env items tmps (ok u rest) st h = h
  items_field-Within n env items tmps (err e) st h = tt
  items_field-Within n env items tmps spent st h = h

  envelope_field-Within :
      (key : Bytes) (env : Envelope) (s : Bytes) (st : Scratch)
      → Within (suc (length s)) (envelope_field broken temps key env s st).outcome
  unfolding envelope_field
  envelope_field-Within key env s st =
      Parsed-if (suc (length s)) (bytes_eq key (codes "version")) _ _
        (keep-Within (suc (length s)) _ env (read_json_number broken s) st
          (read_json_number-Within broken s))
        (Parsed-if (suc (length s)) (bytes_eq key (codes "sender")) _ _
          (keep-Within (suc (length s)) _ env (read_json_string_value broken s) st (
            Within-weaken (length s) (suc (length s)) (read_json_string_value broken s)
              (omega arith) (read_json_string_value-Within broken s)))
          (Parsed-if (suc (length s)) (bytes_eq key (codes "channel")) _ _
            (keep-Within (suc (length s)) _ env (read_json_string_or_null broken s) st
              (read_json_string_or_null-Within broken s))
            (Parsed-if (suc (length s)) (bytes_eq key (codes "items")) _ _
              (items_field-Within (suc (length s)) env _ _ _ _ (parse_items_streaming-Within s st))
              (keep-Within (suc (length s)) _ env (skip_json_value broken (suc (length s)) s) st (
                Within-weaken (length s) (suc (length s))
                  (skip_json_value broken (suc (length s)) s) (omega arith)
                  (skip_json_value-Within broken (suc (length s)) s (omega arith)))))))

  envelope_round-Within :
      (n m : ℕ) (later : Envelope → Bytes → Scratch → Parsed) (env : Envelope)
      (o : Outcome (Unit {0})) (st : Scratch)
      → Within n o
      → ((env' : Envelope) (s : Bytes) (st' : Scratch)
          → length s < n
          → Within m (later env' s st').outcome)
      → Within m
          (envelope_round broken temps later
            (record { envelope = env; outcome = o; scratch = st })).outcome
  unfolding envelope_round
  envelope_round-Within n m later env (ok u s) st h k = k env s st h
  envelope_round-Within n m later env (err e) st h k = tt
  envelope_round-Within n m later env spent st h k = h

  envelope_step-Within :
      (n : ℕ) (later : Envelope → Bytes → Scratch → Parsed) (env : Envelope) (st : Scratch)
      (o : Outcome (Option Bytes))
      → Within n o
      → ((env' : Envelope) (s : Bytes) (st' : Scratch)
          → length s < n
          → Within n (later env' s st').outcome)
      → Within n (envelope_step broken temps later env st o).outcome
  unfolding envelope_step
  envelope_step-Within n later env st (ok none rest) h k = h
  envelope_step-Within n later env st (ok (some key) rest) h k =
      envelope_round-Within (suc (length rest)) n later _ _ _
        (envelope_field-Within key env rest st) λ env' s st' lt. k env' s st' (omega (arith, lt, h))
  envelope_step-Within n later env st (err e) h k = tt
  envelope_step-Within n later env st spent h k = h

  envelope_loop-Within :
      (rounds : ℕ) (first : Bool) (env : Envelope) (s : Bytes) (st : Scratch)
      → length s < rounds
      → Within (length s) (envelope_loop broken temps rounds first env s st).outcome
  unfolding envelope_loop
  envelope_loop-Within zero first env s st lt = absurd (omega arith)
  envelope_loop-Within (suc rounds) first env s st lt =
      envelope_step-Within (length s) (envelope_loop broken temps rounds false) env st
        (next_key broken first s) (next_key-Within broken first s)
        λ env' t st' lt'.
          Within-weaken (length t) (length s) _ (omega (arith, lt'))
            (envelope_loop-Within rounds false env' t st' (omega (arith, lt, lt')))

  envelope_body-Within :
      (n : ℕ) (o : Outcome (Unit {0})) (st : Scratch)
      → Within n o
      → Within n (envelope_body broken temps o st).outcome
  unfolding envelope_body
  envelope_body-Within n (ok u s) st h =
      Within-weaken (length s) n _ (omega (arith, h))
        (envelope_loop-Within (suc (length s)) true _ s st (omega arith))
  envelope_body-Within n (err e) st h = tt
  envelope_body-Within n spent st h = h

-- For every body, however it ends, and whatever the decoder and the disk do, the parse of the request comes to an error, or
-- to an envelope with fewer bytes left than the body has: none of its loops runs on, and each level
-- of nesting ends, on a stack that holds them all.
pub parse_envelope_streaming-Within :
    (broken : Option ClipError) (temps : TempFiles) (s : Bytes) (st : Scratch)
    → Within (length s) (parse_envelope_streaming broken temps s st).outcome
unfolding parse_envelope_streaming
parse_envelope_streaming-Within broken temps s st =
    envelope_body-Within broken temps (length s) (skip_ws_then broken b'{' s) st
      (skip_ws_then-Within broken b'{' s)
