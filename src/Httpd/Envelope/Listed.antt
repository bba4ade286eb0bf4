-- ===== src/Httpd/Envelope/Listed.antt =====
-- internal/httpd/clip.go, `parseEnvelopeStreaming`: the payload file of every item is listed for removal.
use clipbeam_cli.Prelude.{
  ℕ, zero, suc, ◌≡◌, refl, ◌⊎◌, inl, inr, Bool, true, false, Option, none, some, List, [], ◌∷◌,
  ◌++◌, ◌==◌, if◌then◌else◌, All-map, length, All, All-append, Bytes, codes, bytes_eq,
}
use clipbeam_cli.Go.Strings.{is_empty}
use clipbeam_cli.Httpd.Outcome.{ClipError, Outcome, ok, err, spent, ◌>>=◌}
use clipbeam_cli.Httpd.Json.{
  next_byte, skip_ws, skip_ws_then, read_json_string_value, read_json_string_or_null,
  read_json_number, skip_json_value,
}
use clipbeam_cli.Httpd.Clip.{ParsedItem, Scratch, TempFiles, next_key, parse_one_item}
use clipbeam_cli.Httpd.Envelope.{
  Items, Envelope, no_envelope, Parsed, add_path, keep, channel_unless_null, items_next,
  items_after, items_step, items_loop, items_body, parse_items_streaming, items_field,
  envelope_field, envelope_round, envelope_step, envelope_loop, envelope_body,
  parse_envelope_streaming,
}

abbrev pub In : Bytes → List Bytes → Type 0
In p [] = ⊥
In p (q ∷ tmps) = (p ≡ q) ⊎ In p tmps

In-left : (p : Bytes) (tmps more : List Bytes) → In p tmps → In p (tmps ++ more)
In-left p [] more h = absurd h
In-left p (q ∷ tmps) more (inl e) = inl e
In-left p (q ∷ tmps) more (inr i) = inr (In-left p tmps more i)

In-right : (p : Bytes) (tmps more : List Bytes) → In p more → In p (tmps ++ more)
In-right p [] more h = h
In-right p (q ∷ tmps) more h = inr (In-right p tmps more h)

-- The file of an item that has one is in the list.
abbrev pub Lists : List Bytes → ParsedItem → Type 0
Lists tmps pi = (pi.tmp_path ≡ []) ⊎ In pi.tmp_path tmps

Lists-left : (tmps more : List Bytes) (pi : ParsedItem) → Lists tmps pi → Lists (tmps ++ more) pi
Lists-left tmps more pi (inl e) = inl e
Lists-left tmps more pi (inr i) = inr (In-left pi.tmp_path tmps more i)

Lists-right : (tmps more : List Bytes) (pi : ParsedItem) → Lists more pi → Lists (tmps ++ more) pi
Lists-right tmps more pi (inl e) = inl e
Lists-right tmps more pi (inr i) = inr (In-right pi.tmp_path tmps more i)

In-add_path : (tmps : List Bytes) (p q : Bytes) → In q tmps → In q (add_path tmps p)
unfolding add_path is_empty
In-add_path tmps [] q h = h
In-add_path tmps (b ∷ p) q h = In-left q tmps ((b ∷ p) ∷ []) h

Lists-add_path :
    (tmps : List Bytes) (p : Bytes) (pi : ParsedItem) → Lists tmps pi → Lists (add_path tmps p) pi
Lists-add_path tmps p pi (inl e) = inl e
Lists-add_path tmps p pi (inr i) = inr (In-add_path tmps p pi.tmp_path i)

add_path_self : (tmps : List Bytes) (p : Bytes) → (p ≡ []) ⊎ In p (add_path tmps p)
unfolding add_path is_empty
add_path_self tmps [] = inl refl
add_path_self tmps (b ∷ p) = inr (In-right (b ∷ p) tmps ((b ∷ p) ∷ []) (inl refl))

AllListed : List Bytes → List ParsedItem → Type 0
AllListed tmps items = All (Lists tmps) items

ItemsListed : Items → Type 0
unfolding AllListed
ItemsListed r = AllListed r.tmps r.items

ParsedListed : Parsed → Type 0
unfolding AllListed
ParsedListed p = AllListed p.envelope.tmps p.envelope.items

Items-if :
    (b : Bool) (x y : Items) → ItemsListed x → ItemsListed y → ItemsListed (if b then x else y)
Items-if true x y h k = h
Items-if false x y h k = k

Parsed-if :
    (b : Bool) (x y : Parsed) → ParsedListed x → ParsedListed y → ParsedListed (if b then x else y)
Parsed-if true x y h k = h
Parsed-if false x y h k = k

keep-listed {ℓ} :
    {A : Type ℓ} (set : A → Envelope) (env : Envelope) (o : Outcome A) (st : Scratch)
    → All (Lists env.tmps) env.items
    → ((v : A) → All (Lists (set v).tmps) (set v).items)
    → ParsedListed (keep set env o st)
unfolding ParsedListed keep
keep-listed set env (ok v rest) st h k = k v
keep-listed set env (err e) st h k = h
keep-listed set env spent st h k = h

channel_unless_null-listed :
    (env : Envelope) (o : Option Bytes)
    → All (Lists env.tmps) env.items
    → All (Lists (channel_unless_null env o).tmps) (channel_unless_null env o).items
unfolding channel_unless_null
channel_unless_null-listed env none h = h
channel_unless_null-listed env (some v) h = h

module _ (broken : Option ClipError) (temps : TempFiles) where
  items_after-listed :
      (later : Bytes → Scratch → Items) (items : List ParsedItem) (tmps : List Bytes)
      (o' : Outcome (Unit {0})) (st : Scratch) (o : Outcome ℕ)
      → All (Lists tmps) items
      → ((s : Bytes) → ItemsListed (later s st))
      → ItemsListed (
          items_after broken temps later
            (record { items = items; tmps = tmps; outcome = o'; scratch = st })
            o)
  unfolding ItemsListed items_after items_next
  items_after-listed later items tmps o' st (ok b s) h k =
      Items-if (b == b']') _ _ h (Items-if (b == b',') _ _ (k s) h)
  items_after-listed later items tmps o' st (err e) h k = h
  items_after-listed later items tmps o' st spent h k = h

  items_step-listed :
      (later : List ParsedItem → List Bytes → Bytes → Scratch → Items) (items : List ParsedItem)
      (tmps : List Bytes) (pi : ParsedItem) (o : Outcome (Unit {0})) (st : Scratch)
      → All (Lists tmps) items
      → ((items' : List ParsedItem) (tmps' : List Bytes) (s : Bytes) (st' : Scratch)
          → All (Lists tmps') items'
          → ItemsListed (later items' tmps' s st'))
      → ItemsListed (
          items_step broken temps later items tmps
            (record { item = pi; outcome = o; scratch = st }))
  unfolding ItemsListed items_step
  items_step-listed later items tmps pi (ok u rest) st h k =
      let before = All-map (λ x l. Lists-add_path tmps pi.tmp_path x l) items h in
      let all =
        All-append (Lists (add_path tmps pi.tmp_path)) items (pi ∷ []) before
          (add_path_self tmps pi.tmp_path, tt) in
      items_after-listed (later (items ++ pi ∷ []) (add_path tmps pi.tmp_path)) (items ++ pi ∷ [])
        (add_path tmps pi.tmp_path) (ok tt rest) st (skip_ws broken rest >>= λ r. next_byte r.1) all
        λ s. k (items ++ pi ∷ []) (add_path tmps pi.tmp_path) s st all
  items_step-listed later items tmps pi (err e) st h k =
      All-map (λ x l. Lists-add_path tmps pi.tmp_path x l) items h
  items_step-listed later items tmps pi spent st h k =
      All-map (λ x l. Lists-add_path tmps pi.tmp_path x l) items h

  items_loop-listed :
      (rounds : ℕ) (items : List ParsedItem) (tmps : List Bytes) (s : Bytes) (st : Scratch)
      → All (Lists tmps) items
      → ItemsListed (items_loop broken temps rounds items tmps s st)
  unfolding ItemsListed items_loop
  items_loop-listed zero items tmps s st h = h
  items_loop-listed (suc rounds) items tmps s st h =
      items_step-listed (items_loop broken temps rounds) items tmps
        (parse_one_item broken temps s st).item (parse_one_item broken temps s st).outcome
        (parse_one_item broken temps s st).scratch h (items_loop-listed rounds)

  items_body-listed : (st : Scratch) (o : Outcome ℕ) → ItemsListed (items_body broken temps st o)
  unfolding ItemsListed items_body
  items_body-listed st (ok b s) =
      Items-if (b == b']') _ _ tt (items_loop-listed (suc (suc (length s))) [] [] (b ∷ s) st tt)
  items_body-listed st (err e) = tt
  items_body-listed st spent = tt

  items_field-listed :
      (env : Envelope) (items : List ParsedItem) (tmps : List Bytes) (o : Outcome (Unit {0}))
      (st : Scratch)
      → All (Lists env.tmps) env.items
      → All (Lists tmps) items
      → ParsedListed (
          items_field broken temps env
            (record { items = items; tmps = tmps; outcome = o; scratch = st }))
  unfolding ParsedListed items_field
  items_field-listed env items tmps (ok u rest) st h k =
      All-map (λ x l. Lists-right env.tmps tmps x l) items k
  items_field-listed env items tmps (err e) st h k =
      All-map (λ x l. Lists-left env.tmps tmps x l) env.items h
  items_field-listed env items tmps spent st h k =
      All-map (λ x l. Lists-left env.tmps tmps x l) env.items h

  parse_items_streaming-listed :
      (s : Bytes) (st : Scratch) → ItemsListed (parse_items_streaming broken temps s st)
  unfolding parse_items_streaming
  parse_items_streaming-listed s st =
      items_body-listed st
        (skip_ws_then broken b'[' s >>= λ r. skip_ws broken r.1 >>= λ p. next_byte p.1)

  envelope_field-listed :
      (key : Bytes) (env : Envelope) (s : Bytes) (st : Scratch)
      → All (Lists env.tmps) env.items
      → ParsedListed (envelope_field broken temps key env s st)
  unfolding envelope_field ItemsListed
  envelope_field-listed key env s st h =
      Parsed-if (bytes_eq key (codes "version")) _ _
        (keep-listed (λ n. record env { version = n }) env (read_json_number broken s) st h λ v. h)
        (Parsed-if (bytes_eq key (codes "sender")) _ _
          (keep-listed (λ v. env) env (read_json_string_value broken s) st h λ v. h)
          (Parsed-if (bytes_eq key (codes "channel")) _ _
            (keep-listed (channel_unless_null env) env (read_json_string_or_null broken s) st h
              λ v. channel_unless_null-listed env v h)
            (Parsed-if (bytes_eq key (codes "items")) _ _
              (items_field-listed env _ _ _ _ h (parse_items_streaming-listed s st))
              (keep-listed (λ u. env) env (skip_json_value broken (suc (length s)) s) st h
                λ v. h))))

  envelope_round-listed :
      (later : Envelope → Bytes → Scratch → Parsed) (env : Envelope) (o : Outcome (Unit {0}))
      (st : Scratch)
      → All (Lists env.tmps) env.items
      → ((env' : Envelope) (s : Bytes) (st' : Scratch)
          → All (Lists env'.tmps) env'.items
          → ParsedListed (later env' s st'))
      → ParsedListed
          (envelope_round broken temps later (record { envelope = env; outcome = o; scratch = st }))
  unfolding ParsedListed envelope_round
  envelope_round-listed later env (ok u s) st h k = k env s st h
  envelope_round-listed later env (err e) st h k = h
  envelope_round-listed later env spent st h k = h

  envelope_step-listed :
      (later : Envelope → Bytes → Scratch → Parsed) (env : Envelope) (st : Scratch)
      (o : Outcome (Option Bytes))
      → All (Lists env.tmps) env.items
      → ((env' : Envelope) (s : Bytes) (st' : Scratch)
          → All (Lists env'.tmps) env'.items
          → ParsedListed (later env' s st'))
      → ParsedListed (envelope_step broken temps later env st o)
  unfolding ParsedListed envelope_step
  envelope_step-listed later env st (ok none rest) h k = h
  envelope_step-listed later env st (ok (some key) rest) h k =
      let f = envelope_field broken temps key env rest st in
      envelope_round-listed later f.envelope f.outcome f.scratch
        (envelope_field-listed key env rest st h) k
  envelope_step-listed later env st (err e) h k = h
  envelope_step-listed later env st spent h k = h

  envelope_loop-listed :
      (rounds : ℕ) (first : Bool) (env : Envelope) (s : Bytes) (st : Scratch)
      → All (Lists env.tmps) env.items
      → ParsedListed (envelope_loop broken temps rounds first env s st)
  unfolding ParsedListed envelope_loop
  envelope_loop-listed zero first env s st h = h
  envelope_loop-listed (suc rounds) first env s st h =
      envelope_step-listed (envelope_loop broken temps rounds false) env st
        (next_key broken first s) h (envelope_loop-listed rounds false)

  envelope_body-listed :
      (o : Outcome (Unit {0})) (st : Scratch) → ParsedListed (envelope_body broken temps o st)
  unfolding ParsedListed envelope_body
  envelope_body-listed (ok u s) st = envelope_loop-listed (suc (length s)) true no_envelope s st tt
  envelope_body-listed (err e) st = tt
  envelope_body-listed spent st = tt

  pub parse_envelope_streaming-Lists :
      (s : Bytes) (st : Scratch)
      → All
          (Lists (parse_envelope_streaming broken temps s st).envelope.tmps)
          (parse_envelope_streaming broken temps s st).envelope.items
  unfolding parse_envelope_streaming ParsedListed
  parse_envelope_streaming-Lists s st = envelope_body-listed (skip_ws_then broken b'{' s) st
