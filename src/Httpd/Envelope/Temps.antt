-- ===== src/Httpd/Envelope/Temps.antt =====
-- internal/httpd/clip.go, `parseEnvelopeStreaming`: the files to remove are files that this request made.
use clipbeam_cli.Prelude.{
  ℕ, zero, suc, ◌≤◌, ◌≡◌, refl, inl, inr, Bool, true, false, Option, none, some, List, [], ◌∷◌,
  ◌++◌, arith, ◌==◌, if◌then◌else◌, All-map, length, All, All-append, Bytes, codes, bytes_eq,
}
use clipbeam_cli.Go.Strings.{is_empty}
use clipbeam_cli.Httpd.Outcome.{ClipError, Outcome, ok, err, spent, ◌>>=◌}
use clipbeam_cli.Httpd.Json.{
  next_byte, skip_ws, skip_ws_then, read_json_string_value, read_json_string_or_null,
  read_json_number, skip_json_value,
}
use clipbeam_cli.Httpd.Clip.{ParsedItem, Scratch, TempFiles, next_key}
use clipbeam_cli.Httpd.Clip.Temps.{Own, Owns, Own-weaken, parse_one_item-made, parse_one_item-Owns}
use clipbeam_cli.Httpd.Envelope.{
  Items, Envelope, no_envelope, Parsed, add_path, keep, channel_unless_null, items_next,
  items_after, items_step, items_loop, items_body, parse_items_streaming, items_field,
  envelope_field, envelope_round, envelope_step, envelope_loop, envelope_body,
  parse_envelope_streaming,
}

-- Each path is one of the first `made` files.
unfoldable pub AllOwn : TempFiles → ℕ → List Bytes → Type 0
AllOwn temps made tmps = All (Own temps made) tmps

module _ (temps : TempFiles) where
  AllOwn-weaken : (n m : ℕ) (tmps : List Bytes) → n ≤ m → AllOwn temps n tmps → AllOwn temps m tmps
  unfolding AllOwn
  AllOwn-weaken n m tmps le h = All-map (λ p o. Own-weaken temps n m p le o) tmps h

  add_path-AllOwn :
      (n : ℕ) (tmps : List Bytes) (path : Bytes)
      → AllOwn temps n tmps
      → Owns temps n path
      → AllOwn temps n (add_path tmps path)
  unfolding AllOwn add_path is_empty
  add_path-AllOwn n tmps [] h o = h
  add_path-AllOwn n tmps (b ∷ p) h (inl e) = absurd (cc)
  add_path-AllOwn n tmps (b ∷ p) h (inr o) = All-append (Own temps n) tmps ((b ∷ p) ∷ []) h (o, tt)

  ItemsKeep : Scratch → Items → Type 0
  ItemsKeep st r = (st.made ≤ r.scratch.made) × AllOwn temps r.scratch.made r.tmps

  ParsedKeeps : Scratch → Parsed → Type 0
  ParsedKeeps st p = (st.made ≤ p.scratch.made) × AllOwn temps p.scratch.made p.envelope.tmps

  Items-if :
      (st : Scratch) (b : Bool) (x y : Items)
      → ItemsKeep st x
      → ItemsKeep st y
      → ItemsKeep st (if b then x else y)
  Items-if st true x y h k = h
  Items-if st false x y h k = k

  Parsed-if :
      (st : Scratch) (b : Bool) (x y : Parsed)
      → ParsedKeeps st x
      → ParsedKeeps st y
      → ParsedKeeps st (if b then x else y)
  Parsed-if st true x y h k = h
  Parsed-if st false x y h k = k

  ItemsKeep-after :
      (st st' : Scratch) (r : Items) → st.made ≤ st'.made → ItemsKeep st' r → ItemsKeep st r
  unfolding ItemsKeep
  ItemsKeep-after st st' r le h = (omega (arith, le, h.0), h.1)

  ParsedKeeps-after :
      (st st' : Scratch) (p : Parsed) → st.made ≤ st'.made → ParsedKeeps st' p → ParsedKeeps st p
  unfolding ParsedKeeps
  ParsedKeeps-after st st' p le h = (omega (arith, le, h.0), h.1)

module _ (broken : Option ClipError) (temps : TempFiles) where
  items_after-keeps :
      (later : Bytes → Scratch → Items) (items : List ParsedItem) (tmps : List Bytes)
      (o' : Outcome (Unit {0})) (st st' : Scratch) (o : Outcome ℕ)
      → st.made ≤ st'.made
      → AllOwn temps st'.made tmps
      → ((s : Bytes) → ItemsKeep temps st' (later s st'))
      → ItemsKeep temps st (
          items_after broken temps later
            (record { items = items; tmps = tmps; outcome = o'; scratch = st' })
            o)
  unfolding ItemsKeep items_after items_next
  items_after-keeps later items tmps o' st st' (ok b s) le h k =
      Items-if temps st (b == b']') _ _ (le, h)
        (Items-if temps st (b == b',') _ _ (ItemsKeep-after temps st st' (later s st') le (k s))
          (le, h))
  items_after-keeps later items tmps o' st st' (err e) le h k = (le, h)
  items_after-keeps later items tmps o' st st' spent le h k = (le, h)

  items_step-keeps :
      (later : List ParsedItem → List Bytes → Bytes → Scratch → Items) (items : List ParsedItem)
      (tmps : List Bytes) (pi : ParsedItem) (o : Outcome (Unit {0})) (st st' : Scratch)
      → st.made ≤ st'.made
      → AllOwn temps st.made tmps
      → Owns temps st'.made pi.tmp_path
      → ((items' : List ParsedItem) (tmps' : List Bytes) (s : Bytes) (st2 : Scratch)
          → AllOwn temps st2.made tmps'
          → ItemsKeep temps st2 (later items' tmps' s st2))
      → ItemsKeep temps st (
          items_step broken temps later items tmps
            (record { item = pi; outcome = o; scratch = st' }))
  unfolding ItemsKeep items_step
  items_step-keeps later items tmps pi (ok u rest) st st' le h o k =
      let own =
        add_path-AllOwn temps st'.made tmps pi.tmp_path
          (AllOwn-weaken temps st.made st'.made tmps le h) o in
      items_after-keeps (later (items ++ pi ∷ []) (add_path tmps pi.tmp_path)) (items ++ pi ∷ [])
        (add_path tmps pi.tmp_path) (ok tt rest) st st' (skip_ws broken rest >>= λ r. next_byte r.1)
        le own λ s. k (items ++ pi ∷ []) (add_path tmps pi.tmp_path) s st' own
  items_step-keeps later items tmps pi (err e) st st' le h o k = (
    le,
    add_path-AllOwn temps st'.made tmps pi.tmp_path (AllOwn-weaken temps st.made st'.made tmps le h)
        o,
  )
  items_step-keeps later items tmps pi spent st st' le h o k = (
    le,
    add_path-AllOwn temps st'.made tmps pi.tmp_path (AllOwn-weaken temps st.made st'.made tmps le h)
        o,
  )

  items_loop-keeps :
      (rounds : ℕ) (items : List ParsedItem) (tmps : List Bytes) (s : Bytes) (st : Scratch)
      → AllOwn temps st.made tmps
      → ItemsKeep temps st (items_loop broken temps rounds items tmps s st)
  unfolding ItemsKeep items_loop
  items_loop-keeps zero items tmps s st h = (omega arith, h)
  items_loop-keeps (suc rounds) items tmps s st h =
      items_step-keeps (items_loop broken temps rounds) items tmps _ _ st _
        (parse_one_item-made broken temps s st) h (parse_one_item-Owns broken temps s st)
        (items_loop-keeps rounds)

  items_body-keeps :
      (st : Scratch) (o : Outcome ℕ) → ItemsKeep temps st (items_body broken temps st o)
  unfolding ItemsKeep items_body AllOwn
  items_body-keeps st (ok b s) =
      Items-if temps st (b == b']') _ _ (omega arith, tt)
        (items_loop-keeps (suc (suc (length s))) [] [] (b ∷ s) st tt)
  items_body-keeps st (err e) = (omega arith, tt)
  items_body-keeps st spent = (omega arith, tt)

  parse_items_streaming-keeps :
      (s : Bytes) (st : Scratch) → ItemsKeep temps st (parse_items_streaming broken temps s st)
  unfolding parse_items_streaming
  parse_items_streaming-keeps s st =
      items_body-keeps st
        (skip_ws_then broken b'[' s >>= λ r. skip_ws broken r.1 >>= λ p. next_byte p.1)

  both :
      (env : Envelope) (tmps : List Bytes) (st st' : Scratch)
      → AllOwn temps st.made env.tmps
      → (st.made ≤ st'.made) × AllOwn temps st'.made tmps
      → AllOwn temps st'.made (env.tmps ++ tmps)
  unfolding AllOwn
  both env tmps st st' h k =
      All-append (Own temps st'.made) env.tmps tmps
        (All-map (λ p o. Own-weaken temps st.made st'.made p k.0 o) env.tmps h) k.1

  items_field-keeps :
      (env : Envelope) (items : List ParsedItem) (tmps : List Bytes) (o : Outcome (Unit {0}))
      (st st' : Scratch)
      → AllOwn temps st.made env.tmps
      → ItemsKeep temps st (record { items = items; tmps = tmps; outcome = o; scratch = st' })
      → ParsedKeeps temps st (
          items_field broken temps env
            (record { items = items; tmps = tmps; outcome = o; scratch = st' }))
  unfolding ParsedKeeps ItemsKeep items_field
  items_field-keeps env items tmps (ok u rest) st st' h k = (k.0, both env tmps st st' h k)
  items_field-keeps env items tmps (err e) st st' h k = (k.0, both env tmps st st' h k)
  items_field-keeps env items tmps spent st st' h k = (k.0, both env tmps st st' h k)

  keep-keeps {ℓ} :
      {A : Type ℓ} (set : A → Envelope) (env : Envelope) (o : Outcome A) (st : Scratch)
      → AllOwn temps st.made env.tmps
      → ((v : A) → (set v).tmps ≡ env.tmps)
      → ParsedKeeps temps st (keep set env o st)
  unfolding ParsedKeeps keep
  keep-keeps set env (ok v rest) st h k = (omega arith, rw (k v) h)
  keep-keeps set env (err e) st h k = (omega arith, h)
  keep-keeps set env spent st h k = (omega arith, h)

  channel_unless_null_tmps :
      (env : Envelope) (o : Option Bytes) → (channel_unless_null env o).tmps ≡ env.tmps
  unfolding channel_unless_null
  channel_unless_null_tmps env none = refl
  channel_unless_null_tmps env (some v) = refl

  envelope_field-keeps :
      (key : Bytes) (env : Envelope) (s : Bytes) (st : Scratch)
      → AllOwn temps st.made env.tmps
      → ParsedKeeps temps st (envelope_field broken temps key env s st)
  unfolding envelope_field
  envelope_field-keeps key env s st h =
      Parsed-if temps st (bytes_eq key (codes "version")) _ _
        (keep-keeps _ env (read_json_number broken s) st h λ v. refl)
        (Parsed-if temps st (bytes_eq key (codes "sender")) _ _
          (keep-keeps (λ v. env) env (read_json_string_value broken s) st h λ v. refl)
          (Parsed-if temps st (bytes_eq key (codes "channel")) _ _
            (keep-keeps (channel_unless_null env) env (read_json_string_or_null broken s) st h
              (channel_unless_null_tmps env))
            (Parsed-if temps st (bytes_eq key (codes "items")) _ _
              (items_field-keeps env _ _ _ st _ h (parse_items_streaming-keeps s st))
              (keep-keeps (λ u. env) env (skip_json_value broken (suc (length s)) s) st h
                λ v. refl))))

  envelope_round-keeps :
      (later : Envelope → Bytes → Scratch → Parsed) (env : Envelope) (o : Outcome (Unit {0}))
      (st st' : Scratch)
      → st.made ≤ st'.made
      → AllOwn temps st'.made env.tmps
      → ((env' : Envelope) (s : Bytes) (st2 : Scratch)
          → AllOwn temps st2.made env'.tmps
          → ParsedKeeps temps st2 (later env' s st2))
      → ParsedKeeps temps st (
          envelope_round broken temps later (record { envelope = env; outcome = o; scratch = st' }))
  unfolding ParsedKeeps envelope_round
  envelope_round-keeps later env (ok u s) st st' le h k =
      ParsedKeeps-after temps st st' (later env s st') le (k env s st' h)
  envelope_round-keeps later env (err e) st st' le h k = (le, h)
  envelope_round-keeps later env spent st st' le h k = (le, h)

  envelope_step-keeps :
      (later : Envelope → Bytes → Scratch → Parsed) (env : Envelope) (st : Scratch)
      (o : Outcome (Option Bytes))
      → AllOwn temps st.made env.tmps
      → ((env' : Envelope) (s : Bytes) (st2 : Scratch)
          → AllOwn temps st2.made env'.tmps
          → ParsedKeeps temps st2 (later env' s st2))
      → ParsedKeeps temps st (envelope_step broken temps later env st o)
  unfolding ParsedKeeps envelope_step
  envelope_step-keeps later env st (ok none rest) h k = (omega arith, h)
  envelope_step-keeps later env st (ok (some key) rest) h k =
      let f = envelope_field-keeps key env rest st h in
      envelope_round-keeps later _ _ st _ f.0 f.1 k
  envelope_step-keeps later env st (err e) h k = (omega arith, h)
  envelope_step-keeps later env st spent h k = (omega arith, h)

  envelope_loop-keeps :
      (rounds : ℕ) (first : Bool) (env : Envelope) (s : Bytes) (st : Scratch)
      → AllOwn temps st.made env.tmps
      → ParsedKeeps temps st (envelope_loop broken temps rounds first env s st)
  unfolding ParsedKeeps envelope_loop
  envelope_loop-keeps zero first env s st h = (omega arith, h)
  envelope_loop-keeps (suc rounds) first env s st h =
      envelope_step-keeps (envelope_loop broken temps rounds false) env st (next_key broken first s)
        h (envelope_loop-keeps rounds false)

  envelope_body-keeps :
      (o : Outcome (Unit {0})) (st : Scratch)
      → ParsedKeeps temps st (envelope_body broken temps o st)
  unfolding ParsedKeeps envelope_body AllOwn
  envelope_body-keeps (ok u s) st = envelope_loop-keeps (suc (length s)) true no_envelope s st tt
  envelope_body-keeps (err e) st = (omega arith, tt)
  envelope_body-keeps spent st = (omega arith, tt)

  pub parse_envelope_streaming-AllOwn :
      (s : Bytes) (st : Scratch)
      → AllOwn temps
          (parse_envelope_streaming broken temps s st).scratch.made
          (parse_envelope_streaming broken temps s st).envelope.tmps
  unfolding parse_envelope_streaming ParsedKeeps
  parse_envelope_streaming-AllOwn s st = (envelope_body-keeps (skip_ws_then broken b'{' s) st).1
