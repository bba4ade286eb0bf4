-- ===== src/Httpd/Clip/Temps.antt =====
-- internal/httpd/clip.go, `parseOneItem`: the temporary file that an item names is one that this request made.
use clipbeam_cli.Prelude.{
  ℕ, zero, suc, ◌≤◌, ◌<◌, ◌≡◌, refl, ◌⊎◌, inl, inr, Bool, true, false, Option, none, some, [],
  arith, if◌then◌else◌, length, Bytes, codes, bytes_eq,
}
use clipbeam_cli.Store.{Fault, open_fails}
use clipbeam_cli.Httpd.Outcome.{ClipError, Outcome, ok, err, spent}
use clipbeam_cli.Httpd.Json.{
  skip_ws_then, read_json_string_value, try_consume_null, read_json_string_or_null, skip_json_value,
}
use clipbeam_cli.Httpd.Clip.{
  ParsedItem, no_item, Scratch, TempFiles, Field, with_file, keep, unless_null, stream_to,
  stream_base64_to_temp, with_path, opened_payload, payload_field, optional_field, item_field,
  next_key, item_round, item_step, item_loop, item_body, parse_one_item,
}

-- A path that one of the first `made` temporary files has.
pub record Own (temps : TempFiles) (made : ℕ) (path : Bytes) : Type 0 where
  pub number : ℕ
  pub below : number < made
  pub named : path ≡ temps.path number

pub Own-weaken :
    (temps : TempFiles) (n m : ℕ) (path : Bytes) → n ≤ m → Own temps n path → Own temps m path
Own-weaken temps n m path le o = record {
  number = o.number;
  below = omega (arith, le, o.below);
  named = o.named;
}

-- No path, or one of this request.
abbrev pub Owns : TempFiles → ℕ → Bytes → Type 0
Owns temps made path = (path ≡ []) ⊎ Own temps made path

-- A step from a scratch state: it unmakes no file, and its item names none but those made.
Keeps : TempFiles → Scratch → Field → Type 0
Keeps temps st f = (st.made ≤ f.scratch.made) × Owns temps f.scratch.made f.item.tmp_path

Keeps-if :
    (temps : TempFiles) (st : Scratch) (b : Bool) (x y : Field)
    → Keeps temps st x
    → Keeps temps st y
    → Keeps temps st (if b then x else y)
Keeps-if temps st true x y h k = h
Keeps-if temps st false x y h k = k

module _ (broken : Option ClipError) (temps : TempFiles) where
  keep-Keeps {ℓ} :
      {A : Type ℓ} (set : A → ParsedItem) (pi : ParsedItem) (o : Outcome A) (st : Scratch)
      → Owns temps st.made pi.tmp_path
      → ((v : A) → (set v).tmp_path ≡ pi.tmp_path)
      → Keeps temps st (keep set pi o st)
  unfolding Keeps keep
  keep-Keeps set pi (ok v rest) st h k = (omega arith, rw (k v) h)
  keep-Keeps set pi (err e) st h k = (omega arith, h)
  keep-Keeps set pi spent st h k = (omega arith, h)

  unless_null-path :
      (set : Bytes → ParsedItem) (pi : ParsedItem)
      → ((v : Bytes) → (set v).tmp_path ≡ pi.tmp_path)
      → (o : Option Bytes) → (unless_null set pi o).tmp_path ≡ pi.tmp_path
  unfolding unless_null
  unless_null-path set pi k none = refl
  unless_null-path set pi k (some v) = k v

  stream_to-Keeps :
      (fault : Fault) (pi : ParsedItem) (s : Bytes) (st : Scratch)
      → Keeps temps st (with_path broken temps pi (stream_to broken temps fault s st))
  unfolding Keeps with_path stream_to with_file
  stream_to-Keeps (open_fails e) pi s st = (omega arith, inl refl)
  stream_to-Keeps fault pi s st =
      (omega arith, inr (record { number = st.made; below = omega arith; named = refl }))

  opened_payload-Keeps :
      (pi : ParsedItem) (o : Outcome (Unit {0})) (st : Scratch)
      → Owns temps st.made pi.tmp_path
      → Keeps temps st (opened_payload broken temps pi o st)
  unfolding Keeps opened_payload stream_base64_to_temp
  opened_payload-Keeps pi (ok u s) st h = stream_to-Keeps (temps.fault st.made) pi s st
  opened_payload-Keeps pi (err e) st h = (omega arith, h)
  opened_payload-Keeps pi spent st h = (omega arith, h)

  payload_field-Keeps :
      (pi : ParsedItem) (o : Outcome Bool) (st : Scratch)
      → Owns temps st.made pi.tmp_path
      → Keeps temps st (payload_field broken temps pi o st)
  unfolding Keeps payload_field
  payload_field-Keeps pi (ok true s) st h = (omega arith, h)
  payload_field-Keeps pi (ok false s) st h = opened_payload-Keeps pi (skip_ws_then broken 34 s) st h
  payload_field-Keeps pi (err e) st h = (omega arith, h)
  payload_field-Keeps pi spent st h = (omega arith, h)

  optional_field-Keeps :
      (set : Bytes → ParsedItem) (pi : ParsedItem) (s : Bytes) (st : Scratch)
      → Owns temps st.made pi.tmp_path
      → ((v : Bytes) → (set v).tmp_path ≡ pi.tmp_path)
      → Keeps temps st (optional_field broken temps set pi s st)
  unfolding optional_field
  optional_field-Keeps set pi s st h k =
      keep-Keeps (unless_null set pi) pi (read_json_string_or_null broken s) st h
        (unless_null-path set pi k)

  item_field-Keeps :
      (key : Bytes) (pi : ParsedItem) (s : Bytes) (st : Scratch)
      → Owns temps st.made pi.tmp_path
      → Keeps temps st (item_field broken temps key pi s st)
  unfolding item_field
  item_field-Keeps key pi s st h =
      Keeps-if temps st (bytes_eq key (codes "kind")) _ _
        (keep-Keeps _ pi (read_json_string_value broken s) st h λ v. refl)
        (Keeps-if temps st (bytes_eq key (codes "name")) _ _
          (optional_field-Keeps _ pi s st h λ v. refl)
          (Keeps-if temps st (bytes_eq key (codes "uti")) _ _
            (optional_field-Keeps _ pi s st h λ v. refl)
            (Keeps-if temps st (bytes_eq key (codes "mime")) _ _
              (optional_field-Keeps _ pi s st h λ v. refl)
              (Keeps-if temps st (bytes_eq key (codes "text")) _ _
                (optional_field-Keeps _ pi s st h λ v. refl)
                (Keeps-if temps st (bytes_eq key (codes "bytesB64")) _ _
                  (payload_field-Keeps pi (try_consume_null broken s) st h)
                  (keep-Keeps (λ u. pi) pi (skip_json_value broken (suc (length s)) s) st h
                    λ v. refl))))))

  -- A step after a step.
  Keeps-after :
      (st st' : Scratch) (f : Field) → st.made ≤ st'.made → Keeps temps st' f → Keeps temps st f
  unfolding Keeps
  Keeps-after st st' f le h = (omega (arith, le, h.0), h.1)

  Keeps-grows : (st : Scratch) (f : Field) → Keeps temps st f → st.made ≤ f.scratch.made
  unfolding Keeps
  Keeps-grows st f h = h.0

  Keeps-Owns :
      (st : Scratch) (f : Field) → Keeps temps st f → Owns temps f.scratch.made f.item.tmp_path
  unfolding Keeps
  Keeps-Owns st f h = h.1

  item_round-Keeps :
      (later : ParsedItem → Bytes → Scratch → Field) (pi : ParsedItem) (o : Outcome (Unit {0}))
      (st st' : Scratch)
      → Keeps temps st (record { item = pi; outcome = o; scratch = st' })
      → ((pi' : ParsedItem) (s : Bytes) (st2 : Scratch)
          → Owns temps st2.made pi'.tmp_path
          → Keeps temps st2 (later pi' s st2))
      → Keeps temps st
          (item_round broken temps later (record { item = pi; outcome = o; scratch = st' }))
  unfolding item_round
  item_round-Keeps later pi (ok u s) st st' h k =
      Keeps-after st st' (later pi s st') (Keeps-grows st _ h) (k pi s st' (Keeps-Owns st _ h))
  item_round-Keeps later pi (err e) st st' h k = h
  item_round-Keeps later pi spent st st' h k = h

  item_step-Keeps :
      (later : ParsedItem → Bytes → Scratch → Field) (pi : ParsedItem) (st : Scratch)
      (o : Outcome (Option Bytes))
      → Owns temps st.made pi.tmp_path
      → ((pi' : ParsedItem) (s : Bytes) (st2 : Scratch)
          → Owns temps st2.made pi'.tmp_path
          → Keeps temps st2 (later pi' s st2))
      → Keeps temps st (item_step broken temps later pi st o)
  unfolding Keeps item_step
  item_step-Keeps later pi st (ok none rest) h k = (omega arith, h)
  item_step-Keeps later pi st (ok (some key) rest) h k =
      item_round-Keeps later _ _ st _ (item_field-Keeps key pi rest st h) k
  item_step-Keeps later pi st (err e) h k = (omega arith, h)
  item_step-Keeps later pi st spent h k = (omega arith, h)

  item_loop-Keeps :
      (rounds : ℕ) (first : Bool) (pi : ParsedItem) (s : Bytes) (st : Scratch)
      → Owns temps st.made pi.tmp_path
      → Keeps temps st (item_loop broken temps rounds first pi s st)
  unfolding Keeps item_loop
  item_loop-Keeps zero first pi s st h = (omega arith, h)
  item_loop-Keeps (suc rounds) first pi s st h =
      item_step-Keeps (item_loop broken temps rounds false) pi st (next_key broken first s) h
        (item_loop-Keeps rounds false)

  item_body-Keeps :
      (o : Outcome (Unit {0})) (st : Scratch) → Keeps temps st (item_body broken temps o st)
  unfolding Keeps item_body
  item_body-Keeps (ok u s) st = item_loop-Keeps (suc (length s)) true no_item s st (inl refl)
  item_body-Keeps (err e) st = (omega arith, inl refl)
  item_body-Keeps spent st = (omega arith, inl refl)

  pub parse_one_item-made :
      (s : Bytes) (st : Scratch) → st.made ≤ (parse_one_item broken temps s st).scratch.made
  unfolding parse_one_item
  parse_one_item-made s st = Keeps-grows st _ (item_body-Keeps (skip_ws_then broken b'{' s) st)

  pub parse_one_item-Owns :
      (s : Bytes) (st : Scratch)
      → Owns temps
          (parse_one_item broken temps s st).scratch.made
          (parse_one_item broken temps s st).item.tmp_path
  unfolding parse_one_item
  parse_one_item-Owns s st = Keeps-Owns st _ (item_body-Keeps (skip_ws_then broken b'{' s) st)
