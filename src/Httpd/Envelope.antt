-- ===== src/Httpd/Envelope.antt =====
-- internal/httpd/clip.go: the items of a request, the envelope round them, and what becomes of them.
pub mod Ends
pub mod Temps
pub mod Listed
pub mod Print
use clipbeam_cli.Prelude.{
  ℕ, zero, suc, ◌+◌, ◌-◌, ◌*◌, ◌/◌, ◌%◌, ◌^◌, ◌≤◌, ◌<◌, ◌≡◌, refl, sym, ap, ◌∙◌, ◌≢◌, ◌↔◌, ◌⊎◌, inl,
  inr, Bool, true, false, not, ◌&&◌, ◌||◌, Option, none, some, List, [], ◌∷◌, ◌++◌, map,
  append_assoc, append-nil, arith, ltb, leb, ◌==◌, if◌then◌else◌, between, ==_iff, lt→ltb, ltb→lt,
  ltb→le, leb→le, leb→lt, le→leb, lt→leb-false, le→ltb-false, All-left, All-right, All-map,
  Bool-cases, Option-cases, length, replicate, take, drop, All, last, get_or, length-append,
  length-take, length-drop, take-append-drop, take-length-append, drop-length-append, All-append,
  All-take, All-drop, Bytes, codes, bytes_eq, bytes_eq_refl, bytes_eq_iff, has_prefix,
  has_prefix-append,
}
use clipbeam_cli.Go.Strings.{is_empty}
use clipbeam_cli.Go.Strconv.{ℤ, pos}
use clipbeam_cli.Disk.{Disk, Node, file, folder, find, remove}
use clipbeam_cli.Sanitize.{kind_text}
use clipbeam_cli.Store.{StoreConfig, Payload}
use clipbeam_cli.Receive.{Json, Call, ReceiveStore}
use clipbeam_cli.Ingest.{IngestItem, IngestError, ClipResponse, Reply, accepted, refused, ingest}
use clipbeam_cli.Httpd.Outcome.{
  ClipError, malformed, unsupported_envelope, incomplete_body, ingest_error, Outcome, ok, err,
  spent, ◌>>=◌,
}
use clipbeam_cli.Httpd.Json.{
  next_byte, skip_ws, skip_ws_then, read_json_string_value, read_json_string_or_null,
  read_json_number, skip_json_value,
}
use clipbeam_cli.Httpd.Clip.{ParsedItem, Scratch, TempFiles, Field, next_key, parse_one_item}

-- The items so far with the temporary files to remove, as they are at the return.
pub record Items : Type 0 where
  pub items : List ParsedItem
  pub tmps : List Bytes
  pub outcome : Outcome (Unit {0})
  pub scratch : Scratch

pub record Envelope : Type 0 where
  pub version : ℤ
  pub channel : Bytes
  pub items : List ParsedItem
  pub tmps : List Bytes

pub record Parsed : Type 0 where
  pub envelope : Envelope
  pub outcome : Outcome (Unit {0})
  pub scratch : Scratch

abbrev pub no_envelope : Envelope
no_envelope = record { version = pos 0; channel = []; items = []; tmps = [] }

unfoldable pub add_path : List Bytes → Bytes → List Bytes
add_path tmps path = if is_empty path then tmps else tmps ++ path ∷ []

keep {ℓ} : {A : Type ℓ} → (A → Envelope) → Envelope → Outcome A → Scratch → Parsed
keep set env (ok v rest) st = record { envelope = set v; outcome = ok tt rest; scratch = st }
keep set env (err e) st = record { envelope = env; outcome = err e; scratch = st }
keep set env spent st = record { envelope = env; outcome = spent; scratch = st }

channel_unless_null : Envelope → Option Bytes → Envelope
channel_unless_null env none = env
channel_unless_null env (some v) = record env { channel = v }

module _ (broken : Option ClipError) (temps : TempFiles) where
  -- What follows an item: the next one, or the closing bracket.
  items_next : (Bytes → Scratch → Items) → Items → ℕ → Bytes → Items
  items_next later r b s =
      if b == b']'
      then record r { outcome = ok tt s }
      else if b == b','
      then later s r.scratch
      else record r { outcome = err malformed }

  items_after : (Bytes → Scratch → Items) → Items → Outcome ℕ → Items
  unfolding items_next
  items_after later r (ok b s) = items_next later r b s
  items_after later r (err e) = record r { outcome = err e }
  items_after later r spent = record r { outcome = spent }

  -- One item: its file is listed even where it fails.
  items_step :
      (List ParsedItem → List Bytes → Bytes → Scratch → Items)
      → List ParsedItem
      → List Bytes
      → Field
      → Items
  unfolding items_after
  items_step later items tmps f =
      let tmps' = add_path tmps f.item.tmp_path in
      elim f.outcome [
        | ok u rest ↦
            items_after (later (items ++ f.item ∷ []) tmps')
              (record {
                items = items ++ f.item ∷ [];
                tmps = tmps';
                outcome = ok tt rest;
                scratch = f.scratch;
              })
              (skip_ws broken rest >>= λ r. next_byte r.1)
        | err e ↦ record { items = items; tmps = tmps'; outcome = err e; scratch = f.scratch }
        | spent ↦ record { items = items; tmps = tmps'; outcome = spent; scratch = f.scratch }
      ]

  pub items_loop : ℕ → List ParsedItem → List Bytes → Bytes → Scratch → Items
  unfolding items_step
  items_loop zero items tmps s st = record {
    items = items;
    tmps = tmps;
    outcome = spent;
    scratch = st;
  }
  items_loop (suc rounds) items tmps s st =
      items_step (items_loop rounds) items tmps (parse_one_item broken temps s st)

  -- After the opening bracket, whether the array is empty.
  items_body : Scratch → Outcome ℕ → Items
  unfolding items_loop
  items_body st (ok b s) =
      if b == b']'
      then record { items = []; tmps = []; outcome = ok tt s; scratch = st }
      else items_loop (suc (suc (length s))) [] [] (b ∷ s) st
  items_body st (err e) = record { items = []; tmps = []; outcome = err e; scratch = st }
  items_body st spent = record { items = []; tmps = []; outcome = spent; scratch = st }

  pub parse_items_streaming : Bytes → Scratch → Items
  unfolding items_body
  parse_items_streaming s st =
      items_body st
        (do (u, s₁) ← skip_ws_then broken b'[' s; (v, s₂) ← skip_ws broken s₁; next_byte s₂)

  -- The files are listed in any case, the items where there is no error.
  items_field : Envelope → Items → Parsed
  items_field env r =
      let listed = record env { tmps = env.tmps ++ r.tmps } in
      elim r.outcome [
        | ok u rest ↦ record {
          envelope = record listed { items = r.items };
          outcome = ok tt rest;
          scratch = r.scratch;
        }
        | err e ↦ record { envelope = listed; outcome = err e; scratch = r.scratch }
        | spent ↦ record { envelope = listed; outcome = spent; scratch = r.scratch }
      ]

  -- The value of one key.
  pub envelope_field : Bytes → Envelope → Bytes → Scratch → Parsed
  unfolding items_field parse_items_streaming
  envelope_field key env s st =
      if bytes_eq key (codes "version")
      then keep (λ n. record env { version = n }) env (read_json_number broken s) st
      else if bytes_eq key (codes "sender")
      then keep (λ v. env) env (read_json_string_value broken s) st
      else if bytes_eq key (codes "channel")
      then keep (channel_unless_null env) env (read_json_string_or_null broken s) st
      else if bytes_eq key (codes "items")
      then items_field env (parse_items_streaming s st)
      else keep (λ u. env) env (skip_json_value broken (suc (length s)) s) st

  envelope_round : (Envelope → Bytes → Scratch → Parsed) → Parsed → Parsed
  envelope_round later p = elim p.outcome [
    | ok u rest ↦ later p.envelope rest p.scratch
    | err e ↦ p
    | spent ↦ p
  ]

  envelope_step :
      (Envelope → Bytes → Scratch → Parsed) → Envelope → Scratch → Outcome (Option Bytes) → Parsed
  unfolding envelope_field envelope_round
  envelope_step later env st (ok none rest) = record {
    envelope = env;
    outcome = ok tt rest;
    scratch = st;
  }
  envelope_step later env st (ok (some key) rest) =
      envelope_round later (envelope_field key env rest st)
  envelope_step later env st (err e) = record { envelope = env; outcome = err e; scratch = st }
  envelope_step later env st spent = record { envelope = env; outcome = spent; scratch = st }

  pub envelope_loop : ℕ → Bool → Envelope → Bytes → Scratch → Parsed
  unfolding envelope_step
  envelope_loop zero first env s st = record { envelope = env; outcome = spent; scratch = st }
  envelope_loop (suc rounds) first env s st =
      envelope_step (envelope_loop rounds false) env st (next_key broken first s)

  envelope_body : Outcome (Unit {0}) → Scratch → Parsed
  unfolding envelope_loop
  envelope_body (ok u s) st = envelope_loop (suc (length s)) true no_envelope s st
  envelope_body (err e) st = record { envelope = no_envelope; outcome = err e; scratch = st }
  envelope_body spent st = record { envelope = no_envelope; outcome = spent; scratch = st }

  -- `expectByte` is `skipWSThen` under another name.
  pub parse_envelope_streaming : Bytes → Scratch → Parsed
  unfolding envelope_body
  parse_envelope_streaming s st = envelope_body (skip_ws_then broken b'{' s) st
