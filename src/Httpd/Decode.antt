-- ===== src/Httpd/Decode.antt =====
-- internal/httpd/clip.go, `decodeAndIngest`: the items of a request's body go to the store, and the
-- temporary files are removed.
pub mod Cleanup
use clipbeam_cli.Prelude.{
  ℕ, zero, suc, ◌+◌, ◌-◌, ◌*◌, ◌/◌, ◌%◌, ◌^◌, ◌≤◌, ◌<◌, ◌≡◌, refl, sym, ap, ◌∙◌, ◌≢◌, ◌↔◌, ◌⊎◌, inl,
  inr, Bool, true, false, not, ◌&&◌, ◌||◌, Option, none, some, List, [], ◌∷◌, ◌++◌, map,
  append_assoc, append-nil, arith, ltb, leb, ◌==◌, if◌then◌else◌, between, ==_iff, lt→ltb, ltb→lt,
  ltb→le, leb→le, leb→lt, le→leb, lt→leb-false, le→ltb-false, All-left, All-right, All-map,
  Bool-cases, Option-cases, length, replicate, take, drop, All, last, get_or, length-append,
  length-take, length-drop, take-append-drop, take-length-append, drop-length-append, All-append,
  All-take, All-drop, Bytes, codes, bytes_eq, bytes_eq_refl, bytes_eq_iff, has_prefix,
  has_prefix-append,
}
use clipbeam_cli.Go.Strconv.{ℤ, pos}
use clipbeam_cli.Disk.{Disk, Node, file, folder, find, remove}
use clipbeam_cli.Sanitize.{kind_text}
use clipbeam_cli.Store.{StoreConfig, Payload}
use clipbeam_cli.Receive.{Json, Call, ReceiveStore}
use clipbeam_cli.Ingest.{IngestItem, IngestError, ClipResponse, Reply, accepted, refused, ingest}
use clipbeam_cli.Httpd.Outcome.{
  ClipError, malformed, unsupported_envelope, ingest_error, Outcome, ok, err, spent,
}
use clipbeam_cli.Httpd.Clip.{ParsedItem, Scratch, TempFiles}
use clipbeam_cli.Httpd.Envelope.{Envelope, Parsed, parse_envelope_streaming}

-- The reply, the error, or `exhausted` where the rounds of the model were not enough.
pub data Served : Type 0 where
  answered : ClipResponse → Served
  failed : ClipError → Served
  exhausted : Served

pub is_one : ℤ → Bool
is_one (pos n) = n == 1
is_one n = false

opened : Option Node → Option Bytes
opened (some (file bytes)) = some bytes
opened _ = none

open_reader : ParsedItem → Disk → Option Bytes
open_reader pi d = if bytes_eq pi.kind kind_text then some pi.text else opened (find pi.tmp_path d)

with_reader :
    Call → Bytes → ParsedItem → Option Bytes → Option (List IngestItem) → Option (List IngestItem)
with_reader call channel pi (some bytes) (some items) = some (
    record {
      call = call;
      kind = pi.kind;
      name = pi.name;
      uti = pi.uti;
      channel = channel;
      reader = record { bytes = bytes; broken = none };
    }
    ∷ items)
with_reader call channel pi _ _ = none

-- The items with their readers, numbered from `n` for the surroundings of their saves; `none` where a temporary file
-- does not open.
pub open_items : (ℕ → Call) → ℕ → Bytes → Disk → List ParsedItem → Option (List IngestItem)
open_items calls n channel d [] = some []
open_items calls n channel d (pi ∷ items) =
    with_reader (calls n) channel pi (open_reader pi d) (open_items calls (suc n) channel d items)

-- os.Remove of each.
pub remove_all : List Bytes → Disk → Disk
remove_all [] d = d
remove_all (path ∷ paths) d = remove_all paths (remove path d)

clean : List Bytes → Served × ReceiveStore → Served × ReceiveStore
clean tmps (r, s) = (r, record s { disk = remove_all tmps s.disk })

served : Reply × ReceiveStore → Served × ReceiveStore
served (accepted r, s) = (answered r, s)
served (refused e, s) = (failed (ingest_error e), s)

module _ (json : Json) (cfg : StoreConfig) (resolve : Bytes → Option Bytes) (max_bytes : ℕ)
    (temps : TempFiles) (calls : ℕ → Call) where
  ingest_opened : Option (List IngestItem) → ReceiveStore → Served × ReceiveStore
  ingest_opened none s = (failed malformed, s)
  ingest_opened (some items) s = served (ingest json cfg resolve max_bytes (calls 0) items s)

  -- The envelope's version and count, then the items.
  ingest_envelope : Envelope → ReceiveStore → Served × ReceiveStore
  unfolding ingest_opened
  ingest_envelope env s =
      if not (is_one env.version) || (length env.items == 0)
      then (failed unsupported_envelope, s)
      else ingest_opened (open_items calls 1 env.channel s.disk env.items) s

  ingest_parsed : Envelope → Outcome (Unit {0}) → ReceiveStore → Served × ReceiveStore
  unfolding ingest_envelope
  ingest_parsed env (ok u rest) s = ingest_envelope env s
  ingest_parsed env (err e) s = (failed e, s)
  ingest_parsed env spent s = (exhausted, s)

  pub decode_and_ingest : Option ClipError → Bytes → ReceiveStore → Served × ReceiveStore
  unfolding ingest_parsed clean
  decode_and_ingest broken body s =
      let p = parse_envelope_streaming broken temps body (record { disk = s.disk; made = 0 }) in
      clean p.envelope.tmps
        (ingest_parsed p.envelope p.outcome (record s { disk = p.scratch.disk }))
