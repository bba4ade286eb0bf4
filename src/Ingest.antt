-- ===== src/Ingest.antt =====
-- internal/ingest/ingest.go: the one way from any transport into the store. An item comes with
-- the surroundings of the calls that save it (`Call` of module Receive).
pub mod Rounds
pub mod Counted
mod Tests
use clipbeam_cli.Prelude.{
  ℕ, zero, suc, ◌+◌, ◌-◌, ◌*◌, ◌/◌, ◌%◌, ◌^◌, ◌≤◌, ◌<◌, ◌≡◌, refl, sym, ap, ◌∙◌, ◌≢◌, ◌↔◌, ◌⊎◌, inl,
  inr, Bool, true, false, not, ◌&&◌, ◌||◌, Option, none, some, List, [], ◌∷◌, ◌++◌, map,
  append_assoc, append-nil, arith, ltb, leb, ◌==◌, if◌then◌else◌, between, ==_iff, lt→ltb, ltb→lt,
  ltb→le, leb→le, leb→lt, le→leb, lt→leb-false, le→ltb-false, All-left, All-right, All-map,
  Bool-cases, Option-cases, length, replicate, take, drop, All, last, get_or, length-append,
  length-take, length-drop, take-append-drop, take-length-append, drop-length-append, All-append,
  All-take, All-drop, Bytes, codes, bytes_eq, bytes_eq_refl, bytes_eq_iff, has_prefix,
  has_prefix-append,
}
use clipbeam_cli.Sanitize.{kind_image, kind_file, kind_text}
use clipbeam_cli.Disk.{remove}
use clipbeam_cli.Store.{StoreConfig, StoreError, Result, ok, err, Payload}
use clipbeam_cli.Receive.{
  Json, Call, ReceiveStore, save_clipboard_item, save_clipboard_text, finish_clipboard,
  save_agent_item, enqueue_agent_text,
}

abbrev pub channel_clipboard : Bytes
channel_clipboard = codes "clipboard"

abbrev pub channel_agent : Bytes
channel_agent = codes "agent"

-- A missing reader is a payload with no bytes.
pub record IngestItem : Type 0 where
  pub call : Call
  pub kind : Bytes
  pub name : Bytes
  pub uti : Bytes
  pub channel : Bytes
  pub reader : Payload

-- ErrTooLarge, ErrMalformed, and an error of the store as `classifyStoreErr` hands it on, the
-- path escape among them.
pub data IngestError : Type 0 where
  too_large : IngestError
  malformed : IngestError
  store_error : StoreError → IngestError

pub record ClipResponse : Type 0 where
  pub saved : List Bytes
  pub count : ℕ

pub data Reply : Type 0 where
  accepted : ClipResponse → Reply
  refused : IngestError → Reply

-- One round of a loop: the path to append, if any, and the new total; or the return.
pub data Round : Type 0 where
  next : Option Bytes → ℕ → ReceiveStore → Round
  stop : IngestError → ReceiveStore → Round

append_path : List Bytes → Option Bytes → List Bytes
append_path saved none = saved
append_path saved (some path) = saved ++ path ∷ []

-- `readText`: `none` is its error.
pub read_text : Payload → Option Bytes
read_text r = elim r.broken [ none ↦ some r.bytes | some e ↦ none ]

-- A loop's return, or its next round.
pub go_on :
    (Option Bytes → ℕ → ReceiveStore → (List Bytes ⊎ IngestError) × ReceiveStore)
    → Round
    → (List Bytes ⊎ IngestError) × ReceiveStore
go_on later (stop e s) = (inr e, s)
go_on later (next path total s) = later path total s

is_payload_kind : Bytes → Bool
unfolding bytes_eq
is_payload_kind kind = bytes_eq kind kind_image || bytes_eq kind kind_file

module _ (json : Json) (cfg : StoreConfig) (resolve : Bytes → Option Bytes) (max_bytes : ℕ) where
  -- Write, add, check; the file of the item that is too much is removed.
  pub check_total : ℕ → Result (Bytes × ℕ) × ReceiveStore → Round
  check_total total (err e, s) = stop (store_error e) s
  check_total total (ok (path, n), s) =
      if ltb max_bytes (total + n)
      then stop too_large (record s { disk = remove path s.disk })
      else next (some path) (total + n) s

  pub check_text : ℕ → Result (Option (Bytes × ℕ)) × ReceiveStore → Round
  check_text total (err e, s) = stop (store_error e) s
  check_text total (ok none, s) = next none total s
  check_text total (ok (some saved), s) = check_total total (ok saved, s)

  pub clip_text : Call → ℕ → ReceiveStore → Option Bytes → Round
  clip_text call total s none = stop malformed s
  clip_text call total s (some text) =
      check_text total (save_clipboard_text json cfg resolve call text s)

  pub clip_round : IngestItem → ℕ → ReceiveStore → Round
  clip_round it total s =
      if is_payload_kind it.kind
      then check_total total
          (save_clipboard_item json cfg resolve it.call it.name it.kind it.uti it.reader s)
      else if bytes_eq it.kind kind_text
      then clip_text it.call total s (read_text it.reader)
      else stop malformed s

  pub agent_done : ℕ → Result (Unit {0}) × ReceiveStore → Round
  agent_done total (err e, s) = stop (store_error e) s
  agent_done total (ok u, s) = next none total s

  pub agent_text : Call → ℕ → ReceiveStore → Option Bytes → Round
  agent_text call total s none = stop malformed s
  agent_text call total s (some text) =
      if ltb max_bytes (total + length text)
      then stop too_large s
      else agent_done (total + length text) (enqueue_agent_text json cfg resolve call [] text s)

  pub agent_round : IngestItem → ℕ → ReceiveStore → Round
  agent_round it total s =
      if is_payload_kind it.kind
      then check_total total
          (save_agent_item json cfg resolve it.call [] it.name it.kind it.uti it.reader s)
      else if bytes_eq it.kind kind_text
      then agent_text it.call total s (read_text it.reader)
      else stop malformed s

  -- The loop over the items, with the paths saved and the total so far.
  pub run :
      (IngestItem → ℕ → ReceiveStore → Round)
      → List IngestItem
      → List Bytes
      → ℕ
      → ReceiveStore
      → (List Bytes ⊎ IngestError) × ReceiveStore
  run round [] saved total s = (inl saved, s)
  run round (it ∷ items) saved total s =
      go_on (λ path total' s'. run round items (append_path saved path) total' s')
        (round it total s)

  finish_clip : Call → ℕ → (List Bytes ⊎ IngestError) × ReceiveStore → Reply × ReceiveStore
  finish_clip call count (inr e, s) = (refused e, s)
  finish_clip call count (inl saved, s) = (
    accepted (record { saved = saved; count = count }),
    finish_clipboard json cfg resolve call [] saved s,
  )

  pub ingest_clipboard : Call → List IngestItem → ReceiveStore → Reply × ReceiveStore
  ingest_clipboard call items s = finish_clip call (length items) (run clip_round items [] 0 s)

  finish_agent : ℕ → (List Bytes ⊎ IngestError) × ReceiveStore → Reply × ReceiveStore
  finish_agent count (inr e, s) = (refused e, s)
  finish_agent count (inl saved, s) = (accepted (record { saved = saved; count = count }), s)

  pub ingest_agent : List IngestItem → ReceiveStore → Reply × ReceiveStore
  ingest_agent items s = finish_agent (length items) (run agent_round items [] 0 s)

  -- `Ingest`; the call is that of FinishClipboard.
  pub ingest : Call → List IngestItem → ReceiveStore → Reply × ReceiveStore
  ingest call [] s = (refused malformed, s)
  ingest call (it ∷ items) s =
      if bytes_eq it.channel channel_agent
      then ingest_agent (it ∷ items) s
      else ingest_clipboard call (it ∷ items) s
