-- ===== src/Receive.antt =====
-- internal/store/concrete.go: the two channels of the receive side, over the save pipeline of
-- module Store; internal/store/recents.go and the write side of internal/store/agentjournal.go.
-- `resolve` is filepath.EvalSymlinks, `Json` the JSON encoding of the two files that are written
-- in it.
pub mod Counts
pub mod Durable
pub mod Recents
pub mod LastPath
pub mod Tests
use clipbeam_cli.Prelude.{
  ℕ, zero, suc, ◌+◌, ◌-◌, ◌*◌, ◌/◌, ◌%◌, ◌^◌, ◌≤◌, ◌<◌, ◌≡◌, refl, sym, ap, ◌∙◌, ◌≢◌, ◌↔◌, ◌⊎◌, inl,
  inr, Bool, true, false, not, ◌&&◌, ◌||◌, Option, none, some, List, [], ◌∷◌, ◌++◌, map,
  append_assoc, append-nil, arith, ltb, leb, ◌==◌, if◌then◌else◌, between, ==_iff, lt→ltb, ltb→lt,
  ltb→le, leb→le, leb→lt, le→leb, lt→leb-false, le→ltb-false, All-left, All-right, All-map,
  Bool-cases, Option-cases, length, replicate, take, drop, All, last, get_or, length-append,
  length-take, length-drop, take-append-drop, take-length-append, drop-length-append, All-append,
  All-take, All-drop, Bytes, codes, bytes_eq, bytes_eq_refl, bytes_eq_iff, has_prefix,
  has_prefix-append,
}
use clipbeam_cli.Go.Paths
use clipbeam_cli.Go.Clock.{Time}
use clipbeam_cli.Go.Strings.{is_empty}
use clipbeam_cli.Sanitize.{itoa, text_file_name, kind_image, kind_file}
use clipbeam_cli.Disk.{Disk, Node, file, find}
use clipbeam_cli.Waiters.{Fifo, enqueue}
use clipbeam_cli.Waiters.Paths.{PathWaiters, resume}
use clipbeam_cli.Store.{
  StoreConfig, Result, ok, err, os_error, Payload, Os, Fault, save_stream, write_bytes_atomic,
}

pub record AgentItem : Type 0 where
  pub kind : Bytes
  pub sender : Bytes
  pub path : Option Bytes
  pub text : Option Bytes

pub record Recent : Type 0 where
  pub path : Bytes
  pub sender : Bytes
  pub time : Time

pub record JournalRecord : Type 0 where
  pub kind : Bytes
  pub sender : Bytes
  pub path : Bytes
  pub has_text : Bool
  pub text : Bytes

pub record Json : Type 0 where
  pub encode_recents : List Recent → Bytes
  pub decode_recents : Bytes → Option (List Recent)
  pub encode_record : JournalRecord → Bytes
  pub decode_record : Bytes → Option JournalRecord

pub record ReceiveStore : Type 0 where
  pub last_path : Bytes
  pub agent : Fifo AgentItem
  pub clip_wait : PathWaiters
  pub disk : Disk

-- The surroundings of one call: those of the save, the outcomes and temporary names of the small
-- atomic writes, and for the journal the clock in nanoseconds, the sequence number and the errno
-- of MkdirAll, if it fails.
pub record Call : Type 0 where
  pub os : Os
  pub last_path_fault : Fault
  pub last_path_random : Bytes
  pub recents_fault : Fault
  pub recents_random : Bytes
  pub journal_fault : Fault
  pub journal_random : Bytes
  pub mkdir_error : Option ℕ
  pub nanos : ℕ
  pub sequence : ℕ

abbrev pub recents_cap : ℕ
recents_cap = 20

-- `%020d`
pad : ℕ → Bytes
pad n = (let s = itoa n in replicate (20 - length s) b'0' ++ s)

pub journal_name : ℕ → ℕ → Bytes
unfolding pad
journal_name nanos sequence = itoa nanos ++ b'-' ∷ (pad sequence ++ codes ".json")

pub journal_dir : Bytes → Bytes
journal_dir inbox = Paths.join inbox (codes "journal")

pub contents : Option Node → Option Bytes
contents (some (file bytes)) = some bytes
contents _ = none

module _ (json : Json) (cfg : StoreConfig) (resolve : Bytes → Option Bytes) where
  pub or_empty : Option (List Recent) → List Recent
  or_empty (some recents) = recents
  or_empty none = []

  pub recents_in : Option Bytes → List Recent
  recents_in none = []
  recents_in (some bytes) = or_empty (json.decode_recents bytes)

  -- Missing, unreadable and undecodable files all read as no entries.
  pub load_recents : Disk → List Recent
  load_recents d = recents_in (contents (find cfg.recents_file d))

  pub keep_last : List Recent → List Recent
  keep_last recents =
      if ltb recents_cap (length recents)
      then drop (length recents - recents_cap) recents
      else recents

  unfoldable pub append_recents : Call → List Bytes → Bytes → Disk → Disk
  unfolding load_recents keep_last
  append_recents call [] sender d = d
  append_recents call (p ∷ paths) sender d =
      let entry : Bytes → Recent = λ q. record { path = q; sender = sender; time = call.os.now } in
      let recents = keep_last (load_recents d ++ map entry (p ∷ paths)) in
      (write_bytes_atomic call.recents_fault call.recents_random cfg.recents_file
        (json.encode_recents recents) d).1

  on_disk : {A : Type 0} → ReceiveStore → Result A × Disk → Result A × ReceiveStore
  on_disk s (r, d) = (r, record s { disk = d })

  pub save_clipboard_item :
      Call → Bytes → Bytes → Bytes → Payload → ReceiveStore → Result (Bytes × ℕ) × ReceiveStore
  save_clipboard_item call name kind uti r s =
      on_disk s (save_stream resolve call.os cfg.save_dir name kind uti r s.disk)

  wrote : Result (Bytes × ℕ) × ReceiveStore → Result (Option (Bytes × ℕ)) × ReceiveStore
  wrote (ok saved, s) = (ok (some saved), s)
  wrote (err e, s) = (err e, s)

  -- `none` is the text that is not written: ("", false, 0, nil).
  pub save_clipboard_text : Call → Bytes → ReceiveStore → Result (Option (Bytes × ℕ)) × ReceiveStore
  save_clipboard_text call text s =
      if not cfg.save_text_to_disk && leb (length text) cfg.long_text_threshold
      then (ok none, s)
      else wrote (
          on_disk s (
            save_stream resolve call.os cfg.save_dir (text_file_name call.os.now) kind_file
              (codes "public.plain-text") (record { bytes = text; broken = none }) s.disk))

  pub finish_clipboard : Call → Bytes → List Bytes → ReceiveStore → ReceiveStore
  finish_clipboard call sender [] s = s
  finish_clipboard call sender (p ∷ paths) s =
      let newest = last p paths in
      let d =
        (write_bytes_atomic call.last_path_fault call.last_path_random cfg.last_path_file newest
          s.disk).1 in
      record s {
        last_path = newest;
        disk = append_recents call (p ∷ paths) sender d;
        clip_wait = resume newest s.clip_wait;
      }

  -- The record is written unless MkdirAll failed.
  pub append_record : Call → JournalRecord → Disk → Option ℕ → Option ℕ × Disk
  append_record call rec d (some e) = (some e, d)
  append_record call rec d none =
      write_bytes_atomic call.journal_fault call.journal_random
        (Paths.join (journal_dir cfg.agent_inbox_dir) (journal_name call.nanos call.sequence))
        (json.encode_record rec) d

  -- The error of the journal write, if any, and the disk.
  pub write_agent_journal : Call → JournalRecord → Disk → Option ℕ × Disk
  write_agent_journal call rec d = append_record call rec d call.mkdir_error

  pub journalled : {A : Type 0} → A → ReceiveStore → Option ℕ × Disk → Result A × ReceiveStore
  journalled a s (some e, d) = (err (os_error e), record s { disk = d })
  journalled a s (none, d) = (ok a, record s { disk = d })

  pub with_journal :
      {A : Type 0} → Call → JournalRecord → A → ReceiveStore → Result A × ReceiveStore
  with_journal call rec a s =
      if cfg.journal_agent_items
      then journalled a s (write_agent_journal call rec s.disk)
      else (ok a, s)

  pub put_item : AgentItem → ReceiveStore → ReceiveStore
  put_item item s = record s { agent = enqueue (item ∷ []) s.agent }

  pub agent_saved :
      Call → Bytes → Bytes → Result (Bytes × ℕ) × ReceiveStore → Result (Bytes × ℕ) × ReceiveStore
  agent_saved call sender kind (err e, s) = (err e, s)
  agent_saved call sender kind (ok (path, n), s) =
      let atype = if bytes_eq kind kind_image then codes "image" else codes "file" in
      let rec : JournalRecord = record {
        kind = atype;
        sender = sender;
        path = path;
        has_text = false;
        text = [];
      } in
      with_journal call rec (path, n)
        (put_item (record { kind = atype; sender = sender; path = some path; text = none }) s)

  pub save_agent_item :
      Call
      → Bytes
      → Bytes
      → Bytes
      → Bytes
      → Payload
      → ReceiveStore
      → Result (Bytes × ℕ) × ReceiveStore
  save_agent_item call sender name kind uti r s =
      agent_saved call sender kind
        (on_disk s (save_stream resolve call.os cfg.agent_inbox_dir name kind uti r s.disk))

  pub enqueue_agent_text : Call → Bytes → Bytes → ReceiveStore → Result (Unit {0}) × ReceiveStore
  enqueue_agent_text call sender text s =
      let rec : JournalRecord = record {
        kind = codes "text";
        sender = sender;
        path = [];
        has_text = true;
        text = text;
      } in
      with_journal call rec tt (
        put_item (record { kind = codes "text"; sender = sender; path = none; text = some text }) s)

-- ("", false) is `none`.
pub last_path_of : ReceiveStore → Option Bytes
unfolding is_empty
last_path_of s = if is_empty s.last_path then none else some s.last_path
