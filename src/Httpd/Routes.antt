-- ===== src/Httpd/Routes.antt =====
-- internal/httpd/routes.go: the routes besides /clip, and the table of all.
pub mod Refused
use clipbeam_cli.Prelude.{
  ℕ, zero, suc, ◌+◌, ◌-◌, ◌*◌, ◌/◌, ◌%◌, ◌^◌, ◌≤◌, ◌<◌, ◌≡◌, refl, sym, ap, ◌∙◌, ◌≢◌, ◌↔◌, ◌⊎◌, inl,
  inr, Bool, true, false, not, ◌&&◌, ◌||◌, Option, none, some, List, [], ◌∷◌, ◌++◌, map,
  append_assoc, append-nil, arith, ltb, leb, ◌==◌, if◌then◌else◌, between, ==_iff, lt→ltb, ltb→lt,
  ltb→le, leb→le, leb→lt, le→leb, lt→leb-false, le→ltb-false, All-left, All-right, All-map,
  Bool-cases, Option-cases, length, replicate, take, drop, All, last, get_or, length-append,
  length-take, length-drop, take-append-drop, take-length-append, drop-length-append, All-append,
  All-take, All-drop, Bytes, codes, bytes_eq, bytes_eq_refl, bytes_eq_iff, has_prefix,
  has_prefix-append,
}
use clipbeam_cli.Go.Strings.{is_empty, last_index}
use clipbeam_cli.Go.Strconv.{ℤ, pos, atoi}
use clipbeam_cli.Disk.{Disk, Node, file, folder, find}
use clipbeam_cli.Sanitize.{kind_file, kind_text}
use clipbeam_cli.Store.{Result, ok, err, StoreError, Payload}
use clipbeam_cli.Receive.{AgentItem, ReceiveStore, last_path_of}
use clipbeam_cli.Ingest.{
  IngestItem, IngestError, store_error, Reply, accepted, refused, ingest, channel_clipboard,
}
use clipbeam_cli.Httpd.Outcome.{ClipError, over_ceiling, io_error, ingest_error}
use clipbeam_cli.Httpd.Gate.{Options, Request, Refusal, max_bytes_of, control_authorized}
use clipbeam_cli.Httpd.Response.{
  HttpReply, error_reply, sent_items, recv_reply, health_reply, no_content, write_413,
  write_bare_path, write_clip_error,
}
use clipbeam_cli.Httpd.Clips.{
  Surroundings, limited, reader_limit, over, over_unknown, ceiling, handle_clip,
}

-- A request with what the handlers read of its URL and headers; an absent value is empty.
pub record Control : Type 0 where
  pub request : Request
  pub path : Bytes
  pub file_query : Bytes
  pub timeout_query : Bytes
  pub channel_header : Bytes
  pub kind_header : Bytes
  pub file_header : Bytes

-- The surroundings, with os.Hostname, the texts of a failing os.Open and of ingest's errors, and what Store.Recv (for a poll of so many seconds) and
-- Store.WaitForNext come to.
pub record Host : Type 0 where
  pub around : Surroundings
  pub name : Bytes
  pub goos : Bytes
  pub open_text : Bytes → Bytes
  pub ingest_text : IngestError → Bytes
  pub recv : ℕ → ReceiveStore → Result (Option AgentItem) × ReceiveStore
  pub wait : ReceiveStore → Result Bytes × ReceiveStore

abbrev pub recv_default_timeout : ℕ
recv_default_timeout = 120

-- A folder opens, and fails when it is read (EISDIR).
payload_of : Node → Payload
payload_of (file bytes) = record { bytes = bytes; broken = none }
payload_of folder = record { bytes = []; broken = some 21 }

open_file : Bytes → Disk → Option Payload
open_file path d = elim (find path d) [ none ↦ none | some node ↦ some (payload_of node) ]

leaf_of : Bytes → Bytes
leaf_of path = elim (last_index b'/' path) [ none ↦ path | some i ↦ drop (suc i) path ]

pub header_or : Bytes → Bytes → Bytes
header_or v default = if is_empty v then default else v

timeout_of : Option ℤ → ℕ
timeout_of (some (pos n)) = n
timeout_of n = recv_default_timeout

pub poll_seconds : Bytes → ℕ
unfolding timeout_of
poll_seconds q = if is_empty q then recv_default_timeout else timeout_of (atoi q)

-- Seconds until the request's context ends.
pub recv_deadline : ℕ → ℕ
recv_deadline timeout = timeout + 15

method_not_allowed : HttpReply
method_not_allowed = error_reply 405 (codes "method not allowed")

module _ (h : Host) (o : Options) where
  -- The method, then the gate of the control routes, then the work.
  pub control :
      Bytes
      → (ReceiveStore → HttpReply × ReceiveStore)
      → Request
      → ReceiveStore
      → HttpReply × ReceiveStore
  unfolding method_not_allowed
  control method work r s =
      if bytes_eq r.method method
      then elim (control_authorized h.around.platform o r) [
        | some refusal ↦ (error_reply refusal.0 refusal.1, s)
        | none ↦ work s
      ]
      else (method_not_allowed, s)

  ingest_one : Bytes → Bytes → Bytes → Payload → ReceiveStore → Reply × ReceiveStore
  ingest_one kind name channel reader s =
      ingest h.around.json h.around.store h.around.resolve (max_bytes_of o) (h.around.calls 0)
        (record {
          call = h.around.calls 1;
          kind = kind;
          name = name;
          uti = [];
          channel = channel;
          reader = reader;
        }
          ∷ [])
        s

  write_sent : Reply × ReceiveStore → HttpReply × ReceiveStore
  write_sent (accepted c, s) = (sent_items c.count, s)
  write_sent (refused e, s) = (write_clip_error h.around.error_text (ingest_error e), s)

  -- /push hands every error on as a 500 with its text.
  write_pushed : Reply × ReceiveStore → HttpReply × ReceiveStore
  write_pushed (accepted c, s) = (sent_items c.count, s)
  write_pushed (refused e, s) = (error_reply 500 (h.ingest_text e), s)

  push_opened : Bytes → Option Payload → ReceiveStore → HttpReply × ReceiveStore
  unfolding leaf_of ingest_one write_pushed
  push_opened path none s = (error_reply 500 (h.open_text path), s)
  push_opened path (some reader) s =
      write_pushed (ingest_one kind_file (leaf_of path) channel_clipboard reader s)

  pub push_file : Bytes → ReceiveStore → HttpReply × ReceiveStore
  unfolding push_opened open_file
  push_file path s = push_opened path (open_file path s.disk) s

  pub handle_push : Control → ReceiveStore → HttpReply × ReceiveStore
  unfolding control push_file
  handle_push c s =
      control (codes "POST")
        (λ s'. if is_empty c.file_query then (sent_items 0, s') else push_file c.file_query s')
        c.request s

  send_read : Bytes → Bytes × Option ClipError → ReceiveStore → HttpReply × ReceiveStore
  unfolding ingest_one write_sent
  send_read channel (text, none) s =
      write_sent (ingest_one kind_text [] channel (record { bytes = text; broken = none }) s)
  send_read channel (text, some over_ceiling) s = (write_413, s)
  send_read channel (text, some e) s = (error_reply 400 (codes "read error"), s)

  -- By the declared length: `none` is read as it comes, and 0 is the empty text.
  send_text : Bytes → Option ℕ → Request → ReceiveStore → HttpReply × ReceiveStore
  unfolding send_read
  send_text channel none r s =
      if over_unknown (ceiling h.around o)
      then (write_413, s)
      else send_read channel (limited (reader_limit (ceiling h.around o)) r.body r.broken) s
  send_text channel (some zero) r s =
      if over (ceiling h.around o) 0 then (write_413, s) else send_read channel ([], none) s
  send_text channel (some (suc n)) r s =
      if over (ceiling h.around o) (suc n)
      then (write_413, s)
      else send_read channel (limited (reader_limit (ceiling h.around o)) r.body r.broken) s

  pub agent_send_text : Bytes → Request → ReceiveStore → HttpReply × ReceiveStore
  unfolding send_text
  agent_send_text channel r s = send_text channel r.content_length r s

  send_opened : Bytes → Bytes → Option Payload → ReceiveStore → HttpReply × ReceiveStore
  unfolding leaf_of ingest_one write_sent
  send_opened channel path none s = (error_reply 500 (h.open_text path), s)
  send_opened channel path (some reader) s =
      write_sent (ingest_one kind_file (leaf_of path) channel reader s)

  pub agent_send_file : Bytes → Bytes → ReceiveStore → HttpReply × ReceiveStore
  unfolding send_opened open_file
  agent_send_file channel path s =
      if is_empty path
      then (error_reply 400 (codes "missing file header"), s)
      else send_opened channel path (open_file path s.disk) s

  send_by_kind : Bytes → Bytes → Control → ReceiveStore → HttpReply × ReceiveStore
  unfolding agent_send_text agent_send_file
  send_by_kind channel kind c s =
      if bytes_eq kind kind_text
      then agent_send_text channel c.request s
      else if bytes_eq kind kind_file
      then agent_send_file channel c.file_header s
      else (sent_items 0, s)

  pub handle_agent_send : Control → ReceiveStore → HttpReply × ReceiveStore
  unfolding control send_by_kind header_or
  handle_agent_send c s =
      control (codes "POST")
        (send_by_kind (header_or c.channel_header channel_clipboard)
          (header_or c.kind_header (codes "clipboard")) c)
        c.request s

  write_recv : Result (Option AgentItem) × ReceiveStore → HttpReply × ReceiveStore
  write_recv (ok none, s) = (no_content, s)
  write_recv (ok (some item), s) = (recv_reply item, s)
  write_recv (err e, s) = (error_reply 500 (h.ingest_text (store_error e)), s)

  -- The poll ends at the requested time, or at the deadline where that is sooner.
  pub handle_recv : Control → ReceiveStore → HttpReply × ReceiveStore
  unfolding control write_recv poll_seconds recv_deadline
  handle_recv c s =
      let n = poll_seconds c.timeout_query in
      control (codes "GET")
        (λ s'. write_recv (h.recv (if ltb (recv_deadline n) n then recv_deadline n else n) s'))
        c.request s

  pub handle_last : Control → ReceiveStore → HttpReply × ReceiveStore
  unfolding control
  handle_last c s =
      control (codes "GET")
        (λ s'. elim (last_path_of s') [
          | some path ↦ (write_bare_path path, s')
          | none ↦ (write_bare_path [], s')
        ])
        c.request s

  write_wait : Result Bytes × ReceiveStore → HttpReply × ReceiveStore
  write_wait (ok path, s) = (write_bare_path path, s)
  write_wait (err e, s) = (error_reply 500 (h.ingest_text (store_error e)), s)

  pub handle_wait : Control → ReceiveStore → HttpReply × ReceiveStore
  unfolding control write_wait
  handle_wait c s = control (codes "GET") (λ s'. write_wait (h.wait s')) c.request s

  pub handle_health : Control → HttpReply
  unfolding method_not_allowed
  handle_health c =
      if bytes_eq c.request.method (codes "GET")
      then health_reply h.name h.goos
      else method_not_allowed

  kept : Bool → HttpReply × ReceiveStore → HttpReply × (Bool × ReceiveStore)
  kept slot (reply, s) = (reply, (slot, s))

  -- The table of `routes`, with the 404 of the mux; the state is the slot of /clip and the store.
  pub serve : Control → Bool × ReceiveStore → HttpReply × (Bool × ReceiveStore)
  unfolding kept
  serve c (slot, s) =
      if bytes_eq c.path (codes "/health")
      then (handle_health c, (slot, s))
      else if bytes_eq c.path (codes "/clip")
      then handle_clip h.around o c.request slot s
      else if bytes_eq c.path (codes "/push")
      then kept slot (handle_push c s)
      else if bytes_eq c.path (codes "/agent-send")
      then kept slot (handle_agent_send c s)
      else if bytes_eq c.path (codes "/recv")
      then kept slot (handle_recv c s)
      else if bytes_eq c.path (codes "/last")
      then kept slot (handle_last c s)
      else if bytes_eq c.path (codes "/wait")
      then kept slot (handle_wait c s)
      else (error_reply 404 (codes "404 page not found"), (slot, s))
