-- ===== src/Httpd/Response.antt =====
-- internal/httpd/response.go: the bodies that are built by hand.
use clipbeam_cli.Prelude.{
  ℕ, ◌||◌, Option, none, some, [], ◌∷◌, ◌++◌, map, ◌==◌, if◌then◌else◌, Bytes, codes,
}
use clipbeam_cli.Go.Strings.{is_empty}
use clipbeam_cli.Store.{StoreError, path_escape, os_error}
use clipbeam_cli.Receive.{AgentItem}
use clipbeam_cli.Ingest
use clipbeam_cli.Ingest.{ClipResponse, IngestError, too_large, store_error}
use clipbeam_cli.Httpd.Outcome.{
  ClipError, malformed, unsupported_envelope, incomplete_body, bad_json_string, over_ceiling,
  io_error, unexpected_eof, ingest_error,
}

-- One character of `sanitizeReason`.
abbrev safe_char : ℕ → ℕ
safe_char c =
    if c == 92 then b'/' else if c == 34 then 39 else if c == 10 || c == 13 then b' ' else c

pub sanitize_reason : Bytes → Bytes
sanitize_reason reason = map safe_char reason

-- The JSON body of an error.
pub error_body : Bytes → Bytes
unfolding sanitize_reason
error_body reason =
    codes "{"
    ++ (34 ∷ codes "ok")
    ++ (34 ∷ codes ":false,")
    ++ (34 ∷ codes "error")
    ++ (34 ∷ codes ":")
    ++ (34 ∷ (sanitize_reason reason ++ (34 ∷ codes "}")))

-- The labels of a body of /recv.
abbrev pub optional_line : Bytes → Option Bytes → Bytes
optional_line label none = []
optional_line label (some value) = 10 ∷ (label ++ value)

unfoldable pub recv_body_string : AgentItem → Bytes
recv_body_string item =
    codes "type: "
    ++ (item.kind
        ++ (10
            ∷ (codes "sender: "
                ++ (item.sender
                    ++ (optional_line (codes "path: ") item.path
                        ++ optional_line (codes "text: ") item.text)))))

-- What a handler writes: an error with its reason, the 200 of /clip, /push and /agent-send, /last and /wait, /recv
-- and /health, or a 204.
pub data HttpReply : Type 0 where
  error_reply : ℕ → Bytes → HttpReply
  clip_reply : ClipResponse → HttpReply
  sent_items : ℕ → HttpReply
  path_reply : Bytes → HttpReply
  recv_reply : AgentItem → HttpReply
  health_reply : Bytes → Bytes → HttpReply
  no_content : HttpReply

unfoldable pub status_of : HttpReply → ℕ
status_of (error_reply status reason) = status
status_of no_content = 204
status_of reply = 200

-- `writeBarePath`
unfoldable pub write_bare_path : Bytes → HttpReply
write_bare_path path = if is_empty path then no_content else path_reply path

abbrev pub write_413 : HttpReply
write_413 = error_reply 413 (codes "payload too large")

-- The reason of an error that is not the request's: `error_text` is the errno's text.
module _ (error_text : ℕ → Bytes) where
  unfoldable pub write_store_error : StoreError → HttpReply
  write_store_error path_escape = error_reply 500 (codes "internal error")
  write_store_error (os_error e) = error_reply 500 (error_text e)

  unfoldable pub write_ingest_error : IngestError → HttpReply
  unfolding write_store_error
  write_ingest_error too_large = write_413
  write_ingest_error Ingest.malformed = error_reply 400 (codes "malformed request")
  write_ingest_error (store_error e) = write_store_error e

  unfoldable pub write_clip_error : ClipError → HttpReply
  unfolding write_ingest_error
  write_clip_error malformed = error_reply 400 (codes "malformed request")
  write_clip_error unsupported_envelope = error_reply 400 (codes "malformed request")
  write_clip_error incomplete_body = error_reply 400 (codes "malformed request")
  write_clip_error bad_json_string = error_reply 400 (codes "malformed request")
  write_clip_error over_ceiling = write_413
  write_clip_error (io_error e) = error_reply 500 (error_text e)
  write_clip_error unexpected_eof = error_reply 500 (codes "unexpected EOF")
  write_clip_error (ingest_error e) = write_ingest_error e
