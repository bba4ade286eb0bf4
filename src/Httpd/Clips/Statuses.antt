-- ===== src/Httpd/Clips/Statuses.antt =====
-- internal/httpd/clip.go and response.go: the statuses of POST /clip, and what a sender exits with.
use clipbeam_cli.Prelude.{
  ℕ, ◌≡◌, refl, ◌≢◌, ◌↔◌, ◌⊎◌, inl, inr, Bool, true, false, ◌||◌, Option, none, some, List, [], ◌∷◌,
  arith, ◌==◌, Bool-cases, Bytes, codes, bytes_eq,
}
use clipbeam_cli.Go.Strings.{OnSome}
use clipbeam_cli.Store.{path_escape, os_error}
use clipbeam_cli.Receive.{ReceiveStore}
use clipbeam_cli.Ingest
use clipbeam_cli.Ingest.{ClipResponse, IngestError, too_large, store_error}
use clipbeam_cli.Httpd.Outcome.{
  ClipError, malformed, unsupported_envelope, incomplete_body, bad_json_string, over_ceiling,
  io_error, unexpected_eof, ingest_error,
}
use clipbeam_cli.Httpd.Decode.{decode_and_ingest, Served, answered, failed, exhausted}
use clipbeam_cli.Httpd.Gate.{
  max_bytes_of, Options, Request, Refusal, forbidden, unauthorized, clip_gate,
}
use clipbeam_cli.Httpd.Gate.Needs.{clip_gate_refuses}
use clipbeam_cli.Httpd.Response.{
  HttpReply, error_reply, clip_reply, sent_items, path_reply, recv_reply, health_reply, no_content,
  status_of, write_clip_error, write_ingest_error, write_store_error,
}
use clipbeam_cli.Httpd.Clips.{
  limited, reader_limit, ceiling, Surroundings, try_acquire, declared, refuse, gated, clip_checks,
  write_served, write_result, transfer, with_slot, after_checks, handle_clip,
}
use clipbeam_cli.Cli.Exit.{http_status_to_exit, exit_ok, exit_unreachable}

one_of : List ℕ → ℕ → Bool
one_of [] n = false
one_of (m ∷ ms) n = n == m || one_of ms n

abbrev refusals : List ℕ
refusals = 400 ∷ 401 ∷ 403 ∷ 405 ∷ 411 ∷ 413 ∷ 500 ∷ 503 ∷ []

-- The 200 with the saved paths, or an error with one of those statuses.
pub IsClipReply : HttpReply → Type 0
unfolding one_of
IsClipReply (clip_reply c) = Unit
IsClipReply (error_reply status reason) = one_of refusals status ≡ true
IsClipReply reply = ⊥

write_clip_error-IsClipReply :
    (text : ℕ → Bytes) (e : ClipError) → IsClipReply (write_clip_error text e)
unfolding IsClipReply one_of write_clip_error write_ingest_error write_store_error
write_clip_error-IsClipReply text malformed = refl
write_clip_error-IsClipReply text unsupported_envelope = refl
write_clip_error-IsClipReply text incomplete_body = refl
write_clip_error-IsClipReply text bad_json_string = refl
write_clip_error-IsClipReply text over_ceiling = refl
write_clip_error-IsClipReply text (io_error e) = refl
write_clip_error-IsClipReply text unexpected_eof = refl
write_clip_error-IsClipReply text (ingest_error too_large) = refl
write_clip_error-IsClipReply text (ingest_error Ingest.malformed) = refl
write_clip_error-IsClipReply text (ingest_error (store_error path_escape)) = refl
write_clip_error-IsClipReply text (ingest_error (store_error (os_error e))) = refl

module _ (env : Surroundings) (o : Options) where
  declared-IsClipReply : (n : Option ℕ) → OnSome IsClipReply (declared env o n)
  unfolding IsClipReply one_of declared
  declared-IsClipReply none = refl
  declared-IsClipReply (some n) = ground arith

  gated-IsClipReply :
      (g : Option Refusal) (r : Request)
      → OnSome (λ (p : Refusal). (p ≡ forbidden) ⊎ (p ≡ unauthorized)) g
      → OnSome IsClipReply (gated env o g r)
  unfolding IsClipReply one_of gated refuse
  gated-IsClipReply none r h = declared-IsClipReply r.content_length
  gated-IsClipReply (some p) r (inl e) = rw e refl
  gated-IsClipReply (some p) r (inr e) = rw e refl

  clip_checks-IsClipReply : (r : Request) → OnSome IsClipReply (clip_checks env o r)
  unfolding clip_checks IsClipReply one_of
  clip_checks-IsClipReply r = elim (Bool-cases (bytes_eq r.method (codes "POST"))) [
    | inl y ↦
        rw y (gated-IsClipReply (clip_gate env.platform o r) r (clip_gate_refuses env.platform o r))
    | inr n ↦ rw n refl
  ]

  write_result-IsClipReply : (v : Served × ReceiveStore) → IsClipReply (write_result env o v).0
  unfolding IsClipReply one_of write_result write_served
  write_result-IsClipReply (answered c, s) = tt
  write_result-IsClipReply (failed e, s) = write_clip_error-IsClipReply env.error_text e
  write_result-IsClipReply (exhausted, s) = refl

  transfer-IsClipReply : (r : Request) (s : ReceiveStore) → IsClipReply (transfer env o r s).0
  unfolding transfer
  transfer-IsClipReply r s =
      let body = limited (reader_limit (ceiling env o)) r.body r.broken in
      write_result-IsClipReply (
        decode_and_ingest env.json env.store env.resolve (max_bytes_of o) env.temps env.calls body.1
          body.0 s)

  after_checks-IsClipReply :
      (c : Option HttpReply) (taken : Bool) (r : Request) (s : ReceiveStore)
      → OnSome IsClipReply c
      → IsClipReply (after_checks env o c taken r s).0
  unfolding after_checks with_slot try_acquire IsClipReply one_of
  after_checks-IsClipReply (some reply) taken r s h = h
  after_checks-IsClipReply none true r s h = refl
  after_checks-IsClipReply none false r s h = transfer-IsClipReply r s

  -- Whatever the request is, /clip answers with the saved paths, or with one of 400, 401, 403, 405, 411, 413, 500
  -- and 503: never with a 502.
  pub handle_clip-IsClipReply :
      (r : Request) (taken : Bool) (s : ReceiveStore) → IsClipReply (handle_clip env o r taken s).0
  unfolding handle_clip
  handle_clip-IsClipReply r taken s =
      after_checks-IsClipReply (clip_checks env o r) taken r s (clip_checks-IsClipReply r)

-- What a sender makes of the reply.
pub exit_of : HttpReply → ℕ
exit_of reply = http_status_to_exit (status_of reply)

refusal-exit :
    (n : ℕ)
    → one_of refusals n ≡ true
    → (http_status_to_exit n ≢ exit_ok) × (http_status_to_exit n ≢ exit_unreachable)
unfolding one_of http_status_to_exit
refusal-exit n h = (λ e. ground (arith, h, e), λ e. ground (arith, h, e))

reply-exit :
    (reply : HttpReply)
    → IsClipReply reply
    → ((exit_of reply ≡ exit_ok) ↔ ((c : ClipResponse) × (reply ≡ clip_reply c)))
      × (exit_of reply ≢ exit_unreachable)
unfolding IsClipReply exit_of status_of http_status_to_exit
reply-exit (clip_reply c) h = ((λ e. (c, refl), λ e. refl), λ e. absurd (omega (arith, e)))
reply-exit (error_reply status reason) h = (
  (λ e. absurd ((refusal-exit status h).0 e), λ (c, e). absurd (cc e)),
  (refusal-exit status h).1,
)
reply-exit (sent_items n) h = absurd h
reply-exit (path_reply p) h = absurd h
reply-exit (recv_reply i) h = absurd h
reply-exit (health_reply a b) h = absurd h
reply-exit no_content h = absurd h

-- A sender exits with 0 exactly when /clip answered with the saved paths, and no reply of /clip makes it report the peer as
-- unreachable.
pub handle_clip-exit :
    (env : Surroundings) (o : Options) (r : Request) (taken : Bool) (s : ReceiveStore)
    → ((exit_of (handle_clip env o r taken s).0 ≡ exit_ok)
        ↔ ((c : ClipResponse) × ((handle_clip env o r taken s).0 ≡ clip_reply c)))
      × (exit_of (handle_clip env o r taken s).0 ≢ exit_unreachable)
handle_clip-exit env o r taken s =
    reply-exit (handle_clip env o r taken s).0 (handle_clip-IsClipReply env o r taken s)
