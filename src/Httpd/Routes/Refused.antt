-- ===== src/Httpd/Routes/Refused.antt =====
-- internal/httpd/routes.go: the control routes without the right to them.
use clipbeam_cli.Prelude.{
  ◌≡◌, refl, ◌⊎◌, inl, inr, Bool, none, some, List, [], ◌∷◌, ltb, if◌then◌else◌, Bool-cases, All,
  Bytes, codes, bytes_eq,
}
use clipbeam_cli.Receive.{last_path_of, ReceiveStore}
use clipbeam_cli.Httpd.Gate.{Options, Request, Refusal, control_authorized}
use clipbeam_cli.Httpd.Response.{sent_items, write_bare_path, HttpReply, error_reply}
use clipbeam_cli.Go.Strings.{is_empty}
use clipbeam_cli.Ingest.{channel_clipboard}
use clipbeam_cli.Httpd.Routes.{
  send_by_kind, push_file, header_or, write_wait, write_recv, poll_seconds, recv_deadline, Control,
  Host, method_not_allowed, control, handle_push, handle_agent_send, handle_recv, handle_last,
  handle_wait, kept, serve,
}

abbrev pub control_paths : List Bytes
control_paths =
    codes "/push" ∷ codes "/agent-send" ∷ codes "/recv" ∷ codes "/last" ∷ codes "/wait" ∷ []

module _ (h : Host) (o : Options) where
  -- The state is as it was, and the reply is the refusal, or that of a wrong method.
  pub Unmoved : Refusal → Bool × ReceiveStore → HttpReply × (Bool × ReceiveStore) → Type 0
  Unmoved p before after =
      (after.1 ≡ before)
      × ((after.0 ≡ error_reply p.0 p.1) ⊎ (after.0 ≡ error_reply 405 (codes "method not allowed")))

  control-Unmoved :
      (method : Bytes) (work : ReceiveStore → HttpReply × ReceiveStore) (r : Request) (slot : Bool)
      (s : ReceiveStore) (p : Refusal)
      → control_authorized h.around.platform o r ≡ some p
      → Unmoved p (slot, s) (kept h o slot (control h o method work r s))
  unfolding Unmoved control kept method_not_allowed
  control-Unmoved method work r slot s p e = elim (Bool-cases (bytes_eq r.method method)) [
    | inl y ↦ rw (y, e, control) (refl, inl refl)
    | inr n ↦ rw (n, control) (refl, inr refl)
  ]

  polled : Control → ReceiveStore → HttpReply × ReceiveStore
  polled c s =
      let n = poll_seconds c.timeout_query in
      write_recv h o (h.recv (if ltb (recv_deadline n) n then recv_deadline n else n) s)

  last_read : ReceiveStore → HttpReply × ReceiveStore
  last_read s = elim (last_path_of s) [
    | some path ↦ (write_bare_path path, s)
    | none ↦ (write_bare_path [], s)
  ]

  -- On the five control routes a caller that the gate refuses gets that refusal, or the 405 of a wrong method, and neither the store
  -- nor the slot of /clip changes: nothing is read, taken from the queue or enqueued for it.
  pub serve_refused :
      (c : Control) (slot : Bool) (s : ReceiveStore) (p : Refusal)
      → control_authorized h.around.platform o c.request ≡ some p
      → All
          (λ path. Unmoved p (slot, s) (serve h o (record c { path = path }) (slot, s)))
          control_paths
  unfolding serve handle_push handle_agent_send handle_recv handle_last handle_wait bytes_eq polled
      last_read
  serve_refused c slot s p e = (
    control-Unmoved (codes "POST")
        (λ s'. if is_empty c.file_query then (sent_items 0, s') else push_file h o c.file_query s')
        c.request slot s p e,
    (
      control-Unmoved (codes "POST")
          (send_by_kind h o (header_or c.channel_header channel_clipboard)
            (header_or c.kind_header (codes "clipboard")) (record c { path = codes "/agent-send" }))
          c.request slot s p e,
      (
        control-Unmoved (codes "GET") (polled c) c.request slot s p e,
        (
          control-Unmoved (codes "GET") last_read c.request slot s p e,
          (
            control-Unmoved (codes "GET") (λ s'. write_wait h o (h.wait s')) c.request slot s p e,
            tt,
          ),
        ),
      ),
    ),
  )
