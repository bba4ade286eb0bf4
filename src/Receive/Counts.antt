-- ===== src/Receive/Counts.antt =====
-- The byte counts that the saves of internal/store/concrete.go report.
use clipbeam_cli.Prelude.{
  ℕ, ◌≡◌, ap, ◌≢◌, inl, inr, Bool, true, false, not, ◌&&◌, Option, none, some, leb, Bool-cases,
  length, Bytes, codes,
}
use clipbeam_cli.Sanitize.{kind_file, text_file_name}
use clipbeam_cli.Disk.{Disk}
use clipbeam_cli.Store.{StoreConfig, Result, ok, err, Payload, save_stream}
use clipbeam_cli.Store.Counts.{save_stream-count}
use clipbeam_cli.Receive.{
  Json, Call, ReceiveStore, JournalRecord, save_clipboard_item, save_clipboard_text, wrote, on_disk,
  save_agent_item, agent_saved, with_journal, append_record, journalled, write_agent_journal,
}

-- Whether a text on the clipboard channel is kept off the disk.
unfoldable pub is_short : StoreConfig → Bytes → Bool
is_short cfg text = not cfg.save_text_to_disk && leb (length text) cfg.long_text_threshold

module _ (json : Json) (cfg : StoreConfig) (resolve : Bytes → Option Bytes) where
  pub item_count :
      (call : Call) (name kind uti : Bytes) (r : Payload) (s : ReceiveStore) (p : Bytes) (n : ℕ)
      → (save_clipboard_item json cfg resolve call name kind uti r s).0 ≡ ok (p, n)
      → n ≡ length r.bytes
  unfolding save_clipboard_item on_disk
  item_count call name kind uti r s p n h =
      save_stream-count resolve call.os cfg.save_dir name kind uti r s.disk p n h

  wrote-ne-none :
      (out : Result (Bytes × ℕ) × ReceiveStore) → (wrote json cfg resolve out).0 ≢ ok none
  unfolding wrote
  wrote-ne-none (ok saved, s) h = cc
  wrote-ne-none (err e, s) h = cc

  wrote-some :
      (out : Result (Bytes × ℕ) × ReceiveStore) (p : Bytes) (n : ℕ)
      → (wrote json cfg resolve out).0 ≡ ok (some (p, n))
      → out.0 ≡ ok (p, n)
  unfolding wrote
  wrote-some (ok saved, s) p n h = cc
  wrote-some (err e, s) p n h = cc

  text_bytes : Bytes → Payload
  text_bytes text = record { bytes = text; broken = none }

  short_text :
      (call : Call) (text : Bytes) (s : ReceiveStore)
      → is_short cfg text ≡ true
      → save_clipboard_text json cfg resolve call text s ≡ (ok none, s)
  unfolding save_clipboard_text is_short
  short_text call text s y = rw y

  long_text :
      (call : Call) (text : Bytes) (s : ReceiveStore)
      → is_short cfg text ≡ false
      → save_clipboard_text json cfg resolve call text s
        ≡ wrote json cfg resolve (
            on_disk json cfg resolve s (
              save_stream resolve call.os cfg.save_dir
                (text_file_name call.os.now)
                kind_file
                (codes "public.plain-text")
                (text_bytes text)
                s.disk))
  unfolding save_clipboard_text is_short text_bytes
  long_text call text s n = rw n

  pub text_skipped :
      (call : Call) (text : Bytes) (s : ReceiveStore)
      → (save_clipboard_text json cfg resolve call text s).0 ≡ ok none
      → is_short cfg text ≡ true
  text_skipped call text s h = elim (Bool-cases (is_short cfg text)) [
    | inl y ↦ y
    | inr n ↦ absurd (wrote-ne-none _ (rw (long_text call text s n) at h))
  ]

  pub text_count :
      (call : Call) (text : Bytes) (s : ReceiveStore) (p : Bytes) (n : ℕ)
      → (save_clipboard_text json cfg resolve call text s).0 ≡ ok (some (p, n))
      → (n ≡ length text) × (is_short cfg text ≡ false)
  unfolding on_disk text_bytes
  text_count call text s p n h = elim (Bool-cases (is_short cfg text)) [
    | inl y ↦
        cc (
          h,
          ap (λ (x : Result (Option (Bytes × ℕ)) × ReceiveStore). x.0) (short_text call text s y),
        )
    | inr m ↦ (
      save_stream-count resolve call.os cfg.save_dir (text_file_name call.os.now) kind_file
          (codes "public.plain-text") (text_bytes text) s.disk p n
          (wrote-some _ p n (rw (long_text call text s m) at h)),
      m,
    )
  ]

  journalled-value :
      {A : Type 0} (a b : A) (s : ReceiveStore) (out : Option ℕ × Disk)
      → (journalled json cfg resolve a s out).0 ≡ ok b
      → a ≡ b
  unfolding journalled
  journalled-value a b s (some e, d) h = cc
  journalled-value a b s (none, d) h = cc

  with_journal-value :
      {A : Type 0} (call : Call) (rec : JournalRecord) (a b : A) (s : ReceiveStore)
      → (with_journal json cfg resolve call rec a s).0 ≡ ok b
      → a ≡ b
  unfolding with_journal write_agent_journal journalled append_record
  with_journal-value call rec a b s h = elim (Bool-cases cfg.journal_agent_items) [
    | inl y ↦
        journalled-value a b s (write_agent_journal json cfg resolve call rec s.disk) (rw y at h)
    | inr n ↦ cc (rw n at h)
  ]

  agent_saved-value :
      (call : Call) (sender kind : Bytes) (out : Result (Bytes × ℕ) × ReceiveStore) (p : Bytes)
      (n : ℕ)
      → (agent_saved json cfg resolve call sender kind out).0 ≡ ok (p, n)
      → out.0 ≡ ok (p, n)
  unfolding agent_saved
  agent_saved-value call sender kind (err e, s) p n h = h
  agent_saved-value call sender kind (ok (q, m), s) p n h =
      ap ok (with_journal-value call _ (q, m) (p, n) _ h)

  pub agent_count :
      (call : Call) (sender name kind uti : Bytes) (r : Payload) (s : ReceiveStore) (p : Bytes)
      (n : ℕ)
      → (save_agent_item json cfg resolve call sender name kind uti r s).0 ≡ ok (p, n)
      → n ≡ length r.bytes
  unfolding save_agent_item on_disk
  agent_count call sender name kind uti r s p n h =
      save_stream-count resolve call.os cfg.agent_inbox_dir name kind uti r s.disk p n
        (agent_saved-value call sender kind _ p n h)
