-- ===== src/Receive/Durable.antt =====
-- internal/store/concrete.go and agentjournal.go: an agent item that is accepted while items are
-- journalled can be drained from the disk as it stands in the queue.
use clipbeam_cli.Waiters.{enqueue}
use mathlib.Core.Option
use clipbeam_cli.Drain.{record_to_agent_item}
use clipbeam_cli.Prelude.{
  ℕ, ◌≡◌, refl, sym, ap, ◌∙◌, ◌≢◌, true, Option, none, some, [], ◌∷◌, Bytes, codes,
}
use clipbeam_cli.Go.Paths
use clipbeam_cli.Disk.{Disk, file, find}
use clipbeam_cli.Waiters.{enqueue}
use clipbeam_cli.Store.{smooth, StoreConfig, StoreError, Result, ok, err}
use clipbeam_cli.Store.Atomic.{write_bytes_atomic-whole, write_bytes_atomic_smooth}
use clipbeam_cli.Receive.{
  Json, JournalRecord, AgentItem, Call, ReceiveStore, journal_dir, journal_name, put_item,
  journalled, append_record, with_journal, write_agent_journal, enqueue_agent_text,
}
use clipbeam_cli.Drain.{record_to_agent_item}

-- The record's file of one call.
pub record_path : StoreConfig → Call → Bytes
record_path cfg call =
    Paths.join (journal_dir cfg.agent_inbox_dir) (journal_name call.nanos call.sequence)

no_error : {e : ℕ} → some e ≢ none
no_error h = cc

err_ok : {A : Type 0} {e : StoreError} {a : A} → err e ≢ ok a
err_ok h = cc

-- The record of an agent text.
abbrev pub text_record : Bytes → Bytes → JournalRecord
text_record sender text = record {
  kind = codes "text";
  sender = sender;
  path = [];
  has_text = true;
  text = text;
}

drained :
    (json : Json) (rec : JournalRecord)
    → json.decode_record (json.encode_record rec) ≡ some rec
    → Option.map record_to_agent_item (json.decode_record (json.encode_record rec))
      ≡ some (record_to_agent_item rec)
drained json rec decodes = rw decodes refl

module _ (json : Json) (cfg : StoreConfig) (resolve : Bytes → Option Bytes) where
  append_record-whole :
      (call : Call) (rec : JournalRecord) (d : Disk) (made : Option ℕ)
      → (append_record json cfg resolve call rec d made).0 ≡ none
      → find (record_path cfg call) (append_record json cfg resolve call rec d made).1
        ≡ some (file (json.encode_record rec))
  unfolding append_record record_path
  append_record-whole call rec d (some e) h = absurd (no_error h)
  append_record-whole call rec d none h =
      write_bytes_atomic-whole call.journal_fault call.journal_random _ (json.encode_record rec) d h

  -- What a call that was accepted leaves: the record's file, and the queue of before.
  Written : {A : Type 0} → Call → JournalRecord → ReceiveStore → Result A × ReceiveStore → Type 0
  Written call rec s out =
      (find (record_path cfg call) out.1.disk ≡ some (file (json.encode_record rec)))
      × (out.1.agent ≡ s.agent)

  journalled-Written :
      {A : Type 0} (call : Call) (rec : JournalRecord) (a b : A) (s : ReceiveStore)
      (w : Option ℕ × Disk)
      → (w.0 ≡ none → find (record_path cfg call) w.1 ≡ some (file (json.encode_record rec)))
      → (journalled json cfg resolve a s w).0 ≡ ok b
      → Written call rec s (journalled json cfg resolve a s w)
  unfolding journalled Written
  journalled-Written call rec a b s (some e, d) whole h = absurd (err_ok h)
  journalled-Written call rec a b s (none, d) whole h = (whole refl, refl)

  with_journal_on :
      {A : Type 0} (call : Call) (rec : JournalRecord) (a : A) (s : ReceiveStore)
      → cfg.journal_agent_items ≡ true
      → with_journal json cfg resolve call rec a s
        ≡ journalled json cfg resolve a s
            (append_record json cfg resolve call rec s.disk call.mkdir_error)
  unfolding with_journal write_agent_journal
  with_journal_on call rec a s on = rw on refl

  with_journal-Written :
      {A : Type 0} (call : Call) (rec : JournalRecord) (a b : A) (s : ReceiveStore)
      → cfg.journal_agent_items ≡ true
      → (with_journal json cfg resolve call rec a s).0 ≡ ok b
      → Written call rec s (with_journal json cfg resolve call rec a s)
  with_journal-Written {A} call rec a b s on h =
      (let e = with_journal_on call rec a s on in
        rw e (
          journalled-Written call rec a b s _ (append_record-whole call rec s.disk call.mkdir_error)
            (ap (λ (out : Result A × ReceiveStore). out.0) (sym e) ∙ h)))

-- When items are journalled, the JSON of the text's record reads back, and the text is
-- accepted, the
-- text is behind the queue's other items (or at a waiter), and the record file of the call decodes
-- to a record that draining turns into the same item: empty text stays apart from no text.
pub enqueue_agent_text-durable :
    (json : Json) (cfg : StoreConfig) (resolve : Bytes → Option Bytes) (call : Call)
    (sender text : Bytes) (s : ReceiveStore)
    → json.decode_record (json.encode_record (text_record sender text))
      ≡ some (text_record sender text)
    → cfg.journal_agent_items ≡ true
    → (enqueue_agent_text json cfg resolve call sender text s).0 ≡ ok tt
    → (let after = (enqueue_agent_text json cfg resolve call sender text s).1 in
        (item : AgentItem) × ((after.agent ≡ enqueue (item ∷ []) s.agent)
          × ((bytes : Bytes) × ((find (record_path cfg call) after.disk ≡ some (file bytes))
                × ((item.text ≡ some text)
                    × (Option.map record_to_agent_item (json.decode_record bytes) ≡ some item))))))
unfolding enqueue_agent_text put_item Written record_to_agent_item
enqueue_agent_text-durable json cfg resolve call sender text s decodes on accepted =
    (let rec = text_record sender text in
      let written = with_journal-Written json cfg resolve call rec tt tt _ on accepted in
      (
        record { kind = codes "text"; sender = sender; path = none; text = some text },
        (written.1, (json.encode_record rec, (written.0, (refl, drained json rec decodes)))),
      ))

append_record_ok :
    (json : Json) (cfg : StoreConfig) (resolve : Bytes → Option Bytes) (call : Call)
    (rec : JournalRecord) (d : Disk) (made : Option ℕ)
    → made ≡ none
    → call.journal_fault ≡ smooth
    → (append_record json cfg resolve call rec d made).0 ≡ none
unfolding append_record
append_record_ok json cfg resolve call rec d (some e) made calm = absurd (no_error made)
append_record_ok json cfg resolve call rec d none made calm =
    write_bytes_atomic_smooth call.journal_fault call.journal_random _ (json.encode_record rec) d
      calm

journalled-ok :
    {A : Type 0} (json : Json) (cfg : StoreConfig) (resolve : Bytes → Option Bytes) (a : A)
    (s : ReceiveStore) (w : Option ℕ × Disk)
    → w.0 ≡ none
    → (journalled json cfg resolve a s w).0 ≡ ok a
unfolding journalled
journalled-ok json cfg resolve a s (none, d) h = refl
journalled-ok json cfg resolve a s (some e, d) h = absurd (no_error h)

-- With no failing call the text is accepted.
pub enqueue_agent_text_ok :
    (json : Json) (cfg : StoreConfig) (resolve : Bytes → Option Bytes) (call : Call)
    (sender text : Bytes) (s : ReceiveStore)
    → cfg.journal_agent_items ≡ true
    → call.mkdir_error ≡ none
    → call.journal_fault ≡ smooth
    → (enqueue_agent_text json cfg resolve call sender text s).0 ≡ ok tt
unfolding enqueue_agent_text
enqueue_agent_text_ok json cfg resolve call sender text s on made calm =
    (let rec = text_record sender text in
      ap (λ (out : Result Unit × ReceiveStore). out.0)
        (with_journal_on json cfg resolve call rec tt _ on)
      ∙ journalled-ok json cfg resolve tt _ _
          (append_record_ok json cfg resolve call rec _ call.mkdir_error made calm))
