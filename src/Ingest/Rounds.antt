-- ===== src/Ingest/Rounds.antt =====
-- The rounds of internal/ingest/ingest.go: what each item has been counted as.
use clipbeam_cli.Prelude.{
  ℕ, ◌+◌, ◌≤◌, ◌≡◌, refl, sym, ap, ◌∙◌, inl, inr, true, false, not, ◌&&◌, Option, none, some, [],
  arith, ltb, leb, if◌then◌else◌, ltb→le, Bool-cases, length, Bytes, bytes_eq,
}
use clipbeam_cli.Sanitize.{kind_text}
use clipbeam_cli.Store.{StoreConfig, Result, ok, err, Payload}
use clipbeam_cli.Receive.Counts.{is_short, item_count, text_skipped, text_count, agent_count}
use clipbeam_cli.Receive.{
  Json, ReceiveStore, save_clipboard_item, save_clipboard_text, save_agent_item, enqueue_agent_text,
}
use clipbeam_cli.Ingest.{
  IngestItem, Round, next, stop, read_text, is_payload_kind, check_total, check_text, clip_text,
  clip_round, agent_done, agent_text, agent_round,
}

-- The bytes of a clipboard item that count: all of an image or file, and those of a text that is
-- long enough, or configured, to be written to disk.
pub clip_size : StoreConfig → IngestItem → ℕ
clip_size cfg it =
    if is_payload_kind it.kind
    then length it.reader.bytes
    else if not cfg.save_text_to_disk && leb (length it.reader.bytes) cfg.long_text_threshold
    then 0
    else length it.reader.bytes

-- On the agent channel all bytes count.
pub agent_size : IngestItem → ℕ
agent_size it = length it.reader.bytes

some_result : Result (Bytes × ℕ) → Result (Option (Bytes × ℕ))
some_result (ok a) = ok (some a)
some_result (err e) = err e

-- What a round that goes on must have counted.
abbrev pub Counts : ℕ → ℕ → ℕ → Round → Type 0
Counts max_bytes total size (stop e s) = Unit
Counts max_bytes total size (next path total' s) = (total' ≡ total + size) × (total' ≤ max_bytes)

module _ (json : Json) (cfg : StoreConfig) (resolve : Bytes → Option Bytes) (max_bytes : ℕ) where
  clip_size-payload :
      (it : IngestItem) → is_payload_kind it.kind ≡ true → length it.reader.bytes ≡ clip_size cfg it
  unfolding clip_size
  clip_size-payload it k = rw k

  clip_size-short :
      (it : IngestItem)
      → is_payload_kind it.kind ≡ false
      → is_short cfg it.reader.bytes ≡ true
      → clip_size cfg it ≡ 0
  unfolding clip_size is_short
  clip_size-short it k y = rw (k, y)

  clip_size-long :
      (it : IngestItem)
      → is_payload_kind it.kind ≡ false
      → is_short cfg it.reader.bytes ≡ false
      → length it.reader.bytes ≡ clip_size cfg it
  unfolding clip_size is_short
  clip_size-long it k n = rw (k, n)

  read_text-some : (r : Payload) (text : Bytes) → some text ≡ read_text r → text ≡ r.bytes
  unfolding read_text
  read_text-some r text e = ground arith

  check_total-Counts :
      (total size : ℕ) (out : Result (Bytes × ℕ) × ReceiveStore)
      → ((p : Bytes) (n : ℕ) → out.0 ≡ ok (p, n) → n ≡ size)
      → Counts max_bytes total size (check_total json cfg resolve max_bytes total out)
  unfolding check_total
  check_total-Counts total size (err e, s) h = tt
  check_total-Counts total size (ok (p, n), s) h = ground (arith, h p n refl)

  check_text-Counts :
      (total size : ℕ) (out : Result (Option (Bytes × ℕ)) × ReceiveStore)
      → (out.0 ≡ ok none → size ≡ 0)
      → ((p : Bytes) (n : ℕ) → out.0 ≡ ok (some (p, n)) → n ≡ size)
      → total ≤ max_bytes
      → Counts max_bytes total size (check_text json cfg resolve max_bytes total out)
  unfolding check_text
  check_text-Counts total size (err e, s) z h le = tt
  check_text-Counts total size (ok none, s) z h le = omega (arith, z refl)
  check_text-Counts total size (ok (some (p, n)), s) z h le =
      check_total-Counts total size (ok (p, n), s)
        (λ q m e. h q m (unfold some_result in ap some_result e))

  counted_text :
      (it : IngestItem) (text : Bytes) (s : ReceiveStore) (p : Bytes) (n : ℕ)
      → some text ≡ read_text it.reader
      → is_payload_kind it.kind ≡ false
      → (save_clipboard_text json cfg resolve it.call text s).0 ≡ ok (some (p, n))
      → n ≡ clip_size cfg it
  counted_text it text s p n e k h =
      let same = read_text-some it.reader text e in
      let (count, long) = text_count json cfg resolve it.call text s p n h in
      count ∙ ap length same ∙ clip_size-long it k (ap (is_short cfg) (sym same) ∙ long)

  clip_text-Counts :
      (it : IngestItem) (total : ℕ) (s : ReceiveStore) (o : Option Bytes)
      → o ≡ read_text it.reader
      → is_payload_kind it.kind ≡ false
      → total ≤ max_bytes
      → Counts max_bytes total
          (clip_size cfg it)
          (clip_text json cfg resolve max_bytes it.call total s o)
  unfolding clip_text
  clip_text-Counts it total s none e k le = tt
  clip_text-Counts it total s (some text) e k le =
      check_text-Counts total (clip_size cfg it)
        (save_clipboard_text json cfg resolve it.call text s)
        (λ h. clip_size-short it k (
          ap (is_short cfg) (sym (read_text-some it.reader text e))
          ∙ text_skipped json cfg resolve it.call text s h))
        (λ p n h. counted_text it text s p n e k h) le

  pub clip_round-Counts :
      (it : IngestItem) (total : ℕ) (s : ReceiveStore)
      → total ≤ max_bytes
      → Counts max_bytes total (clip_size cfg it) (clip_round json cfg resolve max_bytes it total s)
  unfolding clip_round
  clip_round-Counts it total s le = elim (Bool-cases (is_payload_kind it.kind)) [
    | inl y ↦ rw y (
        check_total-Counts total (clip_size cfg it)
          (save_clipboard_item json cfg resolve it.call it.name it.kind it.uti it.reader s)
          (λ p n h.
            item_count json cfg resolve it.call it.name it.kind it.uti it.reader s p n h
            ∙ clip_size-payload it y))
    | inr k ↦ rw k (elim (Bool-cases (bytes_eq it.kind kind_text)) [
      | inl y ↦ rw y (clip_text-Counts it total s (read_text it.reader) refl k le)
      | inr n ↦ rw n tt
    ])
  ]

  agent_done-Counts :
      (total size : ℕ) (out : Result (Unit {0}) × ReceiveStore)
      → total + size ≤ max_bytes
      → Counts max_bytes total size (agent_done json cfg resolve max_bytes (total + size) out)
  unfolding agent_done
  agent_done-Counts total size (err e, s) le = tt
  agent_done-Counts total size (ok u, s) le = (refl, le)

  agent_text-Counts :
      (it : IngestItem) (total : ℕ) (s : ReceiveStore) (o : Option Bytes)
      → o ≡ read_text it.reader
      → Counts max_bytes total
          (agent_size it)
          (agent_text json cfg resolve max_bytes it.call total s o)
  unfolding agent_text agent_size
  agent_text-Counts it total s none e = tt
  agent_text-Counts it total s (some text) e =
      rw (← read_text-some it.reader text e)
        (elim (Bool-cases (ltb max_bytes (total + length text))) [
          | inl y ↦ rw y tt
          | inr n ↦ rw n (
              agent_done-Counts total (length text)
                (enqueue_agent_text json cfg resolve it.call [] text s) (ltb→le _ _ n))
        ])

  pub agent_round-Counts :
      (it : IngestItem) (total : ℕ) (s : ReceiveStore)
      → total ≤ max_bytes
      → Counts max_bytes total (agent_size it) (agent_round json cfg resolve max_bytes it total s)
  unfolding agent_round
  agent_round-Counts it total s le = elim (Bool-cases (is_payload_kind it.kind)) [
    | inl y ↦ rw y (
        check_total-Counts total (agent_size it)
          (save_agent_item json cfg resolve it.call [] it.name it.kind it.uti it.reader s)
          (λ p n h.
            unfold agent_size in
            agent_count json cfg resolve it.call [] it.name it.kind it.uti it.reader s p n h))
    | inr k ↦ rw k (elim (Bool-cases (bytes_eq it.kind kind_text)) [
      | inl y ↦ rw y (agent_text-Counts it total s (read_text it.reader) refl)
      | inr n ↦ rw n tt
    ])
  ]
