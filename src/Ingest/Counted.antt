-- ===== src/Ingest/Counted.antt =====
-- The cap of internal/ingest/ingest.go: what an accepted request has been counted as.
use clipbeam_cli.Prelude.{
  ℕ, ◌+◌, ◌≤◌, ◌<◌, ◌≡◌, ◌⊎◌, inl, inr, Option, List, [], ◌∷◌, arith, if◌then◌else◌, Bool-cases,
  length, Bytes, bytes_eq,
}
use clipbeam_cli.Store.{StoreConfig}
use clipbeam_cli.Receive.{Json, Call, ReceiveStore}
use clipbeam_cli.Ingest.{
  go_on, IngestItem, IngestError, ClipResponse, accepted, Round, next, stop, append_path,
  clip_round, agent_round, run, finish_clip, ingest_clipboard, finish_agent, ingest_agent, ingest,
  channel_agent,
}
use clipbeam_cli.Ingest.Rounds.{
  clip_size, agent_size, Counts, clip_round-Counts, agent_round-Counts,
}

pub total_size : (IngestItem → ℕ) → List IngestItem → ℕ
total_size size [] = 0
total_size size (it ∷ items) = size it + total_size size items

module _ (json : Json) (cfg : StoreConfig) (resolve : Bytes → Option Bytes) (max_bytes : ℕ) where
  abbrev Loop : Type 0
  Loop = IngestItem → ℕ → ReceiveStore → Round

  go_on-total :
      (total size rest : ℕ) (x : Round)
      (later : Option Bytes → ℕ → ReceiveStore → (List Bytes ⊎ IngestError) × ReceiveStore)
      {out : List Bytes}
      → Counts max_bytes total size x
      → ((p : Option Bytes) (t : ℕ) (s : ReceiveStore)
          → t ≤ max_bytes
          → (later p t s).0 ≡ inl out
          → t + rest ≤ max_bytes)
      → (go_on later x).0 ≡ inl out
      → total + (size + rest) ≤ max_bytes
  unfolding go_on
  go_on-total total size rest (stop e s) later c ih h = cc
  go_on-total total size rest (next p t s) later (e, le) ih h = omega (arith, ih p t s le h)

  run-total :
      (round : Loop) (size : IngestItem → ℕ)
      → ((it : IngestItem) (total : ℕ) (s : ReceiveStore)
          → total ≤ max_bytes
          → Counts max_bytes total (size it) (round it total s))
      → (items : List IngestItem) (saved : List Bytes) (total : ℕ) (s : ReceiveStore)
        {out : List Bytes}
      → total ≤ max_bytes
      → (run json cfg resolve max_bytes round items saved total s).0 ≡ inl out
      → total + total_size size items ≤ max_bytes
  unfolding run total_size
  run-total round size each [] saved total s le h = omega arith
  run-total round size each (it ∷ items) saved total s le h =
      go_on-total total (size it) (total_size size items) (round it total s) _ (each it total s le)
        (λ p t s' le' h'. run-total round size each items (append_path saved p) t s' le' h') h

  accepted-clip :
      (call : Call) (count : ℕ) (out : (List Bytes ⊎ IngestError) × ReceiveStore) (c : ClipResponse)
      → (finish_clip json cfg resolve max_bytes call count out).0 ≡ accepted c
      → (out.0 ≡ inl c.saved) × (c.count ≡ count)
  unfolding finish_clip
  accepted-clip call count (inr e, s) c h = cc
  accepted-clip call count (inl saved, s) c h = ground arith

  accepted-agent :
      (count : ℕ) (out : (List Bytes ⊎ IngestError) × ReceiveStore) (c : ClipResponse)
      → (finish_agent json cfg resolve max_bytes count out).0 ≡ accepted c
      → (out.0 ≡ inl c.saved) × (c.count ≡ count)
  unfolding finish_agent
  accepted-agent count (inr e, s) c h = cc
  accepted-agent count (inl saved, s) c h = ground arith

  agent-within_cap :
      (items : List IngestItem) (s : ReceiveStore) (c : ClipResponse)
      → (ingest_agent json cfg resolve max_bytes items s).0 ≡ accepted c
      → (total_size agent_size items ≤ max_bytes) × (c.count ≡ length items)
  unfolding ingest_agent
  agent-within_cap items s c h =
      let loop = agent_round json cfg resolve max_bytes in
      let (done, count) =
        accepted-agent (length items) (run json cfg resolve max_bytes loop items [] 0 s) c h in
      (
        omega (
          arith,
          run-total loop agent_size (agent_round-Counts json cfg resolve max_bytes) items [] 0 s
              (omega arith) done,
        ),
        count,
      )

  clip-within_cap :
      (call : Call) (items : List IngestItem) (s : ReceiveStore) (c : ClipResponse)
      → (ingest_clipboard json cfg resolve max_bytes call items s).0 ≡ accepted c
      → (total_size (clip_size cfg) items ≤ max_bytes) × (c.count ≡ length items)
  unfolding ingest_clipboard
  clip-within_cap call items s c h =
      let loop = clip_round json cfg resolve max_bytes in
      let (done, count) =
        accepted-clip call (length items) (run json cfg resolve max_bytes loop items [] 0 s) c h in
      (
        omega (
          arith,
          run-total loop (clip_size cfg) (clip_round-Counts json cfg resolve max_bytes) items [] 0 s
              (omega arith) done,
        ),
        count,
      )

  -- The size of an item on the channel that `Ingest` chooses by the first one.
  pub request_size : List IngestItem → ℕ
  request_size [] = 0
  request_size (it ∷ items) =
      if bytes_eq it.channel channel_agent
      then total_size agent_size (it ∷ items)
      else total_size (clip_size cfg) (it ∷ items)

  -- A request that is accepted is within the cap: the bytes of its items, without the texts that
  -- the clipboard channel keeps off the disk, are at most maxBytes together. The reply counts all
  -- the items, and there is one at least.
  pub ingest-within_cap :
      (call : Call) (items : List IngestItem) (s : ReceiveStore) (c : ClipResponse)
      → (ingest json cfg resolve max_bytes call items s).0 ≡ accepted c
      → (request_size items ≤ max_bytes) × (c.count ≡ length items) × (0 < length items)
  unfolding ingest request_size
  ingest-within_cap call [] s c h = cc
  ingest-within_cap call (it ∷ items) s c h =
      elim (Bool-cases (bytes_eq it.channel channel_agent)) [
        | inl y ↦
            let (le, count) = agent-within_cap (it ∷ items) s c (rw y at h) in
            (rw y le, count, omega arith)
        | inr n ↦
            let (le, count) = clip-within_cap call (it ∷ items) s c (rw n at h) in
            (rw n le, count, omega arith)
      ]
