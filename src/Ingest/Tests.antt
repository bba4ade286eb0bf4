-- ===== src/Ingest/Tests.antt =====
-- A request at the one way in.
use clipbeam_cli.Prelude.{◌≤◌, ◌<◌, ◌≡◌, refl, ◌≢◌, inl, none, [], ◌∷◌, length, codes, bytes_eq}
use clipbeam_cli.Store.{StoreError, Result, ok, err}
use clipbeam_cli.Receive.{ReceiveStore, enqueue_agent_text}
use clipbeam_cli.Receive.Durable.{enqueue_agent_text_ok}
use clipbeam_cli.Receive.Tests.{sample_json, sample_config, sample_call, sample_store, resolved}
use clipbeam_cli.Ingest.{
  IngestItem, accepted, ingest, ingest_agent, run, agent_round, agent_text, agent_done,
  finish_agent, go_on, append_path, read_text, is_payload_kind,
}
use clipbeam_cli.Ingest.Counted.{request_size, ingest-within_cap}

abbrev text_request : IngestItem
text_request = record {
  call = sample_call;
  kind = codes "text";
  name = [];
  uti = [];
  channel = codes "agent";
  reader = record { bytes = codes "hi"; broken = none };
}

err_ok : {e : StoreError} {u : Unit {0}} → err e ≢ ok u
err_ok h = cc

-- The end of the loop on one text that the store took.
accepted_after :
    (out : Result Unit × ReceiveStore)
    → out.0 ≡ ok tt
    → (finish_agent sample_json sample_config resolved 10 1 (
        go_on
          (λ path total s. (inl (append_path [] path), s))
          (agent_done sample_json sample_config resolved 10 2 out))).0
      ≡ accepted (record { saved = []; count = 1 })
unfolding finish_agent go_on append_path agent_done
accepted_after (ok u, s) h = refl
accepted_after (err e, s) h = absurd (err_ok h)

request_accepted :
    (ingest sample_json sample_config resolved 10 sample_call (text_request ∷ []) sample_store).0
    ≡ accepted (record { saved = []; count = 1 })
unfolding ingest ingest_agent run agent_round agent_text read_text is_payload_kind bytes_eq
request_accepted =
    accepted_after
      (enqueue_agent_text sample_json sample_config resolved sample_call [] (codes "hi")
        sample_store)
      (enqueue_agent_text_ok sample_json sample_config resolved sample_call [] (codes "hi")
        sample_store refl refl refl)

ingest-within_cap_example :
    (request_size sample_json sample_config resolved 10 (text_request ∷ []) ≤ 10)
    × (1 ≡ length (text_request ∷ []))
    × (0 < length (text_request ∷ []))
ingest-within_cap_example =
    ingest-within_cap sample_json sample_config resolved 10 sample_call (text_request ∷ [])
      sample_store (record { saved = []; count = 1 }) request_accepted
