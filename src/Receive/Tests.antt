-- ===== src/Receive/Tests.antt =====
-- The receive side at concrete requests.
use clipbeam_cli.Prelude.{
  ◌≡◌, refl, true, false, Option, none, some, [], ◌∷◌, ◌++◌, length, drop, ◌-◌, Bytes, codes,
}
use mathlib.Core.Option
use clipbeam_cli.Go.Clock.{sample_time}
use clipbeam_cli.Disk.{file, find}
use clipbeam_cli.Waiters.{enqueue, empty_fifo}
use clipbeam_cli.Waiters.Paths.{no_waiters}
use clipbeam_cli.Store.{StoreConfig, made, smooth}
use clipbeam_cli.Store.Atomic.{write_bytes_atomic_smooth}
use clipbeam_cli.Drain.{record_to_agent_item}
use clipbeam_cli.Receive.{
  Json, AgentItem, Call, ReceiveStore, enqueue_agent_text, load_recents, keep_last, append_recents,
  recents_in, contents,
}
use clipbeam_cli.Receive.Durable.{record_path, enqueue_agent_text-durable, enqueue_agent_text_ok}
use clipbeam_cli.Receive.LastPath.{read_last_path, new_concrete, read_last_path-written}
use clipbeam_cli.Go.Strings.{is_empty}
use clipbeam_cli.Store.{write_bytes_atomic}
use clipbeam_cli.Receive.Recents.{entries, append_recents_lem}

-- A recents file with the path of one entry, and a record file with the text of its record.
abbrev pub sample_json : Json
sample_json = record {
  encode_recents = λ rs. elim rs [ [] ↦ [] | ◌∷◌ r (rest → more) ↦ r.path ];
  decode_recents = λ bytes. some (record { path = bytes; sender = []; time = sample_time } ∷ []);
  encode_record = λ r. r.text;
  decode_record = λ bytes.
      some (record { kind = codes "text"; sender = []; path = []; has_text = true; text = bytes });
}

abbrev pub sample_config : StoreConfig
sample_config = record {
  save_dir = codes "/save";
  agent_inbox_dir = codes "/inbox";
  last_path_file = codes "/state/last";
  recents_file = codes "/state/recents.json";
  save_text_to_disk = false;
  long_text_threshold = 8;
  journal_agent_items = true;
}

abbrev pub sample_call : Call
sample_call = record {
  os = record {
    now = sample_time;
    unseen = λ p. false;
    unseen_again = λ p. false;
    first = made;
    second = made;
    removed = true;
    random = codes "a1";
    fault = smooth;
  };
  last_path_fault = smooth;
  last_path_random = codes "b2";
  recents_fault = smooth;
  recents_random = codes "c3";
  journal_fault = smooth;
  journal_random = codes "d4";
  mkdir_error = none;
  nanos = 1700000000000000000;
  sequence = 1;
}

abbrev pub sample_store : ReceiveStore
unfolding empty_fifo no_waiters
sample_store = record {
  last_path = [];
  agent = record { queue = []; waiters = []; sent = []; next = 0 };
  clip_wait = record { waiters = []; sent = []; next = 0 };
  disk = [];
}

abbrev pub resolved : Bytes → Option Bytes
resolved dir = some dir

enqueue_agent_text-durable_example :
    (let after =
        (enqueue_agent_text sample_json sample_config resolved sample_call []
          (codes "hi")
          sample_store).1 in
      (item : AgentItem) × ((after.agent ≡ enqueue (item ∷ []) sample_store.agent)
        × ((bytes : Bytes) × ((find (record_path sample_config sample_call) after.disk
                ≡ some (file bytes))
              × ((item.text ≡ some (codes "hi"))
                  × (Option.map record_to_agent_item (sample_json.decode_record bytes)
                      ≡ some item))))))
enqueue_agent_text-durable_example =
    enqueue_agent_text-durable sample_json sample_config resolved sample_call [] (codes "hi")
      sample_store refl refl
      (enqueue_agent_text_ok sample_json sample_config resolved sample_call [] (codes "hi")
        sample_store refl refl refl)

reads_back :
    (let kept = keep_last sample_json sample_config resolved (
        load_recents sample_json sample_config resolved []
        ++ entries sample_call [] (codes "/save/a.png" ∷ [])) in
      sample_json.decode_recents (sample_json.encode_recents kept) ≡ some kept)
unfolding keep_last load_recents recents_in contents find
reads_back = refl

append_recents_lem_example :
    (let all =
        load_recents sample_json sample_config resolved []
        ++ entries sample_call [] (codes "/save/a.png" ∷ []) in
      load_recents sample_json sample_config resolved (
        append_recents sample_json sample_config resolved sample_call
          (codes "/save/a.png" ∷ [])
          []
          [])
      ≡ drop (length all - 20) all)
append_recents_lem_example =
    append_recents_lem sample_json sample_config resolved sample_call (codes "/save/a.png") [] [] []
      reads_back
      (write_bytes_atomic_smooth sample_call.recents_fault sample_call.recents_random _ _ _ refl)

last_named : is_empty sample_config.last_path_file ≡ false
unfolding is_empty
last_named = refl

read_last_path-written_example :
    (let after =
        (write_bytes_atomic smooth
          (codes "b2")
          sample_config.last_path_file
          (codes "/save/a.png")
          []).1 in
      (read_last_path sample_config.last_path_file after ≡ some (codes "/save/a.png"))
      × ((new_concrete sample_config after).last_path ≡ codes "/save/a.png"))
read_last_path-written_example =
    read_last_path-written sample_config smooth (codes "b2") b'/' (codes "save/a.png") [] last_named
      refl (write_bytes_atomic_smooth smooth (codes "b2") sample_config.last_path_file _ _ refl)
