-- ===== src/Httpd/Tests.antt =====
-- The HTTP receiver at concrete inputs.
use clipbeam_cli.Prelude.{
  List, ℕ, suc, ◌*◌, ◌<◌, ◌≡◌, refl, ◌≢◌, ◌↔◌, ◌⊎◌, false, none, some, [], ◌∷◌, ◌++◌, map, arith,
  ◌==◌, if◌then◌else◌, length, All, Bytes, codes, bytes_eq,
}
use clipbeam_cli.Disk.{find}
use clipbeam_cli.Auth.Compare.{ComparesContents}
use clipbeam_cli.Classify.{classify, class_of, v4, loopback, parse_ip}
use clipbeam_cli.Store
use clipbeam_cli.Store.{smooth}
use clipbeam_cli.Receive.Tests.{sample_json, sample_config, sample_call, sample_store, resolved}
use clipbeam_cli.Ingest.{ClipResponse}
use clipbeam_cli.Httpd.Outcome.{ok}
use clipbeam_cli.Httpd.JsonString.{read_string, read_all}
use clipbeam_cli.Httpd.JsonString.Windows.{read_all-read_string}
use clipbeam_cli.Httpd.JsonString.Units.{Mark, raw, short, code, paired}
use clipbeam_cli.Httpd.Clip.{TempFiles, complete}
use clipbeam_cli.Httpd.Envelope.{parse_envelope_streaming}
use clipbeam_cli.Go.Strconv.{pos}
use clipbeam_cli.Httpd.Clip.Print.{text_item}
use clipbeam_cli.Httpd.Envelope.Print.{print_envelope, parse_envelope_streaming-print_envelope}
use clipbeam_cli.Httpd.Decode.{decode_and_ingest}
use clipbeam_cli.Httpd.Decode.Cleanup.{parsed, worked, FileGone, decode_and_ingest_cleanup}
use clipbeam_cli.Httpd.Gate.{
  is_loopback_class, control_tcp, control_by, listen_unix_socket, listen_loopback_tcp, Platform,
  Options, Request, clip_gate, control_authorized, class_of_caller, forbidden,
}
use clipbeam_cli.Httpd.Gate.Needs.{IsAdmitted, clip_gate_iff, control_authorized_iff}
use clipbeam_cli.Httpd.Response.{clip_reply}
use clipbeam_cli.Httpd.Clips.{Surroundings, handle_clip}
use clipbeam_cli.Httpd.Clips.Statuses.{
  IsClipReply, handle_clip-IsClipReply, exit_of, handle_clip-exit,
}
use clipbeam_cli.Cli.Exit.{exit_ok, exit_unreachable}
use clipbeam_cli.Httpd.Routes.{Control, Host, serve}
use clipbeam_cli.Httpd.Routes.Refused.{control_paths, Unmoved, serve_refused}

abbrev pub quoted : Bytes
quoted = b'a' ∷ 92 ∷ b'u' ∷ b'0' ∷ b'0' ∷ b'e' ∷ b'9' ∷ 34 ∷ b',' ∷ []

read_all-read_string_example :
    read_all none
      (λ n. 1)
      (suc (4 * length quoted))
      (record { pending = []; finished = false; rest = quoted })
    ≡ read_string none (suc (length quoted)) quoted
read_all-read_string_example = read_all-read_string none (λ n. 1) quoted (λ n. omega arith)

-- A letter, a line feed, an accented letter and a smiley.
abbrev marks : List Mark
marks = raw b'a' ∷ (short 10 ∷ (code 0xE9 ∷ (paired 0x1F600 ∷ [])))

-- A decoder that takes the text as it stands.
abbrev pub plain_temps : TempFiles
plain_temps = record {
  decode = λ text e. complete text;
  path = λ n. codes "/save/.clipbeam-clip-1";
  fault = λ n. smooth;
}

abbrev pub body : Bytes
body = codes "{}"

abbrev quote : Bytes → Bytes
quote s = 34 ∷ (s ++ 34 ∷ [])

-- An image of two bytes.
abbrev payload_body : Bytes
payload_body =
    b'{'
    ∷ (quote (codes "version")
        ++ codes ":1,"
        ++ quote (codes "items")
        ++ codes ":[{"
        ++ quote (codes "kind")
        ++ codes ":"
        ++ quote (codes "image")
        ++ codes ","
        ++ quote (codes "bytesB64")
        ++ codes ":"
        ++ quote (codes "aGk=")
        ++ codes "}]}")

decode_and_ingest_cleanup_example :
    All
      (FileGone
        (decode_and_ingest sample_json sample_config resolved 10 plain_temps
          (λ n. sample_call)
          none
          payload_body
          sample_store).1.disk)
      (parsed sample_json sample_config resolved 10 plain_temps
        (λ n. sample_call)
        none
        payload_body
        sample_store).envelope.items
    × ((q : Bytes)
        → ((n : ℕ)
            → n
              < (parsed sample_json sample_config resolved 10 plain_temps
                  (λ n. sample_call)
                  none
                  payload_body
                  sample_store).scratch.made
            → plain_temps.path n ≢ q)
        → find q
            (decode_and_ingest sample_json sample_config resolved 10 plain_temps
              (λ n. sample_call)
              none
              payload_body
              sample_store).1.disk
          ≡ find q
              (worked sample_json sample_config resolved 10 plain_temps
                (λ n. sample_call)
                none
                payload_body
                sample_store).1.disk)
decode_and_ingest_cleanup_example =
    decode_and_ingest_cleanup sample_json sample_config resolved 10 plain_temps (λ n. sample_call)
      none payload_body sample_store

abbrev pub sample_platform : Platform
sample_platform = record {
  trim_space = λ s. s;
  parse_addr = λ s. some (v4 (127 ∷ 0 ∷ 0 ∷ 1 ∷ []));
  compare = λ a b. if bytes_eq a b then 1 else 0;
}

pub compares : ComparesContents sample_platform.compare
compares = λ a b h. refl

abbrev pub tcp_options : Options
tcp_options = record {
  listen = listen_loopback_tcp;
  token = codes "KVBN";
  peer = [];
  max_bytes = 0;
  app_version = codes "1";
}

abbrev pub sample_request : Request
sample_request = record {
  method = codes "POST";
  remote_addr = codes "127.0.0.1:4000";
  token = some (codes "KVBN");
  content_length = some 2;
  body = body;
  broken = none;
}

clip_gate_iff_example : (clip_gate sample_platform tcp_options sample_request ≡ none) ↔ (
    IsAdmitted sample_platform tcp_options tcp_options.listen sample_request
    × (sample_request.token ≡ some tcp_options.token))
clip_gate_iff_example = clip_gate_iff sample_platform tcp_options compares sample_request

control_authorized_iff_example :
    (control_authorized sample_platform tcp_options sample_request ≡ none) ↔ (
      (tcp_options.listen ≡ listen_unix_socket)
      ⊎ ((class_of_caller sample_platform tcp_options sample_request ≡ loopback)
          × (sample_request.token ≡ some tcp_options.token)))
control_authorized_iff_example =
    control_authorized_iff sample_platform tcp_options compares sample_request

abbrev pub around : Surroundings
around = record {
  platform = sample_platform;
  json = sample_json;
  store = sample_config;
  resolve = resolved;
  temps = plain_temps;
  calls = λ n. sample_call;
  error_text = λ e. codes "error";
}

handle_clip-IsClipReply_example :
    IsClipReply (handle_clip around tcp_options sample_request false sample_store).0
handle_clip-IsClipReply_example =
    handle_clip-IsClipReply around tcp_options sample_request false sample_store

handle_clip-exit_example :
    ((exit_of (handle_clip around tcp_options sample_request false sample_store).0 ≡ exit_ok) ↔ (
      (c : ClipResponse) × ((handle_clip around tcp_options sample_request false sample_store).0
        ≡ clip_reply c)))
    × (exit_of (handle_clip around tcp_options sample_request false sample_store).0
        ≢ exit_unreachable)
handle_clip-exit_example = handle_clip-exit around tcp_options sample_request false sample_store

-- The same caller without a token.
abbrev pub no_token : Control
no_token = record {
  request = record sample_request { token = none };
  path = codes "/recv";
  file_query = [];
  timeout_query = [];
  channel_header = [];
  kind_header = [];
  file_header = [];
}

-- Callers whose addresses do not parse.
abbrev pub foreign_host : Host
foreign_host = record {
  around = record around { platform = record sample_platform { parse_addr = λ s. none } };
  name = codes "box";
  goos = codes "linux";
  open_text = λ path. path;
  ingest_text = λ e. codes "error";
  recv = λ n s. (Store.ok none, s);
  wait = λ s. (Store.ok [], s);
}

no_token_refused :
    control_authorized foreign_host.around.platform tcp_options no_token.request ≡ some forbidden
unfolding control_authorized control_by control_tcp class_of_caller is_loopback_class classify
    class_of parse_ip
no_token_refused = refl

serve_refused_example :
    All
      (λ path.
        Unmoved foreign_host tcp_options forbidden
          (false, sample_store)
          (serve foreign_host tcp_options (record no_token { path = path }) (false, sample_store)))
      control_paths
serve_refused_example =
    serve_refused foreign_host tcp_options no_token false sample_store forbidden no_token_refused

parse_envelope_streaming-print_envelope_example :
    parse_envelope_streaming none plain_temps
      (print_envelope
        (λ c. c == b'<')
        (codes "mac")
        (codes "hi")
        (codes "<b>" ∷ [])
        (codes "agent")
        [])
      (record { disk = []; made = 0 })
    ≡ record {
      envelope = record {
        version = pos 1;
        channel = codes "agent";
        items = map text_item (codes "hi" ∷ codes "<b>" ∷ []);
        tmps = [];
      };
      outcome = ok tt [];
      scratch = record { disk = []; made = 0 };
    }
parse_envelope_streaming-print_envelope_example =
    parse_envelope_streaming-print_envelope none plain_temps (λ c. c == b'<') (codes "mac")
      (codes "hi") (codes "<b>" ∷ []) (codes "agent") [] (record { disk = []; made = 0 })
