-- ===== src/Httpd/Gate.antt =====
-- internal/httpd/gate.go and httpd.go: who may call what.
pub mod Needs
use clipbeam_cli.Prelude.{
  ℕ, zero, suc, ◌+◌, ◌-◌, ◌*◌, ◌/◌, ◌%◌, ◌^◌, ◌≤◌, ◌<◌, ◌≡◌, refl, sym, ap, ◌∙◌, ◌≢◌, ◌↔◌, ◌⊎◌, inl,
  inr, Bool, true, false, not, ◌&&◌, ◌||◌, Option, none, some, List, [], ◌∷◌, ◌++◌, map,
  append_assoc, append-nil, arith, ltb, leb, ◌==◌, if◌then◌else◌, between, ==_iff, lt→ltb, ltb→lt,
  ltb→le, leb→le, leb→lt, le→leb, lt→leb-false, le→ltb-false, All-left, All-right, All-map,
  Bool-cases, Option-cases, length, replicate, take, drop, All, last, get_or, length-append,
  length-take, length-drop, take-append-drop, take-length-append, drop-length-append, All-append,
  All-take, All-drop, Bytes, codes, bytes_eq, bytes_eq_refl, bytes_eq_iff, has_prefix,
  has_prefix-append,
}
use clipbeam_cli.Go.Strings.{is_empty}
use clipbeam_cli.Auth.{constant_time_equals}
use clipbeam_cli.Classify.{
  SourceClass, foreign, loopback, peer_host, tailnet_other, Addr, classify, remote_endpoint,
}
use clipbeam_cli.Wire.{default_max_bytes}
use clipbeam_cli.Httpd.Outcome.{ClipError}

pub data ListenKind : Type 0 where
  listen_unix_socket : ListenKind
  listen_loopback_tcp : ListenKind
  listen_tailscale : ListenKind

-- strings.TrimSpace, netip.ParseAddr and crypto/subtle.ConstantTimeCompare.
pub record Platform : Type 0 where
  pub trim_space : Bytes → Bytes
  pub parse_addr : Bytes → Option Addr
  pub compare : Bytes → Bytes → ℕ

-- `max_bytes` is the configured one, which may be 0.
pub record Options : Type 0 where
  pub listen : ListenKind
  pub token : Bytes
  pub peer : Bytes
  pub max_bytes : ℕ
  pub app_version : Bytes

-- What net/http hands to a handler. `token` is the first X-ClipBeam-Token header, and a
-- `content_length` of `none` is one below 0. The body ends with `broken`, or with io.EOF.
pub record Request : Type 0 where
  pub method : Bytes
  pub remote_addr : Bytes
  pub token : Option Bytes
  pub content_length : Option ℕ
  pub body : Bytes
  pub broken : Option ClipError

unfoldable pub max_bytes_of : Options → ℕ
max_bytes_of o = if o.max_bytes == 0 then default_max_bytes else o.max_bytes

-- A status and a reason.
abbrev pub Refusal : Type 0
Refusal = ℕ × Bytes

unfoldable pub is_loopback_class : SourceClass → Bool
is_loopback_class loopback = true
is_loopback_class c = false

pub is_peer_class : SourceClass → Bool
is_peer_class peer_host = true
is_peer_class c = false

abbrev pub forbidden : Refusal
forbidden = (403, codes "forbidden")

abbrev pub unauthorized : Refusal
unauthorized = (401, codes "unauthorized")

module _ (platform : Platform) (o : Options) where
  unfoldable pub class_of_caller : Request → SourceClass
  class_of_caller r =
      classify platform.trim_space platform.parse_addr
        (remote_endpoint platform.trim_space r.remote_addr) o.peer

  pub has_token : Request → Bool
  has_token r = constant_time_equals platform.compare r.token o.token

  class_admits : ListenKind → SourceClass → Bool
  class_admits listen_tailscale c = is_peer_class c
  class_admits listen_loopback_tcp c = is_loopback_class c || is_peer_class c
  class_admits listen_unix_socket c = true

  -- The class, then the token.
  pub clip_gate : Request → Option Refusal
  unfolding class_admits has_token
  clip_gate r =
      if not (class_admits o.listen (class_of_caller r))
      then some forbidden
      else if not (has_token r)
      then some unauthorized
      else none

  unfoldable pub control_tcp : Request → Option Refusal
  unfolding has_token
  control_tcp r =
      if not (is_loopback_class (class_of_caller r))
      then some forbidden
      else if not (has_token r)
      then some unauthorized
      else none

  unfoldable pub control_by : ListenKind → Request → Option Refusal
  unfolding control_tcp
  control_by listen_unix_socket r = none
  control_by listen_loopback_tcp r = control_tcp r
  control_by listen_tailscale r = control_tcp r

  unfoldable pub control_authorized : Request → Option Refusal
  unfolding control_by
  control_authorized r = control_by o.listen r
