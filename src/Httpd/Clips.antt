-- ===== src/Httpd/Clips.antt =====
-- internal/httpd/clip.go, `handleClip`, and singleflight.go: the requests of POST /clip, one transfer at a time.
pub mod Flight
pub mod Statuses
mod Tests
use clipbeam_cli.Prelude.{
  ℕ, zero, suc, ◌+◌, ◌-◌, ◌*◌, ◌/◌, ◌%◌, ◌^◌, ◌≤◌, ◌<◌, ◌≡◌, refl, sym, ap, ◌∙◌, ◌≢◌, ◌↔◌, ◌⊎◌, inl,
  inr, Bool, true, false, not, ◌&&◌, ◌||◌, Option, none, some, List, [], ◌∷◌, ◌++◌, map,
  append_assoc, append-nil, arith, ltb, leb, ◌==◌, if◌then◌else◌, between, ==_iff, lt→ltb, ltb→lt,
  ltb→le, leb→le, leb→lt, le→leb, lt→leb-false, le→ltb-false, All-left, All-right, All-map,
  Bool-cases, Option-cases, length, replicate, take, drop, All, last, get_or, length-append,
  length-take, length-drop, take-append-drop, take-length-append, drop-length-append, All-append,
  All-take, All-drop, Bytes, codes, bytes_eq, bytes_eq_refl, bytes_eq_iff, has_prefix,
  has_prefix-append,
}
use clipbeam_cli.Wire.{hard_ceiling}
use clipbeam_cli.Store.{StoreConfig}
use clipbeam_cli.Receive.{Json, Call, ReceiveStore}
use clipbeam_cli.Httpd.Outcome.{ClipError, over_ceiling}
use clipbeam_cli.Httpd.Clip.{TempFiles}
use clipbeam_cli.Httpd.Decode.{Served, answered, failed, exhausted, decode_and_ingest}
use clipbeam_cli.Httpd.Gate.{Platform, Options, Request, Refusal, max_bytes_of, clip_gate}
use clipbeam_cli.Httpd.Response.{HttpReply, error_reply, clip_reply, write_413, write_clip_error}

-- What the handlers are given besides the request: the parameters of the store and of the decoder, the surroundings of
-- the saves, and the texts of errnos.
pub record Surroundings : Type 0 where
  pub platform : Platform
  pub json : Json
  pub store : StoreConfig
  pub resolve : Bytes → Option Bytes
  pub temps : TempFiles
  pub calls : ℕ → Call
  pub error_text : ℕ → Bytes

-- The capacity of the slot is 1: `true` is that it is taken.
pub try_acquire : Bool → Option Bool
try_acquire true = none
try_acquire false = some true

pub release : Bool → Bool
release taken = false

-- http.MaxBytesReader: a body of more than `n` bytes ends with its error after `n`.
pub limited : ℕ → Bytes → Option ClipError → Bytes × Option ClipError
limited n body broken =
    if leb (length body) n then (body, broken) else (take n body, some over_ceiling)

-- A ceiling is the bit pattern of an `int`: MaxBytesReader takes a negative one for 0, and any
-- length is over it.
pub reader_limit : ℕ → ℕ
reader_limit n = if ltb n 9223372036854775808 then n else 0

-- An unknown length, which is -1, is over a ceiling below it.
pub over_unknown : ℕ → Bool
over_unknown n = leb 9223372036854775808 n && ltb n 18446744073709551615

pub over : ℕ → ℕ → Bool
over n declared_length = leb 9223372036854775808 n || ltb n declared_length

refuse : Refusal → HttpReply
refuse (status, reason) = error_reply status reason

module _ (env : Surroundings) (o : Options) where
  pub ceiling : ℕ
  ceiling = hard_ceiling (max_bytes_of o)

  declared : Option ℕ → Option HttpReply
  unfolding ceiling over
  declared none = some (error_reply 411 (codes "length required"))
  declared (some n) = if over ceiling n then some write_413 else none

  gated : Option Refusal → Request → Option HttpReply
  unfolding refuse declared
  gated (some refusal) r = some (refuse refusal)
  gated none r = declared r.content_length

  -- The checks before the slot, in their order.
  pub clip_checks : Request → Option HttpReply
  unfolding gated
  clip_checks r =
      if bytes_eq r.method (codes "POST")
      then gated (clip_gate env.platform o r) r
      else some (error_reply 405 (codes "method not allowed"))

  write_served : Served → HttpReply
  write_served (answered c) = clip_reply c
  write_served (failed e) = write_clip_error env.error_text e
  write_served exhausted = error_reply 500 []

  write_result : Served × ReceiveStore → HttpReply × ReceiveStore
  unfolding write_served
  write_result (v, s) = (write_served v, s)

  -- What is done with the slot held.
  pub transfer : Request → ReceiveStore → HttpReply × ReceiveStore
  unfolding write_result limited reader_limit
  transfer r s =
      let body = limited (reader_limit ceiling) r.body r.broken in
      write_result (
        decode_and_ingest env.json env.store env.resolve (max_bytes_of o) env.temps env.calls body.1
          body.0 s)

  pub with_slot : Option Bool → Request → ReceiveStore → HttpReply × (Bool × ReceiveStore)
  unfolding transfer release
  with_slot none r s = (error_reply 503 (codes "busy"), (true, s))
  with_slot (some taken) r s = let out = transfer r s in (out.0, (release taken, out.1))

  pub after_checks :
      Option HttpReply → Bool → Request → ReceiveStore → HttpReply × (Bool × ReceiveStore)
  unfolding with_slot try_acquire
  after_checks (some reply) taken r s = (reply, (taken, s))
  after_checks none taken r s = with_slot (try_acquire taken) r s

  -- `handleClip` of one request, with the slot and the store.
  pub handle_clip : Request → Bool → ReceiveStore → HttpReply × (Bool × ReceiveStore)
  unfolding after_checks clip_checks
  handle_clip r taken s = after_checks (clip_checks r) taken r s
