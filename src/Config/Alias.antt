-- ===== src/Config/Alias.antt =====
-- internal/config/alias.go: the saved targets. Loading and saving them is JSON and files.
pub mod Found
pub mod Spec
mod Tests
use clipbeam_cli.Prelude.{
  ℕ, zero, suc, ◌+◌, ◌-◌, ◌*◌, ◌/◌, ◌%◌, ◌^◌, ◌≤◌, ◌<◌, ◌≡◌, refl, sym, ap, ◌∙◌, ◌≢◌, ◌↔◌, ◌⊎◌, inl,
  inr, Bool, true, false, not, ◌&&◌, ◌||◌, Option, none, some, List, [], ◌∷◌, ◌++◌, map,
  append_assoc, append-nil, arith, ltb, leb, ◌==◌, if◌then◌else◌, between, ==_iff, lt→ltb, ltb→lt,
  ltb→le, leb→le, leb→lt, le→leb, lt→leb-false, le→ltb-false, All-left, All-right, All-map,
  Bool-cases, Option-cases, length, replicate, take, drop, All, last, get_or, length-append,
  length-take, length-drop, take-append-drop, take-length-append, drop-length-append, All-append,
  All-take, All-drop, Bytes, codes, bytes_eq, bytes_eq_refl, bytes_eq_iff, has_prefix,
  has_prefix-append,
}
use clipbeam_cli.Go.Strings.{is_empty, last_index}
use clipbeam_cli.Classify.{count_byte}

pub record Alias : Type 0 where
  pub name : Bytes
  pub transport : Bytes
  pub ssh_user : Bytes
  pub ssh_host : Bytes
  pub ssh_port : ℕ
  pub ssh_config_alias : Bytes
  pub remote_bin_path : Bytes
  pub serve_mode : Bytes
  pub peer_ip : Bytes
  pub is_default : Bool

pub record AliasStore : Type 0 where
  pub aliases : List Alias
  pub default_alias : Bytes

-- The first alias that passes a test.
pub first_alias : (Alias → Bool) → List Alias → Option Alias
first_alias test [] = none
first_alias test (a ∷ aliases) =
    let later = first_alias test aliases in if test a then some a else later

pub target_of : AliasStore → Bytes → Bytes
target_of s name = if is_empty name then s.default_alias else name

pub lookup : AliasStore → Bytes → Option Alias
unfolding first_alias target_of bytes_eq
lookup s name = first_alias (λ a. bytes_eq a.name (target_of s name)) s.aliases

-- The digits after a value so far; `none` is another byte.
pub port_digits : ℕ → Bytes → Option ℕ
port_digits n [] = some n
port_digits n (b ∷ s) =
    let later = port_digits (n * 10 + (b - b'0')) s in
    if ltb b b'0' || ltb b'9' b then none else later

in_range : Option ℕ → ℕ
in_range none = 0
in_range (some n) = if ltb n 1 || ltb 65535 n then 0 else n

pub atoi_port : Bytes → ℕ
unfolding in_range port_digits
atoi_port s = if is_empty s || ltb 5 (length s) then 0 else in_range (port_digits 0 s)

-- The user and what follows it.
split_user : Bytes → Option ℕ → Bytes × Bytes
split_user s none = ([], s)
split_user s (some at) = (take at s, drop (suc at) s)

-- The host and the port, from the last colon.
split_port : Bytes → Option ℕ → Bytes × ℕ
unfolding atoi_port
split_port s none = (s, 0)
split_port s (some i) =
    let p = atoi_port (drop (suc i) s) in
    if (count_byte b':' s == 1) && ltb 0 p then (take i s, p) else (s, 0)

pub record SshSpec : Type 0 where
  pub user : Bytes
  pub host : Bytes
  pub port : ℕ

with_user : Bytes × Bytes → SshSpec
unfolding split_port
with_user (user, s) =
    let hp = split_port s (last_index b':' s) in record { user = user; host = hp.0; port = hp.1 }

pub parse_ssh_spec : Bytes → SshSpec
unfolding with_user split_user
parse_ssh_spec spec = with_user (split_user spec (last_index b'@' spec))

-- Where both sides name a user or a port, the two are to agree.
pub agree : Bytes → Bytes → Bool
agree a b = is_empty a || is_empty b || bytes_eq a b

pub agree_port : ℕ → ℕ → Bool
agree_port a b = (a == 0) || (b == 0) || (a == b)

pub matches_spec : SshSpec → Alias → Bool
unfolding agree agree_port
matches_spec p a =
    bytes_eq a.transport (codes "ssh")
    && not (is_empty a.ssh_host)
    && bytes_eq a.ssh_host p.host
    && agree p.user a.ssh_user
    && agree_port p.port a.ssh_port

by_host : AliasStore → SshSpec → Option Alias
unfolding first_alias matches_spec
by_host s p = if is_empty p.host then none else first_alias (matches_spec p) s.aliases

or_by_host : AliasStore → Bytes → Option Alias → Option Alias
unfolding by_host parse_ssh_spec
or_by_host s spec (some a) = some a
or_by_host s spec none = if is_empty spec then none else by_host s (parse_ssh_spec spec)

pub lookup_spec : AliasStore → Bytes → Option Alias
unfolding or_by_host lookup
lookup_spec s spec = or_by_host s spec (lookup s spec)
