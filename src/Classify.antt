-- ===== src/Classify.antt =====
-- internal/classify/classify.go: which callers the HTTP side sees. netip.ParseAddr is the
-- parameter `parse_addr`, and strings.TrimSpace `trim_space`; an address is its octets and its zone.
pub mod Order
use clipbeam_cli.Prelude.{
  ℕ, zero, suc, ◌+◌, ◌-◌, ◌*◌, ◌/◌, ◌%◌, ◌^◌, ◌≤◌, ◌<◌, ◌≡◌, refl, sym, ap, ◌∙◌, ◌≢◌, ◌↔◌, ◌⊎◌, inl,
  inr, Bool, true, false, not, ◌&&◌, ◌||◌, Option, none, some, List, [], ◌∷◌, ◌++◌, map,
  append_assoc, append-nil, arith, ltb, leb, ◌==◌, if◌then◌else◌, between, ==_iff, lt→ltb, ltb→lt,
  ltb→le, leb→le, leb→lt, le→leb, lt→leb-false, le→ltb-false, All-left, All-right, All-map,
  Bool-cases, Option-cases, length, replicate, take, drop, All, last, get_or, length-append,
  length-take, length-drop, take-append-drop, take-length-append, drop-length-append, All-append,
  All-take, All-drop, Bytes, codes, bytes_eq, bytes_eq_refl, bytes_eq_iff, has_prefix,
  has_prefix-append,
}
use clipbeam_cli.Go.Strings.{is_empty, last_index, trim, is_blank, has_suffix}
use mathlib.Core.Option

pub data SourceClass : Type 0 where
  foreign : SourceClass
  loopback : SourceClass
  peer_host : SourceClass
  tailnet_other : SourceClass

-- The name of a class in the log.
pub to_string : SourceClass → Bytes
to_string loopback = codes "loopback"
to_string peer_host = codes "peer"
to_string tailnet_other = codes "tailnetOther"
to_string foreign = codes "foreign"

-- netip.Addr: 4 or 16 octets, and the zone of an IPv6 address.
pub data Addr : Type 0 where
  v4 : Bytes → Addr
  v6 : Bytes → Bytes → Addr

abbrev pub mapped_prefix : Bytes
mapped_prefix = replicate 10 0 ++ (255 ∷ (255 ∷ []))

-- WithZone("") and, of an IPv4-mapped address, Unmap.
pub normal : Addr → Addr
normal (v4 b) = v4 b
normal (v6 b zone) = if has_prefix b mapped_prefix then v4 (drop 12 b) else v6 b []

-- `==` on netip.Addr
pub same_addr : Addr → Addr → Bool
same_addr (v4 a) (v4 b) = bytes_eq a b
same_addr (v6 a z) (v6 b w) = bytes_eq a b && bytes_eq z w
same_addr _ _ = false

-- IsLoopback: 127.0.0.0/8 or ::1.
pub is_loopback : Addr → Bool
is_loopback (v4 b) = get_or b 0 0 == 127
is_loopback (v6 b zone) = bytes_eq b (replicate 15 0 ++ (1 ∷ []))

-- `b[1] & 0xC0 == 0x40` is a test of the two highest bits.
pub is_tailnet : Addr → Bool
is_tailnet (v4 b) = get_or b 0 0 == 100 && (get_or b 1 0 / 64 == 1)
is_tailnet (v6 b zone) = has_prefix b (253 ∷ (122 ∷ (17 ∷ (92 ∷ (161 ∷ (224 ∷ []))))))

-- The brackets of `[::1]`.
pub unbracket : Bytes → Bytes
unfolding has_prefix has_suffix
unbracket s =
    if leb 2 (length s) && (has_prefix s (codes "[") && has_suffix s (codes "]"))
    then drop 1 (take (length s - 1) s)
    else s

unfoldable pub count_byte : ℕ → Bytes → ℕ
count_byte c [] = 0
count_byte c (d ∷ s) = let n = count_byte c s in if d == c then suc n else n

module _ (trim_space : Bytes → Bytes) where
  -- A host of `host:port` or `[host]:port`; the index of a `]` is above 0 here.
  pub remote_endpoint : Bytes → Bytes
  unfolding is_empty last_index
  remote_endpoint addr =
      let s = trim_space addr in
      if is_empty s
      then []
      else if has_prefix s (codes "[")
      then elim (last_index b']' s) [ some end_at ↦ drop 1 (take end_at s) | none ↦ s ]
      else if count_byte b':' s == 1
      then elim (last_index b':' s) [ some i ↦ take i s | none ↦ s ]
      else s

module _ (trim_space : Bytes → Bytes) (parse_addr : Bytes → Option Addr) where
  unfoldable pub parse_ip : Bytes → Option Addr
  parse_ip raw = Option.map normal (parse_addr (unbracket (trim_space raw)))

  pub is_peer : Addr → Option Addr → Bool
  is_peer ip none = false
  is_peer ip (some other) = same_addr ip other

  unfoldable pub class_of : Option Addr → Option Addr → SourceClass
  class_of none other = foreign
  class_of (some ip) other =
      if is_peer ip other
      then peer_host
      else if is_loopback ip
      then loopback
      else if is_tailnet ip
      then tailnet_other
      else foreign

  unfoldable pub classify : Bytes → Bytes → SourceClass
  classify remote peer = class_of (parse_ip remote) (parse_ip peer)
