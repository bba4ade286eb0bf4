-- ===== src/Classify/Order.antt =====
-- internal/classify/classify.go: what a class says of the caller.
use clipbeam_cli.Prelude.{
  ◌≡◌, refl, ap, ◌≢◌, ◌↔◌, inl, inr, Bool, true, false, ◌&&◌, Option, none, some, arith, Bool-cases,
  Bytes, bytes_eq, bytes_eq_refl, bytes_eq_iff,
}
use clipbeam_cli.Classify.{
  foreign, peer_host, Addr, v4, v6, same_addr, is_peer, class_of, classify, parse_ip,
}

v4_injective : {a b : Bytes} → v4 a ≡ v4 b → a ≡ b
v4_injective e = cc

v6_octets : {a b z w : Bytes} → v6 a z ≡ v6 b w → a ≡ b
v6_octets e = cc

v6_zone : {a b z w : Bytes} → v6 a z ≡ v6 b w → z ≡ w
v6_zone e = cc

and_true : (a b : Bool) → a && b ≡ true → (a ≡ true) × (b ≡ true)
and_true a b h = ground arith

other_class : foreign ≢ peer_host
other_class h = cc

no_address : {ip : Addr} → none ≢ some ip
no_address h = cc

one_address : {a b c : Addr} → some a ≡ some c → some b ≡ some c → a ≡ b
one_address e f = cc

clash : {b : Bool} → b ≡ false → b ≢ true
clash n y = cc

same_addr_iff : (a b : Addr) → (same_addr a b ≡ true) ↔ (a ≡ b)
unfolding same_addr
same_addr_iff (v4 a) (v4 b) =
    (λ h. ap v4 ((bytes_eq_iff a b).0 h), λ e. (bytes_eq_iff a b).1 (v4_injective e))
same_addr_iff (v4 a) (v6 b w) = (λ h. cc, λ e. cc)
same_addr_iff (v6 a z) (v4 b) = (λ h. cc, λ e. cc)
same_addr_iff (v6 a z) (v6 b w) = (
  λ h.
      (let e = and_true (bytes_eq a b) (bytes_eq z w) h in
        cc ((bytes_eq_iff a b).0 e.0, (bytes_eq_iff z w).0 e.1)),
  λ e. rw (v6_octets e, v6_zone e) (rw (bytes_eq_refl b, bytes_eq_refl w) refl),
)

module _ (trim_space : Bytes → Bytes) (parse_addr : Bytes → Option Addr) where
  -- Below the test of the peer no class is the peer's.
  below_peer :
      (ip : Addr) (other : Option Addr)
      → is_peer trim_space parse_addr ip other ≡ false
      → class_of trim_space parse_addr (some ip) other ≢ peer_host
  unfolding class_of
  below_peer ip other h = ground (arith, h)

  Both : Option Addr → Option Addr → Type 0
  Both o p = (ip : Addr) × ((o ≡ some ip) × (p ≡ some ip))

  class_of_iff : (o p : Option Addr) → (class_of trim_space parse_addr o p ≡ peer_host) ↔ Both o p
  unfolding class_of is_peer Both
  class_of_iff none p = (λ h. absurd (other_class h), λ (ip, (e, f)). absurd (no_address e))
  class_of_iff (some ip) none =
      (λ h. absurd (below_peer ip none refl h), λ (q, (e, f)). absurd (no_address f))
  class_of_iff (some ip) (some q) = elim (Bool-cases (same_addr ip q)) [
    | inl same ↦ (λ h. (q, (ap some ((same_addr_iff ip q).0 same), refl)), λ both. rw same refl)
    | inr other ↦ (
      λ h. absurd (below_peer ip (some q) other h),
      λ (r, (e, f)). absurd (clash other ((same_addr_iff ip q).1 (one_address e f))),
    )
  ]

-- The caller is the peer exactly when both hosts parse and give the same address, whatever class
-- that address is in otherwise.
pub classify-peer_iff :
    (trim_space : Bytes → Bytes) (parse_addr : Bytes → Option Addr) (remote peer : Bytes)
    → (classify trim_space parse_addr remote peer ≡ peer_host) ↔ (
        (ip : Addr) × ((parse_ip trim_space parse_addr remote ≡ some ip)
          × (parse_ip trim_space parse_addr peer ≡ some ip)))
unfolding classify Both
classify-peer_iff trim_space parse_addr remote peer =
    class_of_iff trim_space parse_addr (parse_ip trim_space parse_addr remote)
      (parse_ip trim_space parse_addr peer)
