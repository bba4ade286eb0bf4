-- ===== src/Httpd/Gate/Needs.antt =====
-- internal/httpd/gate.go: what a caller that passes a gate has.
use clipbeam_cli.Prelude.{
  ◌≡◌, refl, ◌↔◌, ◌⊎◌, inl, inr, Bool, true, false, not, ◌||◌, Option, none, some, if◌then◌else◌,
  Bool-cases,
}
use clipbeam_cli.Go.Strings.{OnSome}
use clipbeam_cli.Auth.Compare.{ComparesContents, constant_time_equals_iff}
use clipbeam_cli.Classify.{
  SourceClass, foreign, loopback, peer_host, tailnet_other, Addr, remote_endpoint, parse_ip,
}
use clipbeam_cli.Classify.Order.{classify-peer_iff}
use clipbeam_cli.Httpd.Gate.{
  ListenKind, listen_unix_socket, listen_loopback_tcp, listen_tailscale, Platform, Options, Request,
  Refusal, is_loopback_class, is_peer_class, forbidden, unauthorized, class_of_caller, has_token,
  class_admits, clip_gate, control_tcp, control_by, control_authorized,
}

is_peer_class_iff : (c : SourceClass) → (is_peer_class c ≡ true) ↔ (c ≡ peer_host)
unfolding is_peer_class
is_peer_class_iff peer_host = (λ h. refl, λ h. refl)
is_peer_class_iff loopback = (λ h. cc, λ h. cc)
is_peer_class_iff foreign = (λ h. cc, λ h. cc)
is_peer_class_iff tailnet_other = (λ h. cc, λ h. cc)

is_loopback_class_iff : (c : SourceClass) → (is_loopback_class c ≡ true) ↔ (c ≡ loopback)
unfolding is_loopback_class
is_loopback_class_iff peer_host = (λ h. cc, λ h. cc)
is_loopback_class_iff loopback = (λ h. refl, λ h. refl)
is_loopback_class_iff foreign = (λ h. cc, λ h. cc)
is_loopback_class_iff tailnet_other = (λ h. cc, λ h. cc)

local_or_peer :
    (c : SourceClass)
    → ((is_loopback_class c || is_peer_class c) ≡ true) ↔ ((c ≡ loopback) ⊎ (c ≡ peer_host))
unfolding is_loopback_class is_peer_class
local_or_peer peer_host = (λ h. inr refl, λ h. refl)
local_or_peer loopback = (λ h. inl refl, λ h. refl)
local_or_peer foreign = (λ h. cc, elim [ inl e ↦ cc | inr e ↦ cc ])
local_or_peer tailnet_other = (λ h. cc, elim [ inl e ↦ cc | inr e ↦ cc ])

-- Two tests, each with its refusal.
gated : Bool → Bool → Option Refusal
gated first second =
    if not first then some forbidden else if not second then some unauthorized else none

gated_iff : (a b : Bool) → (gated a b ≡ none) ↔ ((a ≡ true) × (b ≡ true))
unfolding gated
gated_iff true true = (λ h. (refl, refl), λ h. refl)
gated_iff true false = (λ h. cc, λ (p, q). cc q)
gated_iff false b = (λ h. cc, λ (p, q). cc p)

module _ (platform : Platform) (o : Options) where
  -- What the bind mode asks of the source of a /clip.
  unfoldable pub IsAdmitted : ListenKind → Request → Type 0
  IsAdmitted listen_tailscale r =
      (ip : Addr) × ((parse_ip platform.trim_space platform.parse_addr
            (remote_endpoint platform.trim_space r.remote_addr)
          ≡ some ip)
        × (parse_ip platform.trim_space platform.parse_addr o.peer ≡ some ip))
  IsAdmitted listen_loopback_tcp r =
      (class_of_caller platform o r ≡ loopback) ⊎ (class_of_caller platform o r ≡ peer_host)
  IsAdmitted listen_unix_socket r = Unit

  class_admits_iff :
      (l : ListenKind) (r : Request)
      → (class_admits platform o l (class_of_caller platform o r) ≡ true) ↔ IsAdmitted l r
  unfolding class_admits IsAdmitted class_of_caller
  class_admits_iff listen_tailscale r = (
    λ h.
        (classify-peer_iff platform.trim_space platform.parse_addr
            (remote_endpoint platform.trim_space r.remote_addr) o.peer).0
          ((is_peer_class_iff (class_of_caller platform o r)).0 h),
    λ h. (is_peer_class_iff (class_of_caller platform o r)).1 (
        (classify-peer_iff platform.trim_space platform.parse_addr
            (remote_endpoint platform.trim_space r.remote_addr) o.peer).1
          h),
  )
  class_admits_iff listen_loopback_tcp r = local_or_peer (class_of_caller platform o r)
  class_admits_iff listen_unix_socket r = (λ h. tt, λ h. refl)

  has_token_iff :
      ComparesContents platform.compare
      → (r : Request) → (has_token platform o r ≡ true) ↔ (r.token ≡ some o.token)
  unfolding has_token
  has_token_iff documented r = constant_time_equals_iff platform.compare documented r.token o.token

  control_tcp_iff :
      ComparesContents platform.compare
      → (r : Request)
      → (control_tcp platform o r ≡ none)
        ↔ ((class_of_caller platform o r ≡ loopback) × (r.token ≡ some o.token))
  unfolding control_tcp gated
  control_tcp_iff documented r = (
    λ h.
        (let p =
            (gated_iff (is_loopback_class (class_of_caller platform o r))
                (has_token platform o r)).0
              h in
          (
            (is_loopback_class_iff (class_of_caller platform o r)).0 p.0,
            (has_token_iff documented r).0 p.1,
          )),
    λ (c, t).
        (gated_iff (is_loopback_class (class_of_caller platform o r)) (has_token platform o r)).1 (
          (is_loopback_class_iff (class_of_caller platform o r)).1 c,
          (has_token_iff documented r).1 t,
        ),
  )

  control_by_iff :
      ComparesContents platform.compare
      → (l : ListenKind) (r : Request)
      → (control_by platform o l r ≡ none) ↔ (
          (l ≡ listen_unix_socket)
          ⊎ ((class_of_caller platform o r ≡ loopback) × (r.token ≡ some o.token)))
  unfolding control_by
  control_by_iff documented listen_unix_socket r = (λ h. inl refl, λ h. refl)
  control_by_iff documented listen_loopback_tcp r = (
    λ h. inr ((control_tcp_iff documented r).0 h),
    elim [ inl e ↦ cc | inr p ↦ (control_tcp_iff documented r).1 p ],
  )
  control_by_iff documented listen_tailscale r = (
    λ h. inr ((control_tcp_iff documented r).0 h),
    elim [ inl e ↦ cc | inr p ↦ (control_tcp_iff documented r).1 p ],
  )

  -- A request passes the gate of /clip exactly when its source is one that the bind mode admits (the peer's very address on
  -- the tailnet, the peer or the loopback on a loopback port, anyone on the socket) and its token is the
  -- expected one, where ConstantTimeCompare tells equal from unequal contents.
  pub clip_gate_iff :
      ComparesContents platform.compare
      → (r : Request)
      → (clip_gate platform o r ≡ none) ↔ (IsAdmitted o.listen r × (r.token ≡ some o.token))
  unfolding clip_gate gated
  clip_gate_iff documented r = (
    λ h.
        (let p =
            (gated_iff (class_admits platform o o.listen (class_of_caller platform o r))
                (has_token platform o r)).0
              h in
          ((class_admits_iff o.listen r).0 p.0, (has_token_iff documented r).0 p.1)),
    λ (c, t).
        (gated_iff (class_admits platform o o.listen (class_of_caller platform o r))
            (has_token platform o r)).1
          ((class_admits_iff o.listen r).1 c, (has_token_iff documented r).1 t),
  )

  -- A request passes the gate of the control routes exactly when it comes over the socket, or from the loopback
  -- with the expected token.
  pub control_authorized_iff :
      ComparesContents platform.compare
      → (r : Request)
      → (control_authorized platform o r ≡ none) ↔ (
          (o.listen ≡ listen_unix_socket)
          ⊎ ((class_of_caller platform o r ≡ loopback) × (r.token ≡ some o.token)))
  unfolding control_authorized
  control_authorized_iff documented r = control_by_iff documented o.listen r

-- A refusal of the gate is a 403 or a 401.
pub clip_gate_refuses :
    (platform : Platform) (o : Options) (r : Request)
    → OnSome (λ (p : Refusal). (p ≡ forbidden) ⊎ (p ≡ unauthorized)) (clip_gate platform o r)
unfolding clip_gate
clip_gate_refuses platform o r =
    elim (Bool-cases (class_admits platform o o.listen (class_of_caller platform o r))) [
      | inl y ↦ elim (Bool-cases (has_token platform o r)) [
        | inl y' ↦ rw (y, y') tt
        | inr n ↦ rw (y, n) (inr refl)
      ]
      | inr n ↦ rw n (inl refl)
    ]
