-- ===== src/Config/Alias/Found.antt =====
-- internal/config/alias.go, `LookupSpec`: which alias a target names.
use clipbeam_cli.Prelude.{
  ℕ, ◌≡◌, refl, sym, ap, ◌∙◌, ◌⊎◌, inl, inr, Bool, true, false, Option, none, some, List, [], ◌∷◌,
  ◌++◌, arith, if◌then◌else◌, Bool-cases, All, Bytes, codes, bytes_eq, bytes_eq_refl, bytes_eq_iff,
  ◌≢◌, ◌==◌, ◌&&◌, not, All-map,
}
use clipbeam_cli.Go.Strings.{is_empty}
use clipbeam_cli.Config.Alias.{
  Alias, AliasStore, SshSpec, first_alias, target_of, lookup, parse_ssh_spec, agree, agree_port,
  matches_spec, by_host, or_by_host, lookup_spec,
}

-- The first alias of a list that has a property.
pub record IsFirst (P : Alias → Type 0) (aliases : List Alias) (a : Alias) : Type 0 where
  pub before : List Alias
  pub after : List Alias
  pub splits : aliases ≡ before ++ a ∷ after
  pub holds : P a
  pub earlier : All (λ b. ¬ P b) before

first_alias-step :
    (test : Alias → Bool) (x : Alias) (aliases : List Alias) (t : Bool)
    → test x ≡ t
    → first_alias test (x ∷ aliases) ≡ (if t then some x else first_alias test aliases)
unfolding first_alias
first_alias-step test x aliases t e = rw (e, first_alias) refl

some_same : (a b : Alias) → some a ≡ some b → a ≡ b
some_same a b h = cc

module _ (test : Alias → Bool) (P : Alias → Type 0) (sound : (a : Alias) → test a ≡ true → P a)
    (complete : (a : Alias) → P a → test a ≡ true) where
  fails : (a : Alias) → test a ≡ false → ¬ P a
  fails a n h = cc (complete a h)

  pub first_alias-IsFirst :
      (aliases : List Alias) (a : Alias) → first_alias test aliases ≡ some a → IsFirst P aliases a
  unfolding first_alias
  first_alias-IsFirst [] a h = absurd (cc)
  first_alias-IsFirst (x ∷ aliases) a h = elim (Bool-cases (test x)) [
    | inl y ↦
        (let e = some_same x a (sym (first_alias-step test x aliases true y) ∙ h) in
          record {
            before = [];
            after = aliases;
            splits = ap (λ b. b ∷ aliases) e;
            holds = sound a (ap test (sym e) ∙ y);
            earlier = tt;
          })
    | inr n ↦
        (let f =
            first_alias-IsFirst aliases a (sym (first_alias-step test x aliases false n) ∙ h) in
          record {
            before = x ∷ f.before;
            after = f.after;
            splits = ap (λ l. x ∷ l) f.splits;
            holds = f.holds;
            earlier = (fails x n, f.earlier);
          })
  ]

first_alias-none :
    (test : Alias → Bool) (aliases : List Alias)
    → first_alias test aliases ≡ none
    → All (λ b. test b ≡ false) aliases
first_alias-none test [] h = tt
first_alias-none test (x ∷ aliases) h = elim (Bool-cases (test x)) [
  | inl y ↦ absurd (cc (sym (first_alias-step test x aliases true y) ∙ h))
  | inr n ↦ (n, first_alias-none test aliases (sym (first_alias-step test x aliases false n) ∙ h))
]

-- An alias that a target's parts name: an SSH alias of that host, whose user and port are those of
-- the target where both sides give one.
pub record Matches (user host : Bytes) (port : ℕ) (a : Alias) : Type 0 where
  pub over_ssh : a.transport ≡ codes "ssh"
  pub host_same : a.ssh_host ≡ host
  pub host_given : host ≢ []
  pub user_same : (user ≡ []) ⊎ ((a.ssh_user ≡ []) ⊎ (user ≡ a.ssh_user))
  pub port_same : (port ≡ 0) ⊎ ((a.ssh_port ≡ 0) ⊎ (port ≡ a.ssh_port))

is_empty-eq : (s : Bytes) → is_empty s ≡ true → s ≡ []
unfolding is_empty
is_empty-eq [] h = refl
is_empty-eq (c ∷ s) h = cc

is_empty-ne : (s : Bytes) → is_empty s ≡ false → s ≢ []
unfolding is_empty
is_empty-ne [] h e = cc
is_empty-ne (c ∷ s) h e = cc

agree-eq : (a b : Bytes) → agree a b ≡ true → (a ≡ []) ⊎ ((b ≡ []) ⊎ (a ≡ b))
unfolding agree
agree-eq a b h = elim (Bool-cases (is_empty a)) [
  | inl y ↦ inl (is_empty-eq a y)
  | inr n ↦ elim (Bool-cases (is_empty b)) [
    | inl y ↦ inr (inl (is_empty-eq b y))
    | inr m ↦ inr (inr ((bytes_eq_iff a b).0 (ground (arith, h))))
  ]
]

agree_port-eq : (a b : ℕ) → agree_port a b ≡ true → (a ≡ 0) ⊎ ((b ≡ 0) ⊎ (a ≡ b))
unfolding agree_port
agree_port-eq a b h = elim (Bool-cases (a == 0)) [
  | inl y ↦ inl (ground (arith, y))
  | inr n ↦ elim (Bool-cases (b == 0)) [
    | inl y ↦ inr (inl (ground (arith, y)))
    | inr m ↦ inr (inr (ground (arith, h)))
  ]
]

all_of :
    (a b c d e : Bool)
    → (a && b && c && d && e) ≡ true
    → (a ≡ true) × (b ≡ true) × (c ≡ true) × (d ≡ true) × (e ≡ true)
all_of a b c d e h = ground arith

none_of : (b : Bool) → not b ≡ true → b ≡ false
none_of true h = cc
none_of false h = refl

matches_spec-Matches :
    (p : SshSpec) (a : Alias) → matches_spec p a ≡ true → Matches p.user p.host p.port a
unfolding matches_spec
matches_spec-Matches p a h =
    let (ssh, given, host, user, port) = all_of _ _ _ _ _ h in
    let same = (bytes_eq_iff a.ssh_host p.host).0 host in
    record {
      over_ssh = (bytes_eq_iff a.transport (codes "ssh")).0 ssh;
      host_same = same;
      host_given = λ e. is_empty-ne a.ssh_host (none_of _ given) (same ∙ e);
      user_same = agree-eq p.user a.ssh_user user;
      port_same = agree_port-eq p.port a.ssh_port port;
    }

agree-same : (a : Bytes) → agree a a ≡ true
unfolding agree
agree-same a = elim (Bool-cases (is_empty a)) [
  | inl y ↦ rw y refl
  | inr n ↦ rw (n, bytes_eq_refl a) refl
]

agree-of : (a b : Bytes) → (a ≡ []) ⊎ ((b ≡ []) ⊎ (a ≡ b)) → agree a b ≡ true
unfolding agree is_empty
agree-of a b (inl e) = rw e refl
agree-of a b (inr (inl e)) = rw e (unfold is_empty in ground arith)
agree-of a b (inr (inr e)) = rw e (agree-same b)

agree_port-of : (a b : ℕ) → (a ≡ 0) ⊎ ((b ≡ 0) ⊎ (a ≡ b)) → agree_port a b ≡ true
unfolding agree_port
agree_port-of a b h = ground arith

ne-is_empty : (s : Bytes) → s ≢ [] → is_empty s ≡ false
unfolding is_empty
ne-is_empty [] h = absurd (h refl)
ne-is_empty (c ∷ s) h = refl

Matches-matches_spec :
    (p : SshSpec) (a : Alias) → Matches p.user p.host p.port a → matches_spec p a ≡ true
unfolding matches_spec
Matches-matches_spec p a m =
    rw
      (
        (bytes_eq_iff a.transport (codes "ssh")).1 m.over_ssh,
        ne-is_empty a.ssh_host (λ e. m.host_given (sym m.host_same ∙ e)),
        (bytes_eq_iff a.ssh_host p.host).1 m.host_same,
        agree-of p.user a.ssh_user m.user_same,
        agree_port-of p.port a.ssh_port m.port_same,
      )
      refl

-- An alias of the name that a target gives: its own text, or the default name for an empty one.
abbrev pub Named : AliasStore → Bytes → Alias → Type 0
Named s spec a = ((spec ≡ []) × (a.name ≡ s.default_alias)) ⊎ ((spec ≢ []) × (a.name ≡ spec))

of_name-Named :
    (s : AliasStore) (spec : Bytes) (a : Alias)
    → bytes_eq a.name (target_of s spec) ≡ true
    → Named s spec a
unfolding target_of is_empty
of_name-Named s [] a h = inl (refl, (bytes_eq_iff a.name s.default_alias).0 h)
of_name-Named s (c ∷ spec) a h = inr ((λ e. cc), (bytes_eq_iff a.name (c ∷ spec)).0 h)

Named-of_name :
    (s : AliasStore) (spec : Bytes) (a : Alias)
    → Named s spec a
    → bytes_eq a.name (target_of s spec) ≡ true
unfolding target_of is_empty
Named-of_name s [] a (inl (e, h)) = (bytes_eq_iff a.name s.default_alias).1 h
Named-of_name s [] a (inr (ne, h)) = absurd (ne refl)
Named-of_name s (c ∷ spec) a (inl (e, h)) = cc
Named-of_name s (c ∷ spec) a (inr (ne, h)) = (bytes_eq_iff a.name (c ∷ spec)).1 h

guarded_some :
    (t : Bool) (later : Option Alias) (a : Alias)
    → (if t then none else later) ≡ some a
    → later ≡ some a
guarded_some true later a h = absurd (cc)
guarded_some false later a h = h

or_by_host_cases :
    (s : AliasStore) (spec : Bytes) (a : Alias) (o : Option Alias)
    → or_by_host s spec o ≡ some a
    → (o ≡ some a)
      ⊎ ((o ≡ none) × (first_alias (matches_spec (parse_ssh_spec spec)) s.aliases ≡ some a))
unfolding or_by_host by_host
or_by_host_cases s spec a (some b) h = inl h
or_by_host_cases s spec a none h =
    inr (
      refl,
      guarded_some _ _ a (guarded_some (is_empty spec) (by_host s (parse_ssh_spec spec)) a h),
    )

-- What a target resolves to is the first alias of that name (of the default name, where the target
-- is empty), or, where no alias has the name, the first SSH alias whose host is that of the target
-- and whose user and port are those of the target where both sides give one.
pub lookup_spec-IsFirst :
    (s : AliasStore) (spec : Bytes) (a : Alias)
    → lookup_spec s spec ≡ some a
    → IsFirst (Named s spec) s.aliases a
      ⊎ (All (λ b. ¬ Named s spec b) s.aliases
          × IsFirst
              (Matches
                (parse_ssh_spec spec).user
                (parse_ssh_spec spec).host
                (parse_ssh_spec spec).port)
              s.aliases
              a)
unfolding lookup_spec lookup
lookup_spec-IsFirst s spec a h = elim (or_by_host_cases s spec a (lookup s spec) h) [
  | inl e ↦ inl (
      first_alias-IsFirst (λ b. bytes_eq b.name (target_of s spec)) (Named s spec)
        (of_name-Named s spec) (Named-of_name s spec) s.aliases a e)
  | inr (missing, e) ↦ inr (
    All-map
        (fails (λ b. bytes_eq b.name (target_of s spec)) (Named s spec) (of_name-Named s spec)
          (Named-of_name s spec))
        s.aliases (first_alias-none (λ b. bytes_eq b.name (target_of s spec)) s.aliases missing),
    first_alias-IsFirst (matches_spec (parse_ssh_spec spec))
        (Matches (parse_ssh_spec spec).user (parse_ssh_spec spec).host (parse_ssh_spec spec).port)
        (matches_spec-Matches (parse_ssh_spec spec)) (Matches-matches_spec (parse_ssh_spec spec))
        s.aliases a e,
  )
]
