-- ===== src/Sanitize/Cap.antt =====
-- The cut of a sanitized name to a number of bytes (truncateBytes and CapLength of
-- internal/sanitize/sanitize.go).
use clipbeam_cli.Prelude.{
  ℕ, zero, suc, ◌-◌, ◌≤◌, ◌<◌, ◌≡◌, refl, sym, ap, ◌∙◌, ◌⊎◌, inl, inr, true, false, [], ◌∷◌, ◌++◌,
  append-nil, arith, leb, leb→le, leb→lt, le→leb, lt→leb-false, All-left, All-right, All-map,
  Bool-cases, length, take, All, length-append, length-take, All-append, All-take, Bytes,
}
use mathlib.Core.Path.{subst}
use native.Mathlib.Decide.{dec_le}
use clipbeam_cli.Go.Strings.{is_empty, is_empty-false}
use clipbeam_cli.Go.Utf8.{IsAscii, last_rune_ok, last_rune_ok-ascii}
use clipbeam_cli.Go.Clock.{Time}
use clipbeam_cli.Sanitize.{
  shrink, truncate_bytes, path_extension, deleting_path_extension, dot_ext, cap_length,
}
use clipbeam_cli.Sanitize.Names.{
  IsNameByte, Leads, IsNameByte-ascii, IsNameByte-ne-slash, ExtensionSplit, extension_split,
}

-- A name that is safe to create: name bytes only, not empty and not hidden.
pub record IsSafeName (s : Bytes) : Type 0 where
  pub chars : All IsNameByte s
  pub leads : Leads s

pub Leads-pos : (s : Bytes) → Leads s → 0 < length s
Leads-pos [] h = absurd h
Leads-pos (c ∷ s) h = omega arith

pub Leads-take : (n : ℕ) (s : Bytes) → 0 < n → Leads s → Leads (take n s)
Leads-take zero s h l = absurd (omega arith)
Leads-take (suc n) [] h l = l
Leads-take (suc n) (c ∷ s) h l = l

Leads-left : (s t : Bytes) → 0 < length s → Leads (s ++ t) → Leads s
Leads-left [] t h l = absurd (omega arith)
Leads-left (c ∷ s) t h l = l

pub Leads-append : (s t : Bytes) → Leads s → Leads (s ++ t)
Leads-append [] t l = absurd l
Leads-append (c ∷ s) t l = l

take-all : (s : Bytes) (n : ℕ) → length s ≤ n → take n s ≡ s
take-all [] zero h = refl
take-all [] (suc n) h = refl
take-all (c ∷ s) zero h = absurd (omega arith)
take-all (c ∷ s) (suc n) h = ap (λ (t : Bytes). c ∷ t) (take-all s n (omega arith))

shrink-take : (n : ℕ) (s : Bytes) → IsAscii s → 0 < length s → shrink n s ≡ take n s
unfolding shrink
shrink-take zero s h p = refl
shrink-take (suc n) s h p =
    rw
      (last_rune_ok-ascii (take (suc n) s) (All-take _ (suc n) s h)
        (omega (arith, length-take (suc n) s)))
      refl

truncate_short : (s : Bytes) (n : ℕ) → leb (length s) n ≡ true → truncate_bytes s n ≡ s
unfolding truncate_bytes
truncate_short s n e = rw e

truncate_long : (s : Bytes) (n : ℕ) → leb (length s) n ≡ false → truncate_bytes s n ≡ shrink n s
unfolding truncate_bytes
truncate_long s n e = rw e

-- On ASCII the cut is a plain prefix.
truncate_bytes-take : (s : Bytes) (n : ℕ) → IsAscii s → truncate_bytes s n ≡ take n s
truncate_bytes-take s n h = elim (Bool-cases (leb (length s) n)) [
  | inl y ↦ truncate_short s n y ∙ sym (take-all s n (leb→le _ _ y))
  | inr no_fit ↦
      truncate_long s n no_fit ∙ shrink-take n s h (omega (arith, leb→lt (length s) n no_fit))
]

-- The longest prefix of at most a given length that is whole: empty, the name itself, or one that
-- ends in a valid rune.
pub record IsLongestWhole (s : Bytes) (n : ℕ) (t : Bytes) : Type 0 where
  pub size : ℕ
  pub prefix : t ≡ take size s
  pub within : length t ≤ n
  pub whole : (t ≡ s) ⊎ ((t ≡ []) ⊎ (last_rune_ok t ≡ true))
  pub longest : (k : ℕ) → k ≤ n → last_rune_ok (take k s) ≡ true → length (take k s) ≤ length t

shrink-IsLongestWhole : (n : ℕ) (s : Bytes) → IsLongestWhole s n (shrink n s)
unfolding shrink
shrink-IsLongestWhole zero s = record {
  size = 0;
  prefix = refl;
  within = omega arith;
  whole = inr (inl refl);
  longest = λ k le h. omega (arith, length-take k s);
}
shrink-IsLongestWhole (suc n) s = elim (Bool-cases (last_rune_ok (take (suc n) s))) [
  | inl y ↦ rw y (record {
    size = suc n;
    prefix = refl;
    within = omega (arith, length-take (suc n) s);
    whole = inr (inr y);
    longest = λ k le h. omega (arith, length-take k s, length-take (suc n) s);
  })
  | inr split ↦
      (let w = shrink-IsLongestWhole n s in
        rw split (record {
          size = w.size;
          prefix = w.prefix;
          within = omega (arith, w.within);
          whole = w.whole;
          longest = λ k le h. elim (dec_le k n) [
            | yes below ↦ w.longest k below h
            | no above ↦
                (let top : k ≡ suc n = omega arith in
                  absurd (cc (sym split ∙ (ap (λ (j : ℕ). last_rune_ok (take j s)) (sym top) ∙ h))))
          ];
        }))
]

-- The cut gives a name that fits back unchanged, and otherwise the longest prefix of at most that many bytes
-- that is empty or ends in a valid rune: no rune is split, and no shorter prefix is taken where a
-- longer one would do.
pub truncate_bytes-IsLongestWhole :
    (s : Bytes) (n : ℕ)
    → IsLongestWhole s n (truncate_bytes s n) × (length s ≤ n → truncate_bytes s n ≡ s)
truncate_bytes-IsLongestWhole s n = elim (Bool-cases (leb (length s) n)) [
  | inl y ↦ rw (truncate_short s n y) (
    record {
      size = length s;
      prefix = sym (take-all s (length s) (omega arith));
      within = leb→le _ _ y;
      whole = inl refl;
      longest = λ k le h. omega (arith, length-take k s);
    },
    λ le. refl,
  )
  | inr long ↦
      rw (truncate_long s n long)
        (shrink-IsLongestWhole n s, λ le. absurd (omega (arith, leb→lt (length s) n long, le)))
]

dot_ext-empty : (s : Bytes) → s ≡ [] → dot_ext s ≡ []
unfolding dot_ext
dot_ext-empty s e = rw e (unfold is_empty in refl)

dot_ext-pos : (s : Bytes) → 0 < length s → dot_ext s ≡ b'.' ∷ s
unfolding dot_ext
dot_ext-pos s h = rw (is_empty-false s h)

module _ (name : Bytes) (safe : IsSafeName name) where
  -- The stem is safe, the dotted extension is made of name bytes, and both make up the name.
  abbrev pub Parts : Bytes → Bytes → Type 0
  Parts stem ext = IsSafeName stem × All IsNameByte ext × (stem ++ ext ≡ name)

  Parts-of :
      ExtensionSplit name → Parts (deleting_path_extension name) (dot_ext (path_extension name))
  Parts-of (inl (e, d)) = rw (dot_ext-empty (path_extension name) e, d) (safe, tt, append-nil name)
  Parts-of (inr (e, p, q)) = rw (dot_ext-pos (path_extension name) q) (
    record {
      chars = All-left IsNameByte _ _ (subst (All IsNameByte) (sym e) safe.chars);
      leads = Leads-left _ _ p (subst Leads (sym e) safe.leads);
    },
    All-right IsNameByte (deleting_path_extension name) _
        (subst (All IsNameByte) (sym e) safe.chars),
    e,
  )

  pub name-Parts : Parts (deleting_path_extension name) (dot_ext (path_extension name))
  name-Parts = Parts-of (
      extension_split name (Leads-pos name safe.leads)
        (All-map IsNameByte-ne-slash name safe.chars))

  module _ (now : Time) (max_bytes : ℕ) where
    abbrev stem : Bytes
    stem = deleting_path_extension name

    abbrev ext : Bytes
    ext = dot_ext (path_extension name)

    -- The three branches of the cut that a safe name can take.
    cap_short : length name ≤ max_bytes → cap_length now name max_bytes ≡ name
    unfolding cap_length
    cap_short h = rw (le→leb _ _ h)

    cap_whole :
        max_bytes < length name
        → max_bytes ≤ length ext
        → cap_length now name max_bytes ≡ take max_bytes name
    unfolding cap_length
    cap_whole h k =
        rw (lt→leb-false _ _ h, le→leb _ _ k)
          (truncate_bytes-take name max_bytes (All-map IsNameByte-ascii name safe.chars))

    stem_cut_Leads : length ext < max_bytes → Leads (take (max_bytes - length ext) stem ++ ext)
    stem_cut_Leads k =
        Leads-append _ _ (Leads-take (max_bytes - length ext) stem (omega arith) name-Parts.0.leads)

    cap_stem :
        max_bytes < length name
        → length ext < max_bytes
        → cap_length now name max_bytes ≡ take (max_bytes - length ext) stem ++ ext
    unfolding cap_length
    cap_stem h k = rw (
      lt→leb-false _ _ h,
      lt→leb-false _ _ k,
      truncate_bytes-take stem (max_bytes - length ext)
          (All-map IsNameByte-ascii stem name-Parts.0.chars),
      is_empty-false _ (Leads-pos _ (stem_cut_Leads k)),
    )

    -- What the cut of a safe name promises.
    abbrev Capped : Bytes → Type 0
    Capped out = IsSafeName out × (length out ≤ max_bytes)

    stem-Capped : length ext < max_bytes → Capped (take (max_bytes - length ext) stem ++ ext)
    stem-Capped k = (
      record {
        chars =
            All-append IsNameByte _ ext
              (All-take IsNameByte (max_bytes - length ext) stem name-Parts.0.chars) name-Parts.1;
        leads = stem_cut_Leads k;
      },
      omega (
        arith,
        length-append (take (max_bytes - length ext) stem) ext,
        length-take (max_bytes - length ext) stem,
      ),
    )

    whole_Capped : 0 < max_bytes → Capped (take max_bytes name)
    whole_Capped p = (
      record {
        chars = All-take IsNameByte max_bytes name safe.chars;
        leads = Leads-take max_bytes name p safe.leads;
      },
      omega (arith, length-take max_bytes name),
    )

    pub cap_length-IsSafeName :
        0 < max_bytes
        → IsSafeName (cap_length now name max_bytes)
          × (length (cap_length now name max_bytes) ≤ max_bytes)
    cap_length-IsSafeName p = elim (dec_le (length name) max_bytes) [
      | yes h ↦ rw (cap_short h) (safe, h)
      | no h ↦ elim (dec_le max_bytes (length ext)) [
        | yes k ↦ rw (cap_whole (omega arith) k) (whole_Capped p)
        | no k ↦ rw (cap_stem (omega arith) (omega arith)) (stem-Capped (omega arith))
      ]
    ]
