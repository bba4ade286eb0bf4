-- ===== src/Sanitize/Safe.antt =====
-- What CleanLeaf of internal/sanitize/sanitize.go promises of its result, for every raw name.
use clipbeam_cli.Prelude.{
  ℕ, zero, suc, ◌-◌, ◌≤◌, ◌≡◌, refl, sym, inl, inr, false, none, some, List, [], ◌∷◌, ◌++◌, arith,
  ◌==◌, if◌then◌else◌, Bool-cases, Option-cases, length, All, All-append, Bytes, codes, bytes_eq,
}
use mathlib.Core.Bool.{false≢true}
use clipbeam_cli.Go.Strings.{is_empty, trim, is_blank, trim-All, OnSome}
use clipbeam_cli.Go.Utf8.{rune_width}
use clipbeam_cli.Go.FilePath
use clipbeam_cli.Go.Clock
use clipbeam_cli.Go.Clock.{Time}
use clipbeam_cli.Sanitize.{
  kind_file, kind_image, allowed, clean_runes, replace_dot, utc_timestamp, switch, uti_table,
  uti_ext, kind_ext, fallback_ext, fallback_name, needs_fallback, clean_leaf, name_max_bytes,
}
use clipbeam_cli.Sanitize.Names.{IsNameByte, Leads}
use clipbeam_cli.Sanitize.Cap.{IsSafeName, cap_length-IsSafeName}

kept_or_underscore : (c : ℕ) → IsNameByte (if allowed c then c else b'_')
kept_or_underscore c = elim (Bool-cases (allowed c)) [
  | inl y ↦ rw y y
  | inr n ↦ rw n (unfold allowed in refl)
]

clean_runes-All : (k : ℕ) (s : Bytes) → All IsNameByte (clean_runes k s)
unfolding clean_runes
clean_runes-All zero [] = tt
clean_runes-All (suc k) [] = tt
clean_runes-All (suc k) (c ∷ s) = clean_runes-All k s
clean_runes-All zero (c ∷ s) = (kept_or_underscore c, clean_runes-All (rune_width (c ∷ s) - 1) s)

replace_dot-All : (s : Bytes) → All IsNameByte s → All IsNameByte (replace_dot s)
unfolding replace_dot
replace_dot-All [] h = tt
replace_dot-All (c ∷ s) (hc, hs) = elim (Bool-cases (c == b'.')) [
  | inl y ↦ rw y (unfold allowed in refl, hs)
  | inr n ↦ rw n (hc, replace_dot-All s hs)
]

digit-IsNameByte : (n : ℕ) → IsNameByte (Clock.digit n)
unfolding allowed
digit-IsNameByte n = ground arith

mark_IsNameByte : IsNameByte b'-' × IsNameByte b'.'
unfolding allowed
mark_IsNameByte = (refl, refl)

format-All : (now : Time) → All IsNameByte (Clock.format now)
unfolding Clock.format
format-All now = (
  digit-IsNameByte _,
  (
    digit-IsNameByte _,
    (
      digit-IsNameByte _,
      (
        digit-IsNameByte _,
        (
          digit-IsNameByte _,
          (
            digit-IsNameByte _,
            (
              digit-IsNameByte _,
              (
                digit-IsNameByte _,
                (
                  mark_IsNameByte.0,
                  (
                    digit-IsNameByte _,
                    (
                      digit-IsNameByte _,
                      (
                        digit-IsNameByte _,
                        (
                          digit-IsNameByte _,
                          (
                            digit-IsNameByte _,
                            (
                              digit-IsNameByte _,
                              (
                                mark_IsNameByte.1,
                                (
                                  digit-IsNameByte _,
                                  (digit-IsNameByte _, (digit-IsNameByte _, tt)),
                                ),
                              ),
                            ),
                          ),
                        ),
                      ),
                    ),
                  ),
                ),
              ),
            ),
          ),
        ),
      ),
    ),
  ),
)

pub utc_timestamp-All : (now : Time) → All IsNameByte (utc_timestamp now)
unfolding utc_timestamp
utc_timestamp-All now = replace_dot-All (Clock.format now) (format-All now)

switch-OnSome :
    (P : Bytes → Type 0) (key : Bytes) (rows : List (Bytes × Bytes))
    → All (λ (r : Bytes × Bytes). P r.1) rows
    → OnSome P (switch key rows)
unfolding switch
switch-OnSome P key [] h = tt
switch-OnSome P key ((k, v) ∷ rows) (hv, h) = elim (Bool-cases (bytes_eq key k)) [
  | inl y ↦ rw y hv
  | inr n ↦ rw n (switch-OnSome P key rows h)
]

uti_table-All : All (λ (r : Bytes × Bytes). All IsNameByte r.1) uti_table
unfolding allowed
uti_table-All = ground arith

uti_ext-All : (uti : Bytes) → OnSome (All IsNameByte) (uti_ext uti)
unfolding uti_ext
uti_ext-All uti = switch-OnSome (All IsNameByte) uti uti_table uti_table-All

words-All :
    All IsNameByte (codes "png") × All IsNameByte (codes "bin") × All IsNameByte (codes "clipbeam-")
unfolding allowed
words-All = ground arith

kind_ext-All : (kind : Bytes) → All IsNameByte (kind_ext kind)
unfolding kind_ext
kind_ext-All kind = elim (Bool-cases (bytes_eq kind kind_image)) [
  | inl y ↦ rw y words-All.0
  | inr n ↦ elim (Bool-cases (bytes_eq kind kind_file)) [
    | inl y ↦ rw (n, y) words-All.1
    | inr m ↦ rw (n, m) tt
  ]
]

fallback_ext-none : (kind uti : Bytes) → uti_ext uti ≡ none → fallback_ext kind uti ≡ kind_ext kind
unfolding fallback_ext
fallback_ext-none kind uti e = rw (e, fallback_ext)

fallback_ext-some :
    (kind uti : Bytes) {ext : Bytes} → uti_ext uti ≡ some ext → fallback_ext kind uti ≡ ext
unfolding fallback_ext
fallback_ext-some kind uti e = rw (e, fallback_ext)

fallback_ext-All : (kind uti : Bytes) → All IsNameByte (fallback_ext kind uti)
fallback_ext-All kind uti = elim (Option-cases (uti_ext uti)) [
  | inl e ↦ rw (fallback_ext-none kind uti e) (kind_ext-All kind)
  | inr (ext, e) ↦ rw (fallback_ext-some kind uti e) (rw e at (uti_ext-All uti))
]

start-All : (now : Time) → All IsNameByte (codes "clipbeam-" ++ utc_timestamp now)
start-All now =
    All-append IsNameByte (codes "clipbeam-") (utc_timestamp now) words-All.2
      (utc_timestamp-All now)

-- The fallback is a safe name, whatever the kind and the type identifier say.
fallback_name-IsSafeName : (now : Time) (kind uti : Bytes) → IsSafeName (fallback_name now kind uti)
unfolding fallback_name
fallback_name-IsSafeName now kind uti = elim (Bool-cases (is_empty (fallback_ext kind uti))) [
  | inl y ↦ rw y (record { chars = start-All now; leads = omega arith })
  | inr n ↦ rw n (record {
    chars =
        All-append IsNameByte (codes "clipbeam-" ++ utc_timestamp now) _ (start-All now)
          (mark_IsNameByte.1, fallback_ext-All kind uti);
    leads = omega arith;
  })
]

needs_fallback-Leads : (s : Bytes) → needs_fallback s ≡ false → Leads s
unfolding needs_fallback
needs_fallback-Leads [] h = absurd (false≢true (sym h))
needs_fallback-Leads (c ∷ s) h = ground arith

-- The name that is cut to length is safe on both branches of rule 4.
chosen-IsSafeName :
    (now : Time) (raw kind uti : Bytes)
    → IsSafeName (
        if needs_fallback (trim is_blank (clean_runes 0 (FilePath.base raw)))
        then fallback_name now kind uti
        else trim is_blank (clean_runes 0 (FilePath.base raw)))
chosen-IsSafeName now raw kind uti =
    let cleaned = trim is_blank (clean_runes 0 (FilePath.base raw)) in
    elim (Bool-cases (needs_fallback cleaned)) [
      | inl y ↦ rw y (fallback_name-IsSafeName now kind uti)
      | inr n ↦ rw n (record {
        chars = trim-All IsNameByte is_blank _ (clean_runes-All 0 (FilePath.base raw));
        leads = needs_fallback-Leads cleaned n;
      })
    ]

-- Whatever the raw name, the kind, the type identifier and the time, the sanitized leaf holds
-- bytes of [A-Za-z0-9 ._-] alone, is not empty, does not begin with a dot and has 200 bytes at
-- most.
pub clean_leaf-IsSafeName :
    (now : Time) (raw kind uti : Bytes)
    → IsSafeName (clean_leaf now raw kind uti)
      × (length (clean_leaf now raw kind uti) ≤ name_max_bytes)
unfolding clean_leaf
clean_leaf-IsSafeName now raw kind uti =
    cap_length-IsSafeName _ (chosen-IsSafeName now raw kind uti) now name_max_bytes (omega arith)
