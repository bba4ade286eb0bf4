-- ===== src/Sanitize/Contain.antt =====
-- SafeLeaf of internal/sanitize/sanitize.go: the name is accepted, and stands directly in the
-- save folder.
use clipbeam_cli.Prelude.{
  ◌≡◌, refl, sym, ◌∙◌, ◌≢◌, inl, inr, true, false, ◌||◌, Option, some, List, [], ◌∷◌, ◌++◌,
  append_assoc, append-nil, arith, All-map, Bool-cases, All, Bytes, codes, bytes_eq, has_prefix,
  has_prefix-append,
}
use mathlib.Core.List.{flat_map, append_cancel_left}
use clipbeam_cli.Go.FilePath.{slash}
use clipbeam_cli.Go.Strings.{has_suffix}
use clipbeam_cli.Go.Paths.{join, IsElement, rooted_path, join-rooted_path}
use clipbeam_cli.Go.Clock.{Time}
use clipbeam_cli.Sanitize.{clean_leaf, eval_dir, with_separator, safe_leaf}
use clipbeam_cli.Sanitize.Names.{IsNameByte-ne-slash, Leads}
use clipbeam_cli.Sanitize.Cap.{IsSafeName}
use clipbeam_cli.Sanitize.Safe.{clean_leaf-IsSafeName}

Leads-named : (s : Bytes) → Leads s → (bytes_eq s [] || bytes_eq s (codes ".")) ≡ false
unfolding bytes_eq
Leads-named [] h = absurd h
Leads-named (c ∷ s) h = ground arith

Leads-down : (s : Bytes) → Leads s → bytes_eq s (codes "..") ≡ false
unfolding bytes_eq
Leads-down [] h = absurd h
Leads-down (c ∷ s) h = ground arith

pub Leads-IsElement : (s : Bytes) → Leads s → All (λ c. c ≢ slash) s → IsElement s
Leads-IsElement s h plain = record { plain = plain; named = Leads-named s h; down = Leads-down s h }

-- A safe name is an element of a path that stands for itself.
pub IsSafeName-IsElement : (s : Bytes) → IsSafeName s → IsElement s
IsSafeName-IsElement s h = Leads-IsElement s h.leads (All-map IsNameByte-ne-slash s h.chars)

flat_map-snoc :
    (es : List Bytes) (name : Bytes)
    → flat_map (λ d. slash ∷ d) (es ++ name ∷ []) ≡ flat_map (λ d. slash ∷ d) es ++ slash ∷ name
unfolding flat_map
flat_map-snoc [] name = append-nil (slash ∷ name)
flat_map-snoc (e ∷ es) name = simp (flat_map-snoc es name, append_assoc)

rooted_path-snoc :
    (e : Bytes) (es : List Bytes) (name : Bytes)
    → rooted_path (e ∷ (es ++ name ∷ [])) ≡ rooted_path (e ∷ es) ++ slash ∷ name
unfolding rooted_path
rooted_path-snoc e es name = flat_map-snoc (e ∷ es) name

separator_prefix : (dir name : Bytes) → has_prefix (dir ++ slash ∷ name) (with_separator dir) ≡ true
unfolding with_separator
separator_prefix dir name = elim (Bool-cases (has_suffix dir (slash ∷ []))) [
  | inl y ↦ rw y (has_prefix-append dir (slash ∷ name))
  | inr n ↦
      rw (n, ← append_assoc dir (slash ∷ []) name) (has_prefix-append (dir ++ slash ∷ []) name)
]

-- Either form of the folder's prefix is a prefix of the path of a name in it.
prefix_holds :
    (es : List Bytes) (name : Bytes)
    → has_prefix (rooted_path (es ++ name ∷ [])) (with_separator (rooted_path es)) ≡ true
unfolding rooted_path flat_map with_separator has_suffix has_prefix
prefix_holds [] name = refl
prefix_holds (e ∷ es) name =
    rw (rooted_path-snoc e es name) (separator_prefix (rooted_path (e ∷ es)) name)

-- Where the save folder resolves to a clean absolute path, no name escapes it: SafeLeaf returns
-- the sanitized leaf, never the escape error, and the leaf joined to the folder is the folder's
-- path with exactly that one element more.
pub safe_leaf-contained :
    (resolve : Bytes → Option Bytes) (now : Time) (raw kind uti dir : Bytes) (es : List Bytes)
    → All IsElement es
    → eval_dir resolve dir ≡ rooted_path es
    → (safe_leaf resolve now raw kind uti dir ≡ some (clean_leaf now raw kind uti))
      × (join (eval_dir resolve dir) (clean_leaf now raw kind uti)
          ≡ rooted_path (es ++ clean_leaf now raw kind uti ∷ []))
unfolding safe_leaf
safe_leaf-contained resolve now raw kind uti dir es h e =
    let name = clean_leaf now raw kind uti in
    let j =
      join-rooted_path es name h
        (IsSafeName-IsElement name (clean_leaf-IsSafeName now raw kind uti).0) in
    (rw (e, j, prefix_holds es name), rw e j)

rooted_path_one : (a : Bytes) → (slash ∷ []) ++ a ≡ rooted_path (a ∷ [])
unfolding rooted_path flat_map
rooted_path_one a = sym (append-nil (slash ∷ a))

-- Two names in one folder have one path only if they are one name.
pub rooted_path-injective :
    (es : List Bytes) (a b : Bytes)
    → rooted_path (es ++ a ∷ []) ≡ rooted_path (es ++ b ∷ [])
    → a ≡ b
rooted_path-injective [] a b e =
    append_cancel_left (slash ∷ []) a b (rooted_path_one a ∙ e ∙ sym (rooted_path_one b))
rooted_path-injective (f ∷ es) a b e = append_cancel_left (slash ∷ []) a b (
    append_cancel_left (rooted_path (f ∷ es)) (slash ∷ a) (slash ∷ b)
      (sym (rooted_path-snoc f es a) ∙ e ∙ rooted_path-snoc f es b))

-- A folder that resolves is evaluated to what it resolves to.
pub eval_dir-some :
    (resolve : Bytes → Option Bytes) (dir resolved : Bytes)
    → resolve dir ≡ some resolved
    → eval_dir resolve dir ≡ resolved
unfolding eval_dir
eval_dir-some resolve dir resolved h = rw (eval_dir, h) refl
