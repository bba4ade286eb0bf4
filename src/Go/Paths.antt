-- ===== src/Go/Paths.antt =====
-- path/filepath of the standard library on Unix: Clean and Join, by the elements of a path.
use clipbeam_cli.Prelude.{
  ℕ, suc, ◌≡◌, refl, sym, ap, ◌∙◌, ◌≢◌, Bool, true, false, ◌||◌, none, some, List, [], ◌∷◌, ◌++◌,
  append_assoc, append-nil, arith, ◌==◌, if◌then◌else◌, take, All, last, All-append, Bytes, codes,
  bytes_eq, has_prefix,
}
use mathlib.Core.List.{flat_map}
use clipbeam_cli.Go.FilePath.{slash}
use clipbeam_cli.Go.Strings.{last_index}

push : ℕ → List Bytes → List Bytes
push c [] = (c ∷ []) ∷ []
push c (e ∷ es) = (c ∷ e) ∷ es

-- The texts between the slashes.
pub elements : Bytes → List Bytes
unfolding push
elements [] = [] ∷ []
elements (c ∷ s) = let es = elements s in if c == slash then [] ∷ es else push c es

all_but_last : List Bytes → List Bytes
all_but_last [] = []
all_but_last (e ∷ []) = []
all_but_last (e ∷ f ∷ es) = e ∷ all_but_last (f ∷ es)

last_of : List Bytes → Bytes
last_of [] = []
last_of (e ∷ es) = last e es

-- One element: empty ones and "." are skipped, ".." takes back the element before it, if there is
-- one that is not "..", is dropped at the root, and is kept in a relative path.
step : Bool → List Bytes → Bytes → List Bytes
unfolding all_but_last last_of bytes_eq
step rooted out e =
    if bytes_eq e [] || bytes_eq e (codes ".")
    then out
    else if bytes_eq e (codes "..")
    then (if bytes_eq (last_of out) [] || bytes_eq (last_of out) (codes "..")
        then (if rooted then out else out ++ e ∷ [])
        else all_but_last out)
    else out ++ e ∷ []

walk : Bool → List Bytes → List Bytes → List Bytes
unfolding step
walk rooted out [] = out
walk rooted out (e ∷ es) = walk rooted (step rooted out e) es

-- A path from the root, by its elements.
unfoldable pub rooted_path : List Bytes → Bytes
unfolding flat_map
rooted_path [] = slash ∷ []
rooted_path (e ∷ es) = flat_map (λ d. slash ∷ d) (e ∷ es)

relative_path : List Bytes → Bytes
unfolding flat_map
relative_path [] = codes "."
relative_path (e ∷ es) = e ++ flat_map (λ d. slash ∷ d) es

-- filepath.Clean
unfoldable pub clean : Bytes → Bytes
unfolding elements walk rooted_path relative_path
clean p =
    if has_prefix p (slash ∷ [])
    then rooted_path (walk true [] (elements p))
    else relative_path (walk false [] (elements p))

-- filepath.Join of a folder and a name
unfoldable pub join : Bytes → Bytes → Bytes
unfolding clean
join dir name = if bytes_eq dir [] then clean name else clean (dir ++ slash ∷ name)

clean_examples :
    (clean (codes "/a//b/../c/.") ≡ codes "/a/c")
    × (clean (codes "../x/..") ≡ codes "..")
    × (clean (codes "/..") ≡ codes "/")
    × (clean [] ≡ codes ".")
    × (join (codes "/tmp/") (codes "a.b") ≡ codes "/tmp/a.b")
unfolding join has_prefix
clean_examples = (refl, refl, refl, refl, refl)

-- An element that stands for itself.
pub record IsElement (e : Bytes) : Type 0 where
  pub plain : All (λ c. c ≢ slash) e
  pub named : bytes_eq e [] || bytes_eq e (codes ".") ≡ false
  pub down : bytes_eq e (codes "..") ≡ false

elements-plain : (e : Bytes) → All (λ c. c ≢ slash) e → elements e ≡ e ∷ []
unfolding elements
elements-plain [] h = refl
elements-plain (c ∷ e) (hc, h) = rw (elements-plain e h) (ground arith)

elements-append :
    (e rest : Bytes) → All (λ c. c ≢ slash) e → elements (e ++ slash ∷ rest) ≡ e ∷ elements rest
unfolding elements
elements-append [] rest h = refl
elements-append (c ∷ e) rest (hc, h) = rw (elements-append e rest h) (ground arith)

abbrev below : List Bytes → Bytes → Bytes
below es name = flat_map (λ d. slash ∷ d) es ++ slash ∷ name

elements-below :
    (e : Bytes) (es : List Bytes) (name : Bytes)
    → IsElement e
    → All IsElement es
    → IsElement name
    → elements (e ++ below es name) ≡ e ∷ (es ++ name ∷ [])
unfolding flat_map
elements-below e [] name he h n =
    elements-append e name he.plain ∙ ap (λ (t : List Bytes). e ∷ t) (elements-plain name n.plain)
elements-below e (f ∷ es) name he (hf, h) n =
    rw (append_assoc f (flat_map (λ d. slash ∷ d) es) (slash ∷ name)) (
      elements-append e (f ++ below es name) he.plain
      ∙ ap (λ (t : List Bytes). e ∷ t) (elements-below f es name hf h n))

step-IsElement : (out : List Bytes) (e : Bytes) → IsElement e → step true out e ≡ out ++ e ∷ []
unfolding step
step-IsElement out e h = rw (h.named, h.down)

walk-IsElement : (out es : List Bytes) → All IsElement es → walk true out es ≡ out ++ es
unfolding walk
walk-IsElement out [] h = sym (append-nil out)
walk-IsElement out (e ∷ es) (he, h) =
    rw (step-IsElement out e he)
      (walk-IsElement (out ++ e ∷ []) es h ∙ append_assoc out (e ∷ []) es)

All-elements :
    (es : List Bytes) (name : Bytes)
    → All IsElement es
    → IsElement name
    → All IsElement (es ++ name ∷ [])
All-elements es name h n = All-append IsElement es (name ∷ []) h (n, tt)

clean-below :
    (s : Bytes) (es : List Bytes)
    → walk true [] (elements s) ≡ es
    → clean (slash ∷ s) ≡ rooted_path es
unfolding clean has_prefix
clean-below s es e = ap rooted_path e

join-clean : (c : ℕ) (dir name : Bytes) → join (c ∷ dir) name ≡ clean (c ∷ (dir ++ slash ∷ name))
unfolding join bytes_eq
join-clean c dir name = refl

walk_root : (name : Bytes) → IsElement name → walk true [] (elements (slash ∷ name)) ≡ name ∷ []
unfolding elements walk bytes_eq
walk_root name n = ap (walk true []) (elements-plain name n.plain) ∙ step-IsElement [] name n

-- Joining a name to a clean rooted path adds one element.
pub join-rooted_path :
    (es : List Bytes) (name : Bytes)
    → All IsElement es
    → IsElement name
    → join (rooted_path es) name ≡ rooted_path (es ++ name ∷ [])
unfolding rooted_path flat_map
join-rooted_path [] name h n =
    join-clean slash [] name ∙ clean-below (slash ∷ name) (name ∷ []) (walk_root name n)
join-rooted_path (e ∷ es) name (he, h) n =
    join-clean slash (e ++ flat_map (λ d. slash ∷ d) es) name
    ∙ ap (λ (t : Bytes). clean (slash ∷ t))
        (append_assoc e (flat_map (λ d. slash ∷ d) es) (slash ∷ name))
    ∙ clean-below (e ++ below es name) (e ∷ (es ++ name ∷ [])) (
        ap (walk true []) (elements-below e es name he h n)
        ∙ walk-IsElement [] (e ∷ (es ++ name ∷ [])) (he, All-elements es name h n))

-- filepath.Dir
unfoldable pub dir : Bytes → Bytes
dir p = elim (last_index slash p) [ none ↦ clean [] | some i ↦ clean (take (suc i) p) ]

dir_example : dir (codes "/home/u/last_path") ≡ codes "/home/u"
unfolding dir clean has_prefix last_index
dir_example = refl
