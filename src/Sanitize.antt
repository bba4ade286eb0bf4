-- ===== src/Sanitize.antt =====
-- internal/sanitize/sanitize.go: the file name that an untrusted name becomes. The proofs are in
-- the modules below.
mod Tests
pub mod Names
pub mod Cap
pub mod Safe
pub mod Contain
pub mod Decimal
pub mod Collide
use clipbeam_cli.Prelude.{
  ℕ, zero, suc, ◌+◌, ◌-◌, ◌*◌, ◌/◌, ◌%◌, ◌^◌, ◌≤◌, ◌<◌, ◌≡◌, refl, sym, ap, ◌∙◌, ◌≢◌, ◌↔◌, ◌⊎◌, inl,
  inr, Bool, true, false, not, ◌&&◌, ◌||◌, Option, none, some, List, [], ◌∷◌, ◌++◌, map,
  append_assoc, append-nil, arith, ltb, leb, ◌==◌, if◌then◌else◌, between, ==_iff, lt→ltb, ltb→lt,
  ltb→le, leb→le, leb→lt, le→leb, lt→leb-false, le→ltb-false, All-left, All-right, All-map,
  Bool-cases, Option-cases, length, replicate, take, drop, All, last, get_or, length-append,
  length-take, length-drop, take-append-drop, take-length-append, drop-length-append, All-append,
  All-take, All-drop, Bytes, codes, bytes_eq, bytes_eq_refl, bytes_eq_iff, has_prefix,
  has_prefix-append,
}
use clipbeam_cli.Go.Strings.{last_index, is_empty, trim, is_blank}
use clipbeam_cli.Go.Utf8.{rune_width, last_rune_ok}
use clipbeam_cli.Go.FilePath
use clipbeam_cli.Go.Paths
use clipbeam_cli.Go.Strings.{has_suffix}
use clipbeam_cli.Go.Clock
use clipbeam_cli.Go.Clock.{Time}

abbrev pub kind_image : Bytes
kind_image = codes "image"

abbrev pub kind_file : Bytes
kind_file = codes "file"

abbrev pub kind_text : Bytes
kind_text = codes "text"

abbrev pub name_max_bytes : ℕ
name_max_bytes = 200

-- A rune of two bytes or more is never allowed, so the test is on bytes.
pub allowed : ℕ → Bool
allowed r =
    between b'A' b'Z' r
    || between b'a' b'z' r
    || between b'0' b'9' r
    || r == b' '
    || r == b'.'
    || r == b'_'
    || r == b'-'

-- The loop over the runes of the name. The number counts the bytes that are left of the current
-- rune, whose first byte has been answered by one byte of the result.
pub clean_runes : ℕ → Bytes → Bytes
unfolding allowed rune_width
clean_runes (suc k) (c ∷ s) = clean_runes k s
clean_runes zero (c ∷ s) = (if allowed c then c else b'_') ∷ clean_runes (rune_width (c ∷ s) - 1) s
clean_runes _ [] = []

-- time.Now().UTC() as text, with the first dot replaced.
replace_dot : Bytes → Bytes
replace_dot [] = []
replace_dot (c ∷ s) = if c == b'.' then b'-' ∷ s else c ∷ replace_dot s

pub utc_timestamp : Time → Bytes
unfolding Clock.format replace_dot
utc_timestamp now = replace_dot (Clock.format now)

unfoldable pub text_file_name : Time → Bytes
unfolding utc_timestamp
text_file_name now = codes "clipbeam-" ++ utc_timestamp now ++ codes ".txt"

-- The switch of `utiExt`, as its table.
abbrev uti_table : List (Bytes × Bytes)
uti_table =
    (codes "public.png", codes "png")
    ∷ (codes "public.jpeg", codes "jpeg")
    ∷ (codes "public.tiff", codes "tiff")
    ∷ (codes "com.compuserve.gif", codes "gif")
    ∷ (codes "public.heic", codes "heic")
    ∷ (codes "public.heif", codes "heic")
    ∷ (codes "com.microsoft.bmp", codes "bmp")
    ∷ (codes "public.plain-text", codes "txt")
    ∷ (codes "public.utf8-plain-text", codes "txt")
    ∷ (codes "public.text", codes "txt")
    ∷ (codes "com.adobe.pdf", codes "pdf")
    ∷ (codes "public.zip-archive", codes "zip")
    ∷ (codes "com.pkware.zip-archive", codes "zip")
    ∷ []

pub switch : Bytes → List (Bytes × Bytes) → Option Bytes
unfolding bytes_eq
switch key [] = none
switch key ((k, v) ∷ rows) = if bytes_eq key k then some v else switch key rows

pub uti_ext : Bytes → Option Bytes
unfolding switch
uti_ext uti = switch uti uti_table

pub kind_ext : Bytes → Bytes
unfolding bytes_eq
kind_ext kind =
    if bytes_eq kind kind_image
    then codes "png"
    else if bytes_eq kind kind_file
    then codes "bin"
    else []

pub fallback_ext : Bytes → Bytes → Bytes
fallback_ext kind uti = elim (uti_ext uti) [ some ext ↦ ext | none ↦ kind_ext kind ]

pub fallback_name : Time → Bytes → Bytes → Bytes
fallback_name now kind uti =
    let start = codes "clipbeam-" ++ utc_timestamp now in
    let ext = fallback_ext kind uti in if is_empty ext then start else start ++ b'.' ∷ ext

-- The loop that drops bytes until the text ends in a whole rune, over the bytes kept.
pub shrink : ℕ → Bytes → Bytes
unfolding last_rune_ok
shrink zero s = []
shrink (suc n) s =
    let less = shrink n s in if last_rune_ok (take (suc n) s) then take (suc n) s else less

pub truncate_bytes : Bytes → ℕ → Bytes
unfolding shrink
truncate_bytes s max_bytes = if leb (length s) max_bytes then s else shrink max_bytes s

-- The extension of a leaf name with a last dot at a given place, if any.
pub extension_at : Bytes → Option ℕ → Bytes
extension_at leaf none = []
extension_at leaf (some dot) =
    if dot == 0 || dot == length leaf - 1 then [] else drop (suc dot) leaf

pub path_extension : Bytes → Bytes
unfolding FilePath.base extension_at last_index
path_extension name = extension_at (FilePath.base name) (last_index b'.' (FilePath.base name))

pub deleting_path_extension : Bytes → Bytes
unfolding path_extension is_empty
deleting_path_extension name =
    let ext = path_extension name in
    if is_empty ext then name else take (length name - length ext - 1) name

pub dot_ext : Bytes → Bytes
unfolding is_empty
dot_ext ext = if is_empty ext then [] else b'.' ∷ ext

-- `budget <= 0` is `maxBytes <= len(dotExt)`.
pub cap_length : Time → Bytes → ℕ → Bytes
cap_length now name max_bytes =
    let ext = dot_ext (path_extension name) in
    let result = truncate_bytes (deleting_path_extension name) (max_bytes - length ext) ++ ext in
    if leb (length name) max_bytes
    then name
    else if leb max_bytes (length ext)
    then truncate_bytes name max_bytes
    else if is_empty result
    then codes "clipbeam-" ++ utc_timestamp now
    else result

-- Rule 4: empty, ".", ".." and names with a leading dot.
pub needs_fallback : Bytes → Bool
unfolding bytes_eq has_prefix
needs_fallback cleaned =
    bytes_eq cleaned []
    || bytes_eq cleaned (codes ".")
    || bytes_eq cleaned (codes "..")
    || has_prefix cleaned (codes ".")

unfoldable pub clean_leaf : Time → Bytes → Bytes → Bytes → Bytes
clean_leaf now raw kind uti =
    let cleaned = trim is_blank (clean_runes 0 (FilePath.base raw)) in
    cap_length now (if needs_fallback cleaned then fallback_name now kind uti else cleaned)
      name_max_bytes

-- The folder as filepath.EvalSymlinks resolves it, or cleaned where that fails.
pub eval_dir : (Bytes → Option Bytes) → Bytes → Bytes
eval_dir resolve dir = elim (resolve dir) [ some resolved ↦ resolved | none ↦ Paths.clean dir ]

pub with_separator : Bytes → Bytes
unfolding has_suffix
with_separator dir =
    if has_suffix dir (FilePath.slash ∷ []) then dir else dir ++ FilePath.slash ∷ []

-- `none` is ErrPathEscape. `resolve` is filepath.EvalSymlinks, which asks the file system.
unfoldable pub safe_leaf :
    (Bytes → Option Bytes) → Time → Bytes → Bytes → Bytes → Bytes → Option Bytes
safe_leaf resolve now raw kind uti save_dir =
    let cleaned = clean_leaf now raw kind uti in
    let resolved_dir = eval_dir resolve save_dir in
    if has_prefix (Paths.join resolved_dir cleaned) (with_separator resolved_dir)
    then some cleaned
    else none

-- `itoa` on the numbers that the program passes, which are not negative: the digits are written
-- from the last one, into a buffer of 20 bytes, while the number is not 0. The first argument
-- counts the free bytes of the buffer.
pub itoa_loop : ℕ → ℕ → Bytes → Bytes
itoa_loop zero n out = out
itoa_loop (suc room) n out =
    let more = itoa_loop room (n / 10) ((b'0' + n % 10) ∷ out) in if n == 0 then out else more

pub itoa : ℕ → Bytes
itoa n = if n == 0 then b'0' ∷ [] else itoa_loop 20 n []

unfoldable pub collision_name : Bytes → ℕ → Bytes
collision_name leaf n =
    let ext = path_extension leaf in
    let start = deleting_path_extension leaf ++ codes " (" ++ itoa n in
    if is_empty ext then start ++ codes ")" else start ++ codes ")." ++ ext
