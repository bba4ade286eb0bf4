-- ===== src/Sanitize/Names.antt =====
-- The extension of a name, and the cut to a number of bytes (PathExtension,
-- DeletingPathExtension, truncateBytes and CapLength of internal/sanitize/sanitize.go).
use clipbeam_cli.Prelude.{
  ℕ, suc, ◌-◌, ◌<◌, ◌≡◌, refl, ap, ◌∙◌, ◌≢◌, ◌⊎◌, inl, inr, true, false, ◌||◌, Option, none, some,
  [], ◌∷◌, ◌++◌, arith, ◌==◌, Bool-cases, length, take, drop, All, length-take, length-drop, Bytes,
}
use clipbeam_cli.Go.Strings.{
  is_empty-false, IsLastIndex, last_index, last_index-IsLastIndex, is_empty,
}
use clipbeam_cli.Go.FilePath
use clipbeam_cli.Sanitize.{allowed, extension_at, path_extension, deleting_path_extension}

-- A byte of [A-Za-z0-9 ._-].
abbrev pub IsNameByte : ℕ → Type 0
IsNameByte c = allowed c ≡ true

-- A name that is not empty, and not hidden.
abbrev pub Leads : Bytes → Type 0
Leads [] = ⊥
Leads (c ∷ s) = c ≢ b'.'

pub IsNameByte-ascii : (c : ℕ) → IsNameByte c → c < 0x80
unfolding allowed
IsNameByte-ascii c h = ground arith

pub IsNameByte-ne-slash : (c : ℕ) → IsNameByte c → c ≢ FilePath.slash
unfolding allowed
IsNameByte-ne-slash c h = ground arith

-- How a name and its extension make up the name.
abbrev pub ExtensionSplit : Bytes → Type 0
ExtensionSplit name =
    (path_extension name ≡ []) × (deleting_path_extension name ≡ name)
    ⊎ (deleting_path_extension name ++ b'.' ∷ path_extension name ≡ name)
      × (0 < length (deleting_path_extension name))
      × (0 < length (path_extension name))

module _ (name : Bytes) where
  deleting-empty : path_extension name ≡ [] → deleting_path_extension name ≡ name
  unfolding deleting_path_extension is_empty
  deleting-empty e = rw e

  deleting-take :
      0 < length (path_extension name)
      → deleting_path_extension name ≡ take (length name - length (path_extension name) - 1) name
  unfolding deleting_path_extension
  deleting-take h = rw (is_empty-false _ h)

  no_extension : path_extension name ≡ [] → ExtensionSplit name
  no_extension e = inl (e, deleting-empty e)

  -- The stem ends where the last dot stands.
  stem_length :
      (dot : ℕ)
      → dot < length name
      → dot ≢ length name - 1
      → path_extension name ≡ drop (suc dot) name
      → (0 < length (path_extension name)) × (length name - length (path_extension name) - 1 ≡ dot)
  stem_length dot lt end e = omega (arith, ap length e, length-drop (suc dot) name)

  deleting_at :
      (dot : ℕ)
      → dot < length name
      → dot ≢ length name - 1
      → path_extension name ≡ drop (suc dot) name
      → deleting_path_extension name ≡ take dot name
  deleting_at dot lt end e =
      let (pos, at) = stem_length dot lt end e in deleting-take pos ∙ ap (λ (k : ℕ). take k name) at

  some_extension :
      (dot : ℕ)
      → IsLastIndex b'.' name dot
      → dot ≢ 0
      → dot ≢ length name - 1
      → path_extension name ≡ drop (suc dot) name
      → ExtensionSplit name
  some_extension dot at first end e = inr (
    rw (deleting_at dot at.within end e, e) at.splits,
    rw (deleting_at dot at.within end e, length-take dot name) (omega (arith, at.within)),
    (stem_length dot at.within end e).0,
  )

  path_extension_at :
      FilePath.base name ≡ name
      → (o : Option ℕ) → last_index b'.' name ≡ o
      → path_extension name ≡ extension_at name o
  unfolding path_extension
  path_extension_at b o e = rw (b, e)

  extension_at-none :
      (dot : ℕ) → (dot == 0 || dot == length name - 1) ≡ true → extension_at name (some dot) ≡ []
  unfolding extension_at
  extension_at-none dot y = rw y

  extension_at-some :
      (dot : ℕ)
      → (dot == 0 || dot == length name - 1) ≡ false
      → extension_at name (some dot) ≡ drop (suc dot) name
  unfolding extension_at
  extension_at-some dot n = rw n

  extension_at-split :
      (o : Option ℕ)
      → last_index b'.' name ≡ o
      → path_extension name ≡ extension_at name o
      → ExtensionSplit name
  extension_at-split none h e = no_extension (unfold extension_at in e)
  extension_at-split (some dot) h e = elim (Bool-cases (dot == 0 || dot == length name - 1)) [
    | inl y ↦ no_extension (e ∙ extension_at-none dot y)
    | inr n ↦
        some_extension dot (last_index-IsLastIndex b'.' name h) (ground arith) (ground arith)
          (e ∙ extension_at-some dot n)
  ]

-- A leaf name is its stem, a dot and its extension, or has no extension and is its own stem.
pub extension_split :
    (name : Bytes) → 0 < length name → All (λ c. c ≢ FilePath.slash) name → ExtensionSplit name
extension_split name n h = extension_at-split name (last_index b'.' name) refl (
    path_extension_at name (FilePath.base-id name (λ z. omega (arith, ap length z)) h)
      (last_index b'.' name) refl)
