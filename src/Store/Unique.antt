-- ===== src/Store/Unique.antt =====
-- `uniqueLeaf` and `reserve` of internal/store/concrete.go: the name that a save reserves is free.
use clipbeam_cli.Prelude.{
  ℕ, ◌^◌, ◌<◌, ◌≡◌, sym, ◌∙◌, inl, inr, Bool, true, false, none, List, [], ◌∷◌, ◌++◌, arith,
  Bool-cases, length, All, Bytes,
}
use clipbeam_cli.Disk.{Disk, find, exists, exists-none}
use clipbeam_cli.Go.Paths
use clipbeam_cli.Go.Paths.{IsElement, rooted_path, join-rooted_path}
use clipbeam_cli.Sanitize.{collision_name}
use clipbeam_cli.Sanitize.Cap.{IsSafeName}
use clipbeam_cli.Sanitize.Contain.{rooted_path-injective}
use clipbeam_cli.Sanitize.Collide.{collision_name-injective, collision_name-IsElement}
use clipbeam_cli.Store.{seen, probe, unique_leaf}
use clipbeam_cli.Store.Probe.{Apart, candidate, probe-free}

module _ (es : List Bytes) (h : All IsElement es) (leaf : Bytes) (safe : IsSafeName leaf)
    (unseen : Bytes → Bool) (clear : (p : Bytes) → unseen p ≡ false) where
  candidate-path :
      (n : ℕ) → candidate (rooted_path es) leaf n ≡ rooted_path (es ++ collision_name leaf n ∷ [])
  candidate-path n =
      join-rooted_path es (collision_name leaf n) h (collision_name-IsElement leaf safe n)

  unique_taken :
      (d : Disk)
      → exists (Paths.join (rooted_path es) leaf) d ≡ true
      → unique_leaf unseen d (rooted_path es) leaf
        ≡ probe unseen (length d) d (rooted_path es) leaf 2
  unfolding unique_leaf seen
  unique_taken d y = rw (clear (Paths.join (rooted_path es) leaf), y)

  unique_here :
      (d : Disk)
      → exists (Paths.join (rooted_path es) leaf) d ≡ false
      → unique_leaf unseen d (rooted_path es) leaf ≡ leaf
  unfolding unique_leaf seen
  unique_here d n = rw (clear (Paths.join (rooted_path es) leaf), n)

  candidate-Apart : Apart (candidate (rooted_path es) leaf) (10 ^ 20)
  candidate-Apart n m lt top e = omega (
    arith,
    collision_name-injective leaf n m (omega arith) top (
        rooted_path-injective es (collision_name leaf n) (collision_name leaf m)
          (sym (candidate-path n) ∙ e ∙ candidate-path m)),
  )

  -- In a clean absolute folder, where no Lstat fails, the name chosen for a safe leaf is one that the disk does not have,
  -- on any disk of fewer than 10^19 entries.
  pub unique_leaf-free :
      (d : Disk)
      → length d < 10 ^ 19
      → find (Paths.join (rooted_path es) (unique_leaf unseen d (rooted_path es) leaf)) d ≡ none
  unique_leaf-free d small = elim (Bool-cases (exists (Paths.join (rooted_path es) leaf) d)) [
    | inl y ↦ rw (unique_taken d y) (
        exists-none _ d (
          probe-free unseen clear (rooted_path es) leaf 2 (10 ^ 20) d candidate-Apart
            (omega arith)))
    | inr n ↦ rw (unique_here d n) (exists-none _ d n)
  ]
