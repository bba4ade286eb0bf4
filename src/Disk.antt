-- ===== src/Disk.antt =====
-- The file system as the store sees it: the paths that Lstat finds, with what they hold. A path
-- is listed once at most after the operations below, which change the entry of one path alone.
use clipbeam_cli.Prelude.{
  ◌≤◌, ◌<◌, ◌≡◌, refl, ◌≢◌, Bool, true, false, Option, none, some, List, [], ◌∷◌, arith,
  if◌then◌else◌, length, Bytes, bytes_eq, bytes_eq_iff,
}

pub data Node : Type 0 where
  file : Bytes → Node
  folder : Node

abbrev pub Disk : Type 0
Disk = List (Bytes × Node)

unfoldable pub find : Bytes → Disk → Option Node
find p [] = none
find p ((q, node) ∷ d) = if bytes_eq q p then some node else find p d

unfoldable pub put : Bytes → Node → Disk → Disk
put p node [] = (p, node) ∷ []
put p node ((q, old) ∷ d) = if bytes_eq q p then (p, node) ∷ d else (q, old) ∷ put p node d

-- os.Remove of a path, which does nothing where the path is not there.
unfoldable pub remove : Bytes → Disk → Disk
remove p [] = []
remove p ((q, old) ∷ d) = let rest = remove p d in if bytes_eq q p then rest else (q, old) ∷ rest

-- `exists` of the store: Lstat gave no error.
unfoldable pub exists : Bytes → Disk → Bool
exists p d = elim (find p d) [ some node ↦ true | none ↦ false ]

pub find_empty : (p : Bytes) → find p [] ≡ none
unfolding find
find_empty p = refl

pub find-put :
    (p q : Bytes) (node : Node) (d : Disk)
    → find q (put p node d) ≡ (if bytes_eq p q then some node else find q d)
unfolding find put
find-put p q node [] = refl
find-put p q node ((r, old) ∷ d) =
    ground (arith, find-put p q node d, bytes_eq_iff p q, bytes_eq_iff r p, bytes_eq_iff r q)

pub find-remove :
    (p q : Bytes) (d : Disk) → find q (remove p d) ≡ (if bytes_eq p q then none else find q d)
unfolding find remove
find-remove p q [] = ground arith
find-remove p q ((r, old) ∷ d) =
    ground (arith, find-remove p q d, bytes_eq_iff p q, bytes_eq_iff r p, bytes_eq_iff r q)

pub length-remove : (p : Bytes) (d : Disk) → length (remove p d) ≤ length d
unfolding remove
length-remove p [] = omega arith
length-remove p ((q, old) ∷ d) = ground (arith, length-remove p d)

pub length-remove_found :
    (p : Bytes) (d : Disk) → exists p d ≡ true → length (remove p d) < length d
unfolding exists find remove
length-remove_found p [] h = cc
length-remove_found p ((q, old) ∷ d) h = ground (arith, length-remove p d, length-remove_found p d)

pub exists-remove : (p q : Bytes) (d : Disk) → p ≢ q → exists q (remove p d) ≡ exists q d
unfolding exists
exists-remove p q d ne = ground (arith, find-remove p q d, bytes_eq_iff p q)

pub exists-none : (p : Bytes) (d : Disk) → exists p d ≡ false → find p d ≡ none
unfolding exists
exists-none p d h = ground arith

pub ruleset disk_laws = (find-put, find-remove)
