-- ===== src/Store/Probe.antt =====
-- The search of `uniqueLeaf` in internal/store/concrete.go ends: names that differ cannot all be
-- taken by the entries of a disk that has fewer entries than there are names.
use clipbeam_cli.Prelude.{
  ℕ, zero, suc, ◌+◌, ◌≤◌, ◌<◌, ◌≡◌, sym, ◌∙◌, ◌≢◌, inl, inr, Bool, true, false, arith, Bool-cases,
  length, Bytes,
}
use mathlib.Core.Bool.{false≢true}
use clipbeam_cli.Disk.{Disk, exists, remove, length-remove_found, exists-remove}
use clipbeam_cli.Go.Paths
use clipbeam_cli.Sanitize.{collision_name}
use clipbeam_cli.Store.{seen, probe}

-- The names from the n-th on, k of them, are all taken.
AllTaken : (ℕ → Bytes) → Disk → ℕ → ℕ → Type 0
AllTaken f d n zero = Unit
AllTaken f d n (suc k) = (exists (f n) d ≡ true) × AllTaken f d (n + 1) k

-- Names from the n-th on differ from the m-th, which stands before them.
abbrev pub Apart : (ℕ → Bytes) → ℕ → Type 0
Apart f top = (n m : ℕ) → n < m → m < top → f n ≢ f m

AllTaken-remove :
    (f : ℕ → Bytes) (top : ℕ) (d : Disk) (m n k : ℕ)
    → Apart f top
    → m < n
    → n + k ≤ top
    → AllTaken f d n k
    → AllTaken f (remove (f m) d) n k
unfolding AllTaken
AllTaken-remove f top d m n zero ap_f lt le h = tt
AllTaken-remove f top d m n (suc k) ap_f lt le (h, hs) = (
  exists-remove (f m) (f n) d (ap_f m n lt (omega arith)) ∙ h,
  AllTaken-remove f top d m (n + 1) k ap_f (omega arith) (omega arith) hs,
)

-- As many different names as are taken, so many entries are there.
taken-le-length :
    (f : ℕ → Bytes) (top : ℕ) (k n : ℕ) (d : Disk)
    → Apart f top
    → n + k ≤ top
    → AllTaken f d n k
    → k ≤ length d
unfolding AllTaken
taken-le-length f top zero n d ap_f le h = omega arith
taken-le-length f top (suc k) n d ap_f le (h, hs) = omega (
  arith,
  length-remove_found (f n) d h,
  taken-le-length f top k (n + 1) (remove (f n) d) ap_f (omega arith)
      (AllTaken-remove f top d n (n + 1) k ap_f (omega arith) (omega arith) hs),
)

module _ (dir leaf : Bytes) where
  abbrev pub candidate : ℕ → Bytes
  candidate n = Paths.join dir (collision_name leaf n)

-- Where no Lstat fails.
module _ (unseen : Bytes → Bool) (clear : (p : Bytes) → unseen p ≡ false) (dir leaf : Bytes) where
  probe-next :
      (fuel n : ℕ) (d : Disk)
      → exists (candidate dir leaf n) d ≡ true
      → probe unseen (suc fuel) d dir leaf n ≡ probe unseen fuel d dir leaf (n + 1)
  unfolding probe seen
  probe-next fuel n d y = rw (clear (candidate dir leaf n), y)

  probe-stop :
      (fuel n : ℕ) (d : Disk)
      → exists (candidate dir leaf n) d ≡ false
      → probe unseen (suc fuel) d dir leaf n ≡ collision_name leaf n
  unfolding probe seen
  probe-stop fuel n d m = rw (clear (candidate dir leaf n), m)

  -- If the candidate that the search ends with is taken, all that it looked at are.
  probe-taken :
      (fuel n : ℕ) (d : Disk)
      → exists (Paths.join dir (probe unseen fuel d dir leaf n)) d ≡ true
      → AllTaken (candidate dir leaf) d n (suc fuel)
  unfolding AllTaken
  probe-taken zero n d h = (unfold probe in h, tt)
  probe-taken (suc fuel) n d h = elim (Bool-cases (exists (candidate dir leaf n) d)) [
    | inl y ↦ (y, probe-taken fuel (n + 1) d (rw (probe-next fuel n d y) at h))
    | inr m ↦ absurd (false≢true (sym m ∙ (rw (probe-stop fuel n d m) at h)))
  ]

  -- The search finds a free name, within as many rounds as the disk has entries.
  pub probe-free :
      (n top : ℕ) (d : Disk)
      → Apart (candidate dir leaf) top
      → n + length d < top
      → exists (Paths.join dir (probe unseen (length d) d dir leaf n)) d ≡ false
  probe-free n top d ap_f lt =
      elim (Bool-cases (exists (Paths.join dir (probe unseen (length d) d dir leaf n)) d)) [
        | inr free ↦ free
        | inl full ↦ absurd (
            omega (
              arith,
              taken-le-length (candidate dir leaf) top (suc (length d)) n d ap_f (omega arith)
                  (probe-taken (length d) n d full),
            ))
      ]
