-- ===== src/Store/Save.antt =====
-- What `saveStream` of internal/store/concrete.go does to the disk, on every outcome.
use clipbeam_cli.Prelude.{
  ℕ, ◌^◌, ◌<◌, ◌≡◌, ◌≢◌, refl, sym, true, ap, ◌∙◌, Bool, false, Option, none, some, List, [], arith,
  if◌then◌else◌, length, All, Bytes, bytes_eq, bytes_eq_iff,
}
use mathlib.Core.Path.{subst, fun_ext}
use clipbeam_cli.Disk.{Disk, file, find, put, remove, find-put, find-remove}
use clipbeam_cli.Go.Paths
use clipbeam_cli.Go.Paths.{IsElement, rooted_path}
use clipbeam_cli.Sanitize.{clean_leaf, eval_dir}
use clipbeam_cli.Sanitize.Safe.{clean_leaf-IsSafeName}
use clipbeam_cli.Sanitize.Contain.{safe_leaf-contained}
use clipbeam_cli.Store.Unique.{unique_leaf-free}
use clipbeam_cli.Store.{
  safe_leaf, save_leaf, temp_path, claim, created, reserve_again, Create, made, refused, unclosed,
  save_stream, save_at, Result, ok, err, Payload, Fault, Os, copied, late_error, settle,
  first_error, write_atomic_fsync, unique_leaf, reserve, finish_save,
}

-- After a save that succeeds, one path that was free holds the payload, all of it, and its length
-- is reported; after one that fails no path differs. All other paths are as before in both cases.
pub SaveSpec : Disk → Payload → Bytes → Result (Bytes × ℕ) × Disk → Type 0
SaveSpec d r dest (ok (path, n), d') =
    (path ≡ dest)
    × (find dest d ≡ none)
    × (r.broken ≡ none)
    × (n ≡ length r.bytes)
    × ((q : Bytes) → find q d' ≡ (if bytes_eq dest q then some (file r.bytes) else find q d))
SaveSpec d r dest (err e, d') = (q : Bytes) → find q d' ≡ find q d

-- `e` is `d` with perhaps a placeholder at `dest`.
abbrev Reserved : Disk → Bytes → Disk → Type 0
Reserved d dest e = (q : Bytes) → bytes_eq dest q ≡ false → find q e ≡ find q d

pub whole_copy :
    (fault : Fault) (r : Payload)
    → first_error (copied fault r).1 (late_error fault) ≡ none
    → ((copied fault r).0 ≡ r.bytes) × (r.broken ≡ none)
unfolding first_error copied late_error
whole_copy fault r h = ground arith

module _ (d : Disk) (dest tmp : Bytes) (free : find dest d ≡ none)
    (unused : find tmp d ≡ none) where
  settled_disk :
      (bytes : Bytes) (e : Disk)
      → Reserved d dest e
      → (q : Bytes)
      → find q (put dest (file bytes) (remove tmp (put tmp (file bytes) e)))
        ≡ (if bytes_eq dest q then some (file bytes) else find q d)
  settled_disk bytes e same q = ground (
    arith,
    find-put dest q (file bytes) (remove tmp (put tmp (file bytes) e)),
    find-remove tmp q (put tmp (file bytes) e),
    find-put tmp q (file bytes) e,
    bytes_eq_iff tmp q,
    same q,
  )

  undone_disk :
      (bytes : Bytes) (e : Disk)
      → Reserved d dest e
      → (q : Bytes) → find q (remove dest (remove tmp (put tmp (file bytes) e))) ≡ find q d
  undone_disk bytes e same q = ground (
    arith,
    find-remove dest q (remove tmp (put tmp (file bytes) e)),
    find-remove tmp q (put tmp (file bytes) e),
    find-put tmp q (file bytes) e,
    bytes_eq_iff tmp q,
    bytes_eq_iff dest q,
    same q,
  )

  opened_disk : (e : Disk) → Reserved d dest e → (q : Bytes) → find q (remove dest e) ≡ find q d
  opened_disk e same q = ground (arith, find-remove dest q e, bytes_eq_iff dest q, same q)

  settle-SaveSpec :
      (r : Payload) (error : Option ℕ) (bytes : Bytes) (e : Disk)
      → Reserved d dest e
      → (error ≡ none → (bytes ≡ r.bytes) × (r.broken ≡ none))
      → SaveSpec d r dest
          (finish_save true dest (settle error tmp dest bytes (put tmp (file bytes) e)))
  unfolding SaveSpec finish_save settle
  settle-SaveSpec r (some x) bytes e same whole = undone_disk bytes e same
  settle-SaveSpec r none bytes e same whole =
      let (all, sound) = whole refl in
      (
        refl,
        free,
        sound,
        ap length all,
        λ q.
            settled_disk bytes e same q
            ∙ ap (λ (b : Bytes). if bytes_eq dest q then some (file b) else find q d) all,
      )

  write-SaveSpec :
      (fault : Fault) (r : Payload) (e : Disk)
      → ((x n : ℕ) → fault ≢ Fault.temp_stays x n)
      → Reserved d dest e
      → SaveSpec d r dest (finish_save true dest (write_atomic_fsync fault tmp dest r e))
  write-SaveSpec (Fault.open_fails x) r e cleans same =
      unfold write_atomic_fsync finish_save SaveSpec in opened_disk e same
  write-SaveSpec (Fault.temp_stays x n) r e cleans same = absurd (cleans x n refl)
  write-SaveSpec fault r e cleans same =
      unfold write_atomic_fsync in
      settle-SaveSpec r (first_error (copied fault r).1 (late_error fault)) (copied fault r).0 e
        same (whole_copy fault r)

Reserved-same : (c : Create) (dest : Bytes) (d : Disk) → Reserved d dest (reserve c dest d).1
unfolding reserve created
Reserved-same made dest d q ne = ground (arith, find-put dest q (file []) d)
Reserved-same refused dest d q ne = ground arith
Reserved-same unclosed dest d q ne = ground (arith, find-put dest q (file []) d)

-- A reservation that fails, but not at its Close, leaves the disk alone.
reserve_fails :
    (c : Create) (dest : Bytes) (d e : Disk) → c ≢ unclosed → reserve c dest d ≡ (false, e) → e ≡ d
unfolding reserve created
reserve_fails made dest d e closed h = ground arith
reserve_fails refused dest d e closed h = ground arith
reserve_fails unclosed dest d e closed h = absurd (closed refl)

-- No Lstat fails, the first reservation does not fail at its Close, and what is removed goes.
pub record Calm (os : Os) : Type 0 where
  pub sees : (p : Bytes) → os.unseen p ≡ false
  pub sees_again : (p : Bytes) → os.unseen_again p ≡ false
  pub closes : os.first ≢ unclosed
  pub removes : os.removed ≡ true
  pub cleans : (e n : ℕ) → os.fault ≢ Fault.temp_stays e n

module _ (os : Os) (calm : Calm os) (d : Disk) (dir leaf : Bytes) where
  abbrev dest : Bytes
  dest = Paths.join dir (unique_leaf os.unseen d dir leaf)

  same_search : unique_leaf os.unseen_again d dir leaf ≡ unique_leaf os.unseen d dir leaf
  same_search =
      ap (λ (f : Bytes → Bool). unique_leaf f d dir leaf)
        (fun_ext (λ p. calm.sees_again p ∙ sym (calm.sees p)))

  reserve_again-Reserved :
      (out : Bool × Disk)
      → reserve os.first dest d ≡ out
      → (e : Disk) × (reserve_again os dir leaf dest out ≡ (dest, e)) × Reserved d dest e
  unfolding reserve_again
  reserve_again-Reserved (true, e) h =
      (e, refl, subst (λ (o : Bool × Disk). Reserved d dest o.1) h (Reserved-same os.first dest d))
  reserve_again-Reserved (false, e) h =
      let same = reserve_fails os.first dest d e calm.closes h in
      ((reserve os.second dest d).1, rw (same, same_search) refl, Reserved-same os.second dest d)

  -- The path of a claim is the free one, and all others are as they were.
  claim-Reserved : (e : Disk) × (claim os d dir leaf ≡ (dest, e)) × Reserved d dest e
  unfolding claim
  claim-Reserved = reserve_again-Reserved (reserve os.first dest d) refl

  save_at-SaveSpec :
      (r : Payload)
      → find dest d ≡ none
      → find (temp_path dest os.random) d ≡ none
      → SaveSpec d r dest (save_at os r (claim os d dir leaf))
  unfolding save_at
  save_at-SaveSpec r free unused =
      let (e, eq, same) = claim-Reserved in
      rw (eq, calm.removes) (write-SaveSpec d dest _ free unused os.fault r e calm.cleans same)

save_stream-some :
    (resolve : Bytes → Option Bytes) (os : Os) (dir name kind uti leaf : Bytes) (r : Payload)
    (d : Disk)
    → safe_leaf resolve os.now name kind uti dir ≡ some leaf
    → save_stream resolve os dir name kind uti r d ≡ save_at os r (claim os d dir leaf)
unfolding save_stream save_leaf
save_stream-some resolve os dir name kind uti leaf r d e = rw (e, save_leaf)

-- A save into a clean absolute folder, on a disk of fewer than 10^19 entries that does not have
-- the temporary name: whatever the raw name, kind and type identifier, a save that succeeds has put
-- the whole payload at the path that it returns, which was free, and reports its length; a save that
-- fails leaves every path as it was; and no other path changes in either case, so no file is ever
-- overwritten and no temporary file is left. Any call may fail, but for Lstat, the Close of the first
-- reservation, and the removal of the temporary file and of the reservation (`Calm`).
pub save_stream-SaveSpec :
    (resolve : Bytes → Option Bytes) (os : Os) (es : List Bytes) (name kind uti : Bytes)
    (r : Payload) (d : Disk)
    → Calm os
    → All IsElement es
    → eval_dir resolve (rooted_path es) ≡ rooted_path es
    → length d < 10 ^ 19
    → find
        (temp_path
          (Paths.join
            (rooted_path es)
            (unique_leaf os.unseen d (rooted_path es) (clean_leaf os.now name kind uti)))
          os.random)
        d
      ≡ none
    → SaveSpec d r
        (Paths.join
          (rooted_path es)
          (unique_leaf os.unseen d (rooted_path es) (clean_leaf os.now name kind uti)))
        (save_stream resolve os (rooted_path es) name kind uti r d)
save_stream-SaveSpec resolve os es name kind uti r d calm h resolved small unused =
    let leaf = clean_leaf os.now name kind uti in
    let safe = (clean_leaf-IsSafeName os.now name kind uti).0 in
    let contained =
      (safe_leaf-contained resolve os.now name kind uti (rooted_path es) es h resolved).0 in
    rw (save_stream-some resolve os (rooted_path es) name kind uti leaf r d contained) (
      save_at-SaveSpec os calm d (rooted_path es) leaf r
        (unique_leaf-free es h leaf safe os.unseen calm.sees d small) unused)
