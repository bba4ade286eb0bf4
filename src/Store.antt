-- ===== src/Store.antt =====
-- internal/store: the configuration, what goes in and comes back, the atomic writes of fsutil.go
-- and the save pipeline of concrete.go. An operating system call that can fail takes its outcome
-- from an argument, so every run of failures is one of the inputs.
pub mod Atomic
pub mod Probe
pub mod Unique
pub mod Save
pub mod Counts
use clipbeam_cli.Prelude.{
  ℕ, zero, suc, ◌+◌, ◌-◌, ◌*◌, ◌/◌, ◌%◌, ◌^◌, ◌≤◌, ◌<◌, ◌≡◌, refl, sym, ap, ◌∙◌, ◌≢◌, ◌↔◌, ◌⊎◌, inl,
  inr, Bool, true, false, not, ◌&&◌, ◌||◌, Option, none, some, List, [], ◌∷◌, ◌++◌, map,
  append_assoc, append-nil, arith, ltb, leb, ◌==◌, if◌then◌else◌, between, ==_iff, lt→ltb, ltb→lt,
  ltb→le, leb→le, leb→lt, le→leb, lt→leb-false, le→ltb-false, All-left, All-right, All-map,
  Bool-cases, Option-cases, length, take, drop, All, last, get_or, length-append, length-take,
  length-drop, take-append-drop, take-length-append, drop-length-append, All-append, All-take,
  All-drop, Bytes, codes, bytes_eq, bytes_eq_refl, bytes_eq_iff, has_prefix, has_prefix-append,
}
use clipbeam_cli.Go.Paths
use clipbeam_cli.Go.Clock.{Time}
use clipbeam_cli.Sanitize.{safe_leaf, collision_name}
use clipbeam_cli.Disk.{Disk, Node, file, exists, put, remove}

pub record StoreConfig : Type 0 where
  pub save_dir : Bytes
  pub agent_inbox_dir : Bytes
  pub last_path_file : Bytes
  pub recents_file : Bytes
  pub save_text_to_disk : Bool
  pub long_text_threshold : ℕ
  pub journal_agent_items : Bool

-- An errno stands for itself.
pub data StoreError : Type 0 where
  path_escape : StoreError
  os_error : ℕ → StoreError

pub data Result {ℓ} (A : Type ℓ) : Type ℓ where
  ok : A → Result A
  err : StoreError → Result A

-- What an io.Reader yields, and the error that it ends with, if it does not end with EOF.
pub record Payload : Type 0 where
  pub bytes : Bytes
  pub broken : Option ℕ

-- The first call that fails in an atomic write, with its errno; a write fails after some bytes.
pub data Fault : Type 0 where
  smooth : Fault
  open_fails : ℕ → Fault
  write_fails : ℕ → ℕ → Fault
  sync_fails : ℕ → Fault
  close_fails : ℕ → Fault
  rename_fails : ℕ → Fault
  -- One of the calls after the create fails when some bytes are written, and then the removal of the
  -- temporary file fails as well.
  temp_stays : ℕ → ℕ → Fault

-- What comes of the exclusive create of `reserve`: a create that the system refuses although the
-- path is free, and one whose Close fails.
pub data Create : Type 0 where
  made : Create
  refused : Create
  unclosed : Create

-- The surroundings of one save: the paths whose Lstat fails in the first and in the second search,
-- what comes of the first and the second reservation, the random part of the temporary name, the
-- write's outcome, and whether the removal of the reservation works.
pub record Os : Type 0 where
  pub now : Time
  pub unseen : Bytes → Bool
  pub unseen_again : Bytes → Bool
  pub first : Create
  pub second : Create
  pub random : Bytes
  pub fault : Fault
  pub removed : Bool

pub temp_path : Bytes → Bytes → Bytes
temp_path dest random = Paths.join (Paths.dir dest) (codes ".clipbeam-tmp-" ++ random)

-- The bytes that reach the temporary file, and the copy's error.
pub copied : Fault → Payload → Bytes × Option ℕ
copied (write_fails e n) r = (take n r.bytes, some e)
copied _ r = (r.bytes, r.broken)

-- From the end of the copy on: the errors of Sync, Close and Rename.
pub late_error : Fault → Option ℕ
late_error (sync_fails e) = some e
late_error (close_fails e) = some e
late_error (rename_fails e) = some e
late_error _ = none

-- The end of an atomic write of `bytes`, which stand in the temporary file.
pub settle : Option ℕ → Bytes → Bytes → Bytes → Disk → (ℕ × Option ℕ) × Disk
settle (some e) tmp dest bytes d = ((length bytes, some e), remove tmp d)
settle none tmp dest bytes d = ((length bytes, none), put dest (file bytes) (remove tmp d))

pub first_error : Option ℕ → Option ℕ → Option ℕ
first_error (some e) f = some e
first_error none f = f

-- The count of bytes written, the error, and the disk.
pub write_atomic_fsync : Fault → Bytes → Bytes → Payload → Disk → (ℕ × Option ℕ) × Disk
write_atomic_fsync (open_fails e) tmp dest r d = ((0, some e), d)
write_atomic_fsync (temp_stays e n) tmp dest r d =
    ((length (take n r.bytes), some e), put tmp (file (take n r.bytes)) d)
write_atomic_fsync fault tmp dest r d =
    let (bytes, broken) = copied fault r in
    settle (first_error broken (late_error fault)) tmp dest bytes (put tmp (file bytes) d)

-- The same for bytes in memory; its error is dropped or handed on by the callers.
pub write_bytes_atomic : Fault → Bytes → Bytes → Bytes → Disk → Option ℕ × Disk
write_bytes_atomic fault random dest bytes d =
    let out =
      write_atomic_fsync fault (temp_path dest random) dest
        (record { bytes = bytes; broken = none }) d in
    (out.0.1, out.1)

-- `exists`: any error of Lstat counts as a free path.
pub seen : (Bytes → Bool) → Bytes → Disk → Bool
seen unseen path d = if unseen path then false else exists path d

-- The loop of `uniqueLeaf` from the n-th candidate on. As many rounds as the disk has entries are
-- enough to find a free one.
pub probe : (Bytes → Bool) → ℕ → Disk → Bytes → Bytes → ℕ → Bytes
unfolding seen
probe unseen zero d dir leaf n = collision_name leaf n
probe unseen (suc fuel) d dir leaf n =
    let later = probe unseen fuel d dir leaf (n + 1) in
    if seen unseen (Paths.join dir (collision_name leaf n)) d then later else collision_name leaf n

pub unique_leaf : (Bytes → Bool) → Disk → Bytes → Bytes → Bytes
unfolding seen
unique_leaf unseen d dir leaf =
    let other = probe unseen (length d) d dir leaf 2 in
    if seen unseen (Paths.join dir leaf) d then other else leaf

-- Whether there is no error, and the disk. A path that is there is not opened.
created : Create → Bytes → Disk → Bool × Disk
created made dest d = (true, put dest (file []) d)
created refused dest d = (false, d)
created unclosed dest d = (false, put dest (file []) d)

pub reserve : Create → Bytes → Disk → Bool × Disk
unfolding created
reserve c dest d = if exists dest d then (false, d) else created c dest d

-- What is done under the mutex: a name that is free, and its reservation; where that fails, once
-- more, and then without a look at the error.
reserve_again : Os → Bytes → Bytes → Bytes → Bool × Disk → Bytes × Disk
reserve_again os dir leaf dest (true, d) = (dest, d)
reserve_again os dir leaf dest (false, d) =
    let other = Paths.join dir (unique_leaf os.unseen_again d dir leaf) in
    (other, (reserve os.second other d).1)

pub claim : Os → Disk → Bytes → Bytes → Bytes × Disk
unfolding reserve_again
claim os d dir leaf =
    let dest = Paths.join dir (unique_leaf os.unseen d dir leaf) in
    reserve_again os dir leaf dest (reserve os.first dest d)

finish_save : Bool → Bytes → (ℕ × Option ℕ) × Disk → Result (Bytes × ℕ) × Disk
finish_save removed dest ((written, some e), d) =
    (err (os_error e), if removed then remove dest d else d)
finish_save removed dest ((written, none), d) = (ok (dest, written), d)

save_at : Os → Payload → Bytes × Disk → Result (Bytes × ℕ) × Disk
save_at os r (dest, d) =
    finish_save os.removed dest (write_atomic_fsync os.fault (temp_path dest os.random) dest r d)

save_leaf : Os → Bytes → Payload → Disk → Option Bytes → Result (Bytes × ℕ) × Disk
save_leaf os dir r d none = (err path_escape, d)
save_leaf os dir r d (some leaf) = save_at os r (claim os d dir leaf)

-- `resolve` is filepath.EvalSymlinks.
pub save_stream :
    (Bytes → Option Bytes)
    → Os
    → Bytes
    → Bytes
    → Bytes
    → Bytes
    → Payload
    → Disk
    → Result (Bytes × ℕ) × Disk
save_stream resolve os dir name kind uti r d =
    save_leaf os dir r d (safe_leaf resolve os.now name kind uti dir)
