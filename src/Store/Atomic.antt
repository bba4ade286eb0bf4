-- ===== src/Store/Atomic.antt =====
-- internal/store/fsutil.go: an atomic write that reports no error leaves the whole file.
use clipbeam_cli.Prelude.{ℕ, ◌≡◌, refl, ◌≢◌, Option, none, some, Bytes, bytes_eq_refl}
use clipbeam_cli.Disk.{Disk, file, find, remove, find-put}
use clipbeam_cli.Store.{
  Fault, smooth, open_fails, write_fails, sync_fails, close_fails, rename_fails, temp_stays, copied,
  late_error, settle, first_error, write_atomic_fsync, write_bytes_atomic,
}

no_error : {e : ℕ} → some e ≢ none
no_error h = cc

no_error_settle :
    (e : ℕ) (tmp dest bytes : Bytes) (d : Disk) → (settle (some e) tmp dest bytes d).0.1 ≢ none
unfolding settle
no_error_settle e tmp dest bytes d h = no_error h

find-settle :
    (o : Option ℕ) (tmp dest bytes : Bytes) (d : Disk)
    → (settle o tmp dest bytes d).0.1 ≡ none
    → find dest (settle o tmp dest bytes d).1 ≡ some (file bytes)
unfolding settle
find-settle (some e) tmp dest bytes d h = absurd (no_error h)
find-settle none tmp dest bytes d h =
    rw (find-put dest dest (file bytes) (remove tmp d), bytes_eq_refl dest) refl

pub write_bytes_atomic-whole :
    (fault : Fault) (random dest bytes : Bytes) (d : Disk)
    → (write_bytes_atomic fault random dest bytes d).0 ≡ none
    → find dest (write_bytes_atomic fault random dest bytes d).1 ≡ some (file bytes)
unfolding write_bytes_atomic write_atomic_fsync copied late_error first_error
write_bytes_atomic-whole smooth random dest bytes d h = find-settle none _ dest bytes _ h
write_bytes_atomic-whole (open_fails e) random dest bytes d h = absurd (no_error h)
write_bytes_atomic-whole (write_fails e n) random dest bytes d h =
    absurd (no_error_settle e _ _ _ _ h)
write_bytes_atomic-whole (temp_stays e n) random dest bytes d h = absurd (no_error h)
write_bytes_atomic-whole (sync_fails e) random dest bytes d h =
    find-settle (some e) _ dest bytes _ h
write_bytes_atomic-whole (close_fails e) random dest bytes d h =
    find-settle (some e) _ dest bytes _ h
write_bytes_atomic-whole (rename_fails e) random dest bytes d h =
    find-settle (some e) _ dest bytes _ h

-- Without a fault there is no error.
pub write_bytes_atomic_smooth :
    (fault : Fault) (random dest bytes : Bytes) (d : Disk)
    → fault ≡ smooth
    → (write_bytes_atomic fault random dest bytes d).0 ≡ none
unfolding write_bytes_atomic write_atomic_fsync copied late_error first_error settle
write_bytes_atomic_smooth fault random dest bytes d calm = rw calm refl
