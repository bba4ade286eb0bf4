-- ===== src/Store/Counts.antt =====
-- What `saveStream` of internal/store/concrete.go reports as written.
use clipbeam_cli.Prelude.{
  ℕ, ◌≡◌, refl, sym, ap, ◌∙◌, Bool, Option, none, some, arith, length, Bytes,
}
use clipbeam_cli.Disk.{Disk, file, put}
use clipbeam_cli.Store.{
  safe_leaf, save_leaf, temp_path, claim, save_stream, save_at, ok, Payload, Fault, Os, copied,
  late_error, settle, first_error, write_atomic_fsync, finish_save,
}
use clipbeam_cli.Store.Save.{whole_copy}

finish-count :
    (removed : Bool) (dest p : Bytes) (n : ℕ) (out : (ℕ × Option ℕ) × Disk)
    → (finish_save removed dest out).0 ≡ ok (p, n)
    → (out.0.0 ≡ n) × (out.0.1 ≡ none)
unfolding finish_save
finish-count removed dest p n ((w, some e), d) h = cc
finish-count removed dest p n ((w, none), d) h = ground arith

settle-count :
    (error : Option ℕ) (tmp dest bytes : Bytes) (d : Disk)
    → (settle error tmp dest bytes d).0.1 ≡ none
    → ((settle error tmp dest bytes d).0.0 ≡ length bytes) × (error ≡ none)
unfolding settle
settle-count (some e) tmp dest bytes d h = cc
settle-count none tmp dest bytes d h = (refl, refl)

write-count :
    (fault : Fault) (tmp dest : Bytes) (r : Payload) (d : Disk)
    → (write_atomic_fsync fault tmp dest r d).0.1 ≡ none
    → (write_atomic_fsync fault tmp dest r d).0.0 ≡ length r.bytes
unfolding write_atomic_fsync
write-count (Fault.open_fails x) tmp dest r d h = cc
write-count (Fault.temp_stays x k) tmp dest r d h = cc
write-count fault tmp dest r d h =
    let error = first_error (copied fault r).1 (late_error fault) in
    let bytes = (copied fault r).0 in
    let (count, clear) = settle-count error tmp dest bytes (put tmp (file bytes) d) h in
    count ∙ ap length (whole_copy fault r clear).0

save_at-count :
    (os : Os) (r : Payload) (at : Bytes × Disk) (p : Bytes) (n : ℕ)
    → (save_at os r at).0 ≡ ok (p, n)
    → n ≡ length r.bytes
unfolding save_at
save_at-count os r (dest, d) p n h =
    let (count, clear) =
      finish-count os.removed dest p n
        (write_atomic_fsync os.fault (temp_path dest os.random) dest r d) h in
    sym count ∙ write-count os.fault (temp_path dest os.random) dest r d clear

save_leaf-count :
    (os : Os) (dir : Bytes) (r : Payload) (d : Disk) (o : Option Bytes) (p : Bytes) (n : ℕ)
    → (save_leaf os dir r d o).0 ≡ ok (p, n)
    → n ≡ length r.bytes
unfolding save_leaf
save_leaf-count os dir r d none p n h = cc
save_leaf-count os dir r d (some leaf) p n h = save_at-count os r (claim os d dir leaf) p n h

-- A save that succeeds reports the length of the payload.
pub save_stream-count :
    (resolve : Bytes → Option Bytes) (os : Os) (dir name kind uti : Bytes) (r : Payload) (d : Disk)
    (p : Bytes) (n : ℕ)
    → (save_stream resolve os dir name kind uti r d).0 ≡ ok (p, n)
    → n ≡ length r.bytes
unfolding save_stream
save_stream-count resolve os dir name kind uti r d p n h =
    save_leaf-count os dir r d (safe_leaf resolve os.now name kind uti dir) p n h
