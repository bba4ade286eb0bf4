-- ===== src/Receive/LastPath.antt =====
-- internal/store/concrete.go, the last path on the disk: it outlives the store that saved it.
use clipbeam_cli.Prelude.{
  ℕ, ◌≡◌, refl, ◌∙◌, Bool, false, Option, none, some, [], ◌∷◌, ◌==◌, if◌then◌else◌, last, Bytes,
}
use clipbeam_cli.Go.Strings.{is_empty, trim_right}
use clipbeam_cli.Disk.{Disk, file, find}
use clipbeam_cli.Waiters.{empty_fifo}
use clipbeam_cli.Waiters.Paths.{no_waiters}
use clipbeam_cli.Store.{StoreConfig, Fault, write_bytes_atomic}
use clipbeam_cli.Store.Atomic.{write_bytes_atomic-whole}
use clipbeam_cli.Receive.{ReceiveStore, contents}

is_newline : ℕ → Bool
is_newline c = c == 10

or_none : Option Bytes → Bytes
unfolding trim_right is_newline
or_none none = []
or_none (some bytes) = trim_right is_newline bytes

-- The file's bytes without newlines at the end, or nothing where it cannot be read.
pub load_last_path : Bytes → Disk → Bytes
unfolding is_empty
load_last_path path d = if is_empty path then [] else or_none (contents (find path d))

-- ("", false) is `none`.
pub read_last_path : Bytes → Disk → Option Bytes
unfolding is_empty
read_last_path path d = let p = load_last_path path d in if is_empty p then none else some p

-- `newConcrete` over the disk as it stands.
pub new_concrete : StoreConfig → Disk → ReceiveStore
unfolding empty_fifo no_waiters
new_concrete cfg d = record {
  last_path = load_last_path cfg.last_path_file d;
  agent = empty_fifo;
  clip_wait = no_waiters;
  disk = d;
}

trim_kept : (c : ℕ) (s : Bytes) → (last c s == 10) ≡ false → trim_right is_newline (c ∷ s) ≡ c ∷ s
unfolding trim_right is_newline
trim_kept c [] h = rw h refl
trim_kept c (d ∷ s) h = rw (trim_kept d s h) refl

load_plain :
    (c : ℕ) (path : Bytes) → (last c path == 10) ≡ false → or_none (some (c ∷ path)) ≡ c ∷ path
unfolding or_none
load_plain c path plain = trim_kept c path plain

load_contents :
    (path c_path : Bytes) (d : Disk)
    → is_empty path ≡ false
    → find path d ≡ some (file c_path)
    → load_last_path path d ≡ or_none (some c_path)
unfolding load_last_path contents
load_contents path c_path d named h = rw (named, h) refl

-- A path that does not end in a newline and is written to the last-path file without an error is
-- what a later process reads from that file, and what a new store over that disk answers.
pub read_last_path-written :
    (cfg : StoreConfig) (fault : Fault) (random : Bytes) (c : ℕ) (path : Bytes) (d : Disk)
    → is_empty cfg.last_path_file ≡ false
    → (last c path == 10) ≡ false
    → (write_bytes_atomic fault random cfg.last_path_file (c ∷ path) d).0 ≡ none
    → (let after = (write_bytes_atomic fault random cfg.last_path_file (c ∷ path) d).1 in
        (read_last_path cfg.last_path_file after ≡ some (c ∷ path))
        × ((new_concrete cfg after).last_path ≡ c ∷ path))
unfolding read_last_path new_concrete is_empty
read_last_path-written cfg fault random c path d named plain no_error =
    (let whole = write_bytes_atomic-whole fault random cfg.last_path_file (c ∷ path) d no_error in
      let loaded =
        load_contents cfg.last_path_file (c ∷ path) _ named whole ∙ load_plain c path plain in
      (rw loaded refl, loaded))
