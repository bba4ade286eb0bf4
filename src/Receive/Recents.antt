-- ===== src/Receive/Recents.antt =====
-- internal/store/recents.go: the list that a clipboard request leaves behind.
use clipbeam_cli.Prelude.{
  ◌-◌, ◌≡◌, refl, inl, inr, Option, none, some, List, ◌∷◌, ◌++◌, map, arith, ltb, ltb→le,
  Bool-cases, length, drop, Bytes,
}
use clipbeam_cli.Disk.{Disk, file, find}
use clipbeam_cli.Store.{StoreConfig, write_bytes_atomic}
use clipbeam_cli.Store.Atomic.{write_bytes_atomic-whole}
use clipbeam_cli.Receive.{
  Json, Recent, Call, recents_in, or_empty, contents, load_recents, keep_last, append_recents,
  recents_cap,
}

-- The entries of one request, all with its sender and time.
abbrev pub entries : Call → Bytes → List Bytes → List Recent
entries call sender paths =
    map (λ (q : Bytes). record { path = q; sender = sender; time = call.os.now }) paths

module _ (json : Json) (cfg : StoreConfig) (resolve : Bytes → Option Bytes) where
  keep_last_lem :
      (recents : List Recent)
      → keep_last json cfg resolve recents ≡ drop (length recents - recents_cap) recents
  unfolding keep_last
  keep_last_lem recents = elim (Bool-cases (ltb recents_cap (length recents))) [
    | inl over ↦ rw over refl
    | inr within ↦
        (let fits : length recents - recents_cap ≡ 0 =
            omega (arith, ltb→le recents_cap (length recents) within) in
          rw (within, fits) refl)
  ]

  load_written :
      (d : Disk) (recents : List Recent)
      → json.decode_recents (json.encode_recents recents) ≡ some recents
      → find cfg.recents_file d ≡ some (file (json.encode_recents recents))
      → load_recents json cfg resolve d ≡ recents
  unfolding load_recents contents recents_in or_empty
  load_written d recents decodes h = rw (h, decodes) refl

-- After a request that saved files, when the recents file is written without an error and what is
-- written reads back, the recents that load are the newest ones of what loaded before followed by one
-- entry for each path of the request in order: all of them, or the last 20 where there are more.
pub append_recents_lem :
    (json : Json) (cfg : StoreConfig) (resolve : Bytes → Option Bytes) (call : Call) (p : Bytes)
    (paths : List Bytes) (sender : Bytes) (d : Disk)
    → (let kept =
          keep_last json cfg resolve
            (load_recents json cfg resolve d ++ entries call sender (p ∷ paths)) in
        json.decode_recents (json.encode_recents kept) ≡ some kept)
    → (write_bytes_atomic call.recents_fault call.recents_random cfg.recents_file
        (json.encode_recents (
          keep_last json cfg resolve
            (load_recents json cfg resolve d ++ entries call sender (p ∷ paths))))
        d).0
      ≡ none
    → (let all = load_recents json cfg resolve d ++ entries call sender (p ∷ paths) in
        load_recents json cfg resolve (append_recents json cfg resolve call (p ∷ paths) sender d)
        ≡ drop (length all - 20) all)
unfolding append_recents
append_recents_lem json cfg resolve call p paths sender d decodes no_error =
    (let kept =
        keep_last json cfg resolve
          (load_recents json cfg resolve d ++ entries call sender (p ∷ paths)) in
      let bounds =
        keep_last_lem json cfg resolve
          (load_recents json cfg resolve d ++ entries call sender (p ∷ paths)) in
      let whole =
        write_bytes_atomic-whole call.recents_fault call.recents_random cfg.recents_file
          (json.encode_recents kept) d no_error in
      rw (load_written json cfg resolve _ kept decodes whole) bounds)
