-- ===== src/Httpd/Decode/Cleanup.antt =====
-- internal/httpd/clip.go, `decodeAndIngest`: the temporary files after a request.
use clipbeam_cli.Prelude.{
  ℕ, ◌<◌, ◌≡◌, refl, sym, ◌∙◌, ◌≢◌, ◌⊎◌, inl, inr, Option, none, List, [], ◌∷◌, arith, All-map, All,
  Bytes, bytes_eq_refl, bytes_eq_iff,
}
use clipbeam_cli.Disk.{Disk, find, remove, find-remove}
use clipbeam_cli.Store.{StoreConfig}
use clipbeam_cli.Receive.{Json, Call, ReceiveStore}
use clipbeam_cli.Httpd.Outcome.{ClipError}
use clipbeam_cli.Httpd.Clip.{ParsedItem, TempFiles}
use clipbeam_cli.Httpd.Envelope.{Parsed, parse_envelope_streaming}
use clipbeam_cli.Httpd.Envelope.Listed.{In, Lists, parse_envelope_streaming-Lists}
use clipbeam_cli.Httpd.Envelope.Temps.{AllOwn, parse_envelope_streaming-AllOwn}
use clipbeam_cli.Httpd.Decode.{Served, remove_all, clean, ingest_parsed, decode_and_ingest}

find-remove_all-none :
    (tmps : List Bytes) (q : Bytes) (d : Disk) → find q d ≡ none → find q (remove_all tmps d) ≡ none
unfolding remove_all
find-remove_all-none [] q d h = h
find-remove_all-none (p ∷ tmps) q d h =
    find-remove_all-none tmps q (remove p d) (ground (arith, find-remove p q d, h))

find-remove_same : (p : Bytes) (d : Disk) → find p (remove p d) ≡ none
find-remove_same p d = find-remove p p d ∙ rw (bytes_eq_refl p) refl

find-remove_all :
    (tmps : List Bytes) (p : Bytes) (d : Disk) → In p tmps → find p (remove_all tmps d) ≡ none
unfolding remove_all
find-remove_all [] p d h = absurd h
find-remove_all (q ∷ tmps) p d (inl e) =
    rw e (find-remove_all-none tmps q (remove q d) (find-remove_same q d))
find-remove_all (q ∷ tmps) p d (inr i) = find-remove_all tmps p (remove q d) i

-- The file of an item that has one is not there.
abbrev pub FileGone : Disk → ParsedItem → Type 0
FileGone d pi = (pi.tmp_path ≡ []) ⊎ (find pi.tmp_path d ≡ none)

Lists-FileGone :
    (tmps : List Bytes) (d : Disk) (pi : ParsedItem)
    → Lists tmps pi
    → FileGone (remove_all tmps d) pi
Lists-FileGone tmps d pi (inl e) = inl e
Lists-FileGone tmps d pi (inr i) = inr (find-remove_all tmps pi.tmp_path d i)

find-remove_all_other :
    (tmps : List Bytes) (q : Bytes) (d : Disk)
    → All (λ p. p ≢ q) tmps
    → find q (remove_all tmps d) ≡ find q d
unfolding remove_all
find-remove_all_other [] q d h = refl
find-remove_all_other (p ∷ tmps) q d (ne, h) =
    find-remove_all_other tmps q (remove p d) h
    ∙ ground (arith, find-remove p q d, bytes_eq_iff p q, ne)

Own-apart :
    (temps : TempFiles) (made : ℕ) (q : Bytes) (tmps : List Bytes)
    → ((n : ℕ) → n < made → temps.path n ≢ q)
    → AllOwn temps made tmps
    → All (λ p. p ≢ q) tmps
unfolding AllOwn
Own-apart temps made q tmps apart h =
    All-map {Q = λ p. p ≢ q} (λ p o e. apart o.number o.below (sym o.named ∙ e)) tmps h

module _ (json : Json) (cfg : StoreConfig) (resolve : Bytes → Option Bytes) (max_bytes : ℕ)
    (temps : TempFiles) (calls : ℕ → Call) (broken : Option ClipError) (body : Bytes)
    (s : ReceiveStore) where
  -- The request as it was parsed, and the disk between the store's work and the removals.
  pub parsed : Parsed
  parsed = parse_envelope_streaming broken temps body (record { disk = s.disk; made = 0 })

  pub worked : Served × ReceiveStore
  unfolding parsed
  worked =
      ingest_parsed json cfg resolve max_bytes temps calls parsed.envelope parsed.outcome
        (record s { disk = parsed.scratch.disk })

  -- Where os.Remove works: after a request of any bytes, however it ends, the payload file of no item that the parse returned
  -- is left, and a path that none of the files made for this request has holds what it held after the
  -- store's work.
  pub decode_and_ingest_cleanup :
      All
        (FileGone (decode_and_ingest json cfg resolve max_bytes temps calls broken body s).1.disk)
        parsed.envelope.items
      × ((q : Bytes)
          → ((n : ℕ) → n < parsed.scratch.made → temps.path n ≢ q)
          → find q (decode_and_ingest json cfg resolve max_bytes temps calls broken body s).1.disk
            ≡ find q worked.1.disk)
  unfolding decode_and_ingest clean parsed worked
  decode_and_ingest_cleanup = (
    All-map (λ pi l. Lists-FileGone parsed.envelope.tmps worked.1.disk pi l) parsed.envelope.items
        (parse_envelope_streaming-Lists broken temps body (record { disk = s.disk; made = 0 })),
    λ q apart. find-remove_all_other parsed.envelope.tmps q worked.1.disk (
        Own-apart temps parsed.scratch.made q parsed.envelope.tmps apart
          (parse_envelope_streaming-AllOwn broken temps body (record { disk = s.disk; made = 0 }))),
  )
