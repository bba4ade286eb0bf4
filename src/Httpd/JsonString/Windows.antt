-- ===== src/Httpd/JsonString/Windows.antt =====
-- internal/httpd/jsonstream.go: the reads of one string through buffers, against the string as a whole.
use clipbeam_cli.Prelude.{
  ℕ, zero, suc, ◌+◌, ◌-◌, ◌*◌, ◌≤◌, ◌<◌, ◌≡◌, refl, sym, ap, ◌∙◌, inl, inr, Bool, true, false, not,
  Option, [], ◌∷◌, ◌++◌, append_assoc, arith, leb, ◌==◌, if◌then◌else◌, leb→le, Bool-cases, length,
  take, drop, length-drop, take-append-drop, Bytes,
}
use clipbeam_cli.Go.Strings.{is_empty}
use clipbeam_cli.Httpd.Outcome.{ClipError, Outcome, ok, err, spent}
use clipbeam_cli.Httpd.JsonString.{
  Piece, closed, emitted, failed, next_unit, prefixed, read_rest, read_string, StringReader, Status,
  more, eof, error, Window, put, at_close, fill_with, fill, read_window, after_read, read_all,
}
use clipbeam_cli.Httpd.JsonString.Sizes.{Progress, next_unit-Progress, read_string-enough}

prefixed-append :
    (a b : Bytes) (o : Outcome Bytes) → prefixed (a ++ b) o ≡ prefixed a (prefixed b o)
unfolding prefixed
prefixed-append a b (ok text rest) = ap (λ t. ok t rest) (append_assoc a b text)
prefixed-append a b (err e) = refl
prefixed-append a b spent = refl

prefixed-nil : (o : Outcome Bytes) → prefixed [] o ≡ o
unfolding prefixed
prefixed-nil (ok text rest) = refl
prefixed-nil (err e) = refl
prefixed-nil spent = refl

-- A reader's state as a number that each read takes something off: a byte of the body becomes four
-- bytes of the string at most.
size : StringReader → ℕ
size r = length r.pending + 4 * length r.rest

nonzero : (n : ℕ) → 0 < n → (n == 0) ≡ false
nonzero n pos = ground arith

module _ (broken : Option ClipError) where
  unread : Bool → Bytes → Outcome Bytes
  unread true s = ok [] s
  unread false s = read_string broken (suc (length s)) s

  -- What a reader has yet to give.
  remaining : StringReader → Outcome Bytes
  remaining r = prefixed r.pending (unread r.finished r.rest)

  ContinuesBy : Status → Bool → ℕ → Outcome Bytes → Bytes → StringReader → Type 0
  ContinuesBy more some_put bound whole bytes r =
      (prefixed bytes (remaining r) ≡ whole) × (size r < bound)
  ContinuesBy eof true bound whole bytes r = ⊥
  ContinuesBy eof false bound whole bytes r = (bytes ≡ []) × (whole ≡ ok [] r.rest)
  ContinuesBy (error e) some_put bound whole bytes r = whole ≡ err e

  -- A read gives the next bytes of `whole` and a smaller reader for the others, its end, or its error.
  Continues : Bool → ℕ → Outcome Bytes → Window → Type 0
  Continues some_put bound whole w = ContinuesBy w.status some_put bound whole w.bytes w.reader

  put-ContinuesBy :
      (out : Bytes) (st : Status) (b : Bool) (bound bound' : ℕ) (whole : Outcome Bytes)
      (bytes : Bytes) (r : StringReader)
      → bound ≤ bound'
      → ContinuesBy st true bound whole bytes r
      → ContinuesBy st b bound' (prefixed out whole) (out ++ bytes) r
  unfolding ContinuesBy prefixed
  put-ContinuesBy out more b bound bound' whole bytes r le h =
      (prefixed-append out bytes (remaining r) ∙ ap (prefixed out) h.0, omega (arith, h.1, le))
  put-ContinuesBy out eof b bound bound' whole bytes r le h = absurd h
  put-ContinuesBy out (error e) b bound bound' whole bytes r le h = ap (prefixed out) h

  weaken-ContinuesBy :
      (st : Status) (b : Bool) (bound bound' : ℕ) (whole : Outcome Bytes) (bytes : Bytes)
      (r : StringReader)
      → bound ≤ bound'
      → ContinuesBy st b bound whole bytes r
      → ContinuesBy st b bound' whole bytes r
  unfolding ContinuesBy
  weaken-ContinuesBy more b bound bound' whole bytes r le h = (h.0, omega (arith, h.1, le))
  weaken-ContinuesBy eof true bound bound' whole bytes r le h = h
  weaken-ContinuesBy eof false bound bound' whole bytes r le h = h
  weaken-ContinuesBy (error e) b bound bound' whole bytes r le h = h

  -- The piece that a round takes.
  fill_with-Continues :
      (more_of : ℕ → Bool → Bytes → Window) (rounds room : ℕ) (b : Bool) (s : Bytes) (u : Piece)
      → Progress s u
      → 0 < room
      → room ≤ suc rounds
      → ((room' : ℕ) (s' : Bytes)
          → room' ≤ rounds
          → Continues true (suc (4 * length s')) (unread false s') (more_of room' true s'))
      → next_unit broken s ≡ u
      → Continues b
          (4 * length s)
          (read_rest broken (read_string broken (length s)) u)
          (fill_with broken more_of room b s u)
  unfolding Continues ContinuesBy fill_with at_close read_rest prefixed remaining unread size put
  fill_with-Continues more_of rounds room true s (closed s') p pos le h e = (refl, omega (arith, p))
  fill_with-Continues more_of rounds room false s (closed s') p pos le h e = (refl, refl)
  fill_with-Continues more_of rounds room b s (failed x) p pos le h e = refl
  fill_with-Continues more_of rounds room b s (emitted out s') p pos le h e =
      elim (Bool-cases (leb (length out) room)) [
        | inl y ↦
            rw (y, fill_with)
              (rw (read_string-enough broken (length s) (suc (length s')) s' p.0 (omega arith)) (
                put-ContinuesBy out _ b (suc (4 * length s')) (4 * length s) (unread false s') _ _
                  (omega (arith, p.0)) (h (room - length out) s' (omega (arith, p.1.0, le)))))
        | inr n ↦
            rw (n, fill_with)
              (
                sym (prefixed-append (take room out) (drop room out) (unread false s'))
                    ∙ ap (λ o. prefixed o (unread false s')) (take-append-drop room out)
                    ∙ ap (prefixed out) (
                        read_string-enough broken (suc (length s')) (length s) s' (omega arith)
                          p.0),
                omega (arith, length-drop room out, p.0, p.1.1, pos),
              )
      ]

  fill-stopped :
      (rounds room : ℕ) (s : Bytes)
      → room ≤ rounds
      → Continues true (suc (4 * length s)) (unread false s) (fill broken rounds room true s)
  unfolding Continues ContinuesBy fill unread read_string remaining size
  fill-stopped zero room s le = (prefixed-nil _ ∙ prefixed-nil _, omega arith)
  fill-stopped (suc rounds) room s le = elim (Bool-cases (room == 0)) [
    | inl y ↦ rw (y, fill) (prefixed-nil _ ∙ prefixed-nil _, omega arith)
    | inr n ↦
        rw (n, fill)
          (weaken-ContinuesBy _ true (4 * length s) (suc (4 * length s)) (unread false s) _ _
            (omega arith)
            (fill_with-Continues (fill broken rounds) rounds room true s (next_unit broken s)
              (next_unit-Progress broken s) (ground (arith, n)) le (fill-stopped rounds) refl))
  ]

  fill-Continues :
      (rounds room : ℕ) (b : Bool) (s : Bytes)
      → 0 < room
      → room ≤ rounds
      → Continues b (4 * length s) (unread false s) (fill broken rounds room b s)
  unfolding Continues fill unread read_string
  fill-Continues zero room b s pos le = absurd (omega arith)
  fill-Continues (suc rounds) room b s pos le =
      rw (nonzero room pos, fill)
        (fill_with-Continues (fill broken rounds) rounds room b s (next_unit broken s)
          (next_unit-Progress broken s) pos le (fill-stopped rounds) refl)

  finished-ContinuesBy :
      (p s : Bytes)
      → ContinuesBy
          (if is_empty p then eof else more)
          false
          (length p + 4 * length s)
          (prefixed p (ok [] s))
          p
          (record { pending = []; finished = true; rest = s })
  unfolding ContinuesBy is_empty remaining unread prefixed size
  finished-ContinuesBy [] s = (refl, refl)
  finished-ContinuesBy (b ∷ p) s = (refl, omega arith)

  pending-Continues :
      (room : ℕ) (p s : Bytes)
      → length p < room
      → Continues false
          (length p + 4 * length s)
          (prefixed p (unread false s))
          (put p (fill broken room (room - length p) (not (is_empty p)) s))
  unfolding Continues put is_empty
  pending-Continues room [] s lt = rw (prefixed-nil (unread false s)) (
      weaken-ContinuesBy _ false (4 * length s) (0 + 4 * length s) (unread false s) _ _
        (omega arith) (fill-Continues room (room - 0) false s (omega (arith, lt)) (omega arith)))
  pending-Continues room (b ∷ p) s lt =
      put-ContinuesBy (b ∷ p) _ false (4 * length s) (length (b ∷ p) + 4 * length s)
        (unread false s) _ _ (omega arith)
        (fill-Continues room (room - length (b ∷ p)) true s (omega (arith, lt)) (omega arith))

  read_window-Continues :
      (room : ℕ) (p s : Bytes) (b : Bool)
      → 0 < room
      → Continues false
          (length p + 4 * length s)
          (prefixed p (unread b s))
          (read_window broken room (record { pending = p; finished = b; rest = s }))
  unfolding Continues read_window ContinuesBy remaining size unread
  read_window-Continues room p s b pos =
      rw (nonzero room pos, read_window)
        (elim (Bool-cases (leb room (length p))) [
          | inl y ↦
              rw (y, read_window)
                (
                  sym (prefixed-append (take room p) (drop room p) (unread b s))
                      ∙ ap (λ o. prefixed o (unread b s)) (take-append-drop room p),
                  omega (arith, length-drop room p, leb→le room (length p) y),
                )
          | inr n ↦ rw (n, read_window) (read_on b n)
        ])
    where
      read_on :
          (c : Bool)
          → leb room (length p) ≡ false
          → Continues false (length p + 4 * length s) (prefixed p (unread c s)) (
              if c
              then record {
                bytes = p;
                status = if is_empty p then eof else more;
                reader = record { pending = []; finished = c; rest = s };
              }
              else put p (fill broken room (room - length p) (not (is_empty p)) s))
      read_on true n = finished-ContinuesBy p s
      read_on false n = pending-Continues room p s (ground (arith, n))

  after_read-ContinuesBy :
      (next : StringReader → Outcome Bytes) (st : Status) (bound : ℕ) (whole : Outcome Bytes)
      (bytes : Bytes) (r : StringReader)
      → ContinuesBy st false bound whole bytes r
      → ((r' : StringReader) → size r' < bound → next r' ≡ remaining r')
      → after_read broken next bytes r st ≡ whole
  unfolding ContinuesBy after_read
  after_read-ContinuesBy next more bound whole bytes r h k = ap (prefixed bytes) (k r h.1) ∙ h.0
  after_read-ContinuesBy next eof bound whole bytes r h k = ap (λ t. ok t r.rest) h.0 ∙ sym h.1
  after_read-ContinuesBy next (error e) bound whole bytes r h k = sym h

  read_all-remaining :
      (rooms : ℕ → ℕ) (fuel : ℕ) (p s : Bytes) (b : Bool)
      → ((n : ℕ) → 0 < rooms n)
      → length p + 4 * length s < fuel
      → read_all broken rooms fuel (record { pending = p; finished = b; rest = s })
        ≡ prefixed p (unread b s)
  unfolding read_all Continues size remaining
  read_all-remaining rooms zero p s b pos lt = absurd (omega arith)
  read_all-remaining rooms (suc fuel) p s b pos lt =
      after_read-ContinuesBy _ _ (length p + 4 * length s) _ _ _
        (read_window-Continues (rooms fuel) p s b (pos fuel))
        λ r' lt'.
          read_all-remaining rooms fuel r'.pending r'.rest r'.finished pos (omega (arith, lt, lt'))

  -- Read through buffers of any sizes but 0, a string whose opening quote has been read gives the bytes
  -- that it gives in one piece and stops at the same place, or fails with the same error. Four reads
  -- for each byte of the body, and one more, are enough.
  pub read_all-read_string :
      (rooms : ℕ → ℕ) (s : Bytes)
      → ((n : ℕ) → 0 < rooms n)
      → read_all broken rooms
          (suc (4 * length s))
          (record { pending = []; finished = false; rest = s })
        ≡ read_string broken (suc (length s)) s
  unfolding unread
  read_all-read_string rooms s pos =
      read_all-remaining rooms (suc (4 * length s)) [] s false pos (omega arith) ∙ prefixed-nil _
