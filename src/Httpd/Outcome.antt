-- ===== src/Httpd/Outcome.antt =====
-- The errors of internal/httpd/clip.go and internal/httpd/jsonstream.go, and what a function that
-- reads the body returns: a value with the bytes left, or an error. The body ends with `broken`: `none`
-- is io.EOF, and an error is what the connection or http.MaxBytesReader gives instead.
use clipbeam_cli.Prelude.{
  ℕ, ◌≤◌, ◌<◌, Bool, true, false, Option, none, some, arith, if◌then◌else◌, length, Bytes,
}
use clipbeam_cli.Ingest.{IngestError}

pub data ClipError : Type 0 where
  malformed : ClipError
  unsupported_envelope : ClipError
  incomplete_body : ClipError
  bad_json_string : ClipError
  -- *http.MaxBytesError
  over_ceiling : ClipError
  io_error : ℕ → ClipError
  -- io.ErrUnexpectedEOF of the base64 decoder
  unexpected_eof : ClipError
  ingest_error : IngestError → ClipError

pub data Outcome {ℓ} (A : Type ℓ) : Type ℓ where
  ok : A → Bytes → Outcome A
  err : ClipError → Outcome A
  -- The rounds of a loop of the model were not enough.
  spent : Outcome A

infixl 5 ◌>>=◌
abbrev pub ◌>>=◌ {ℓ κ} : {A : Type ℓ} {B : Type κ} → Outcome A → (A × Bytes → Outcome B) → Outcome B
ok a s >>= f = f (a, s)
err e >>= f = err e
spent >>= f = spent

-- An error of ReadByte that is handed on, where io.EOF has become `at_eof`.
abbrev pub ending : ClipError → Option ClipError → ClipError
ending at_eof none = at_eof
ending at_eof (some e) = e

-- An error, or a value with less than `n` bytes left.
abbrev pub Within {ℓ} : {A : Type ℓ} → ℕ → Outcome A → Type 0
Within n (ok a rest) = length rest < n
Within n (err e) = Unit
Within n spent = ⊥

pub Within-bind {ℓ κ} :
    {A : Type ℓ} {B : Type κ} (n m : ℕ) (o : Outcome A) (f : A × Bytes → Outcome B)
    → Within n o
    → ((a : A) (rest : Bytes) → length rest < n → Within m (f (a, rest)))
    → Within m (o >>= f)
Within-bind n m (ok a rest) f h k = k a rest h
Within-bind n m (err e) f h k = tt
Within-bind n m spent f h k = h

pub Within-weaken {ℓ} : {A : Type ℓ} (n m : ℕ) (o : Outcome A) → n ≤ m → Within n o → Within m o
Within-weaken n m (ok a rest) le h = omega (arith, le, h)
Within-weaken n m (err e) le h = tt
Within-weaken n m spent le h = h

pub Within-if {ℓ} :
    {A : Type ℓ} (n : ℕ) (b : Bool) (x y : Outcome A)
    → Within n x
    → Within n y
    → Within n (if b then x else y)
Within-if n true x y h k = h
Within-if n false x y h k = k
