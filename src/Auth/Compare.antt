-- ===== src/Auth/Compare.antt =====
-- internal/auth/auth.go: the comparison of tokens decides their equality.
use clipbeam_cli.Prelude.{
  ℕ, ◌≡◌, refl, sym, ap, ◌∙◌, ◌↔◌, inl, inr, Bool, true, false, not, ◌&&◌, Option, none, some, [],
  ◌∷◌, arith, ◌==◌, if◌then◌else◌, ==_iff, Bool-cases, length, Bytes, bytes_eq, bytes_eq_iff,
}
use clipbeam_cli.Auth.{fold_diff, constant_time_equals}

fold_diff_stays : (pres exp : Bytes) → fold_diff true pres exp ≡ true
unfolding fold_diff
fold_diff_stays [] [] = refl
fold_diff_stays (x ∷ pres) [] = fold_diff_stays pres []
fold_diff_stays [] (y ∷ exp) = fold_diff_stays [] exp
fold_diff_stays (x ∷ pres) (y ∷ exp) = fold_diff_stays pres exp

-- On strings of one length the loop finds the inequality.
fold_diff_equal :
    (pres exp : Bytes)
    → length pres ≡ length exp
    → not (fold_diff false pres exp) ≡ bytes_eq pres exp
unfolding fold_diff bytes_eq
fold_diff_equal [] [] h = refl
fold_diff_equal (x ∷ pres) [] h = absurd (omega arith)
fold_diff_equal [] (y ∷ exp) h = absurd (omega arith)
fold_diff_equal (x ∷ pres) (y ∷ exp) h = elim (Bool-cases (x == y)) [
  | inl same ↦ rw same (fold_diff_equal pres exp (omega arith))
  | inr other ↦ rw (other, fold_diff_stays pres exp) refl
]

-- What crypto/subtle documents: on slices of one length, 1 for equal contents and 0 otherwise.
abbrev pub ComparesContents : (Bytes → Bytes → ℕ) → Type 0
ComparesContents compare =
    (a b : Bytes) → length a ≡ length b → compare a b ≡ (if bytes_eq a b then 1 else 0)

lengths_differ :
    (pres exp : Bytes) → (length pres == length exp) ≡ false → bytes_eq pres exp ≡ false
lengths_differ pres exp other = elim (Bool-cases (bytes_eq pres exp)) [
  | inr n ↦ n
  | inl y ↦ absurd (ground (arith, ap length ((bytes_eq_iff pres exp).0 y)))
]

agrees : (b : Bool) → ((if b then 1 else 0) == 1 && b) ≡ b
agrees true = refl
agrees false = refl

same_bytes :
    (compare : Bytes → Bytes → ℕ)
    → ComparesContents compare
    → (pres exp : Bytes) → constant_time_equals compare (some pres) exp ≡ bytes_eq pres exp
unfolding constant_time_equals
same_bytes compare documented pres exp = elim (Bool-cases (length pres == length exp)) [
  | inl same ↦
      rw
        (
          same,
          documented pres exp ((==_iff (length pres) (length exp)).0 same),
          fold_diff_equal pres exp ((==_iff (length pres) (length exp)).0 same),
        )
        (agrees (bytes_eq pres exp))
  | inr other ↦ rw (other, fold_diff_stays pres exp, lengths_differ pres exp other) refl
]

some_same : (a b : Bytes) → some a ≡ some b → a ≡ b
some_same a b h = cc

-- ConstantTimeEquals accepts a presented token exactly when it is there and is the expected one,
-- whatever the two lengths are, when ConstantTimeCompare tells equal from unequal contents.
pub constant_time_equals_iff :
    (compare : Bytes → Bytes → ℕ)
    → ComparesContents compare
    → (presented : Option Bytes) (exp : Bytes)
    → (constant_time_equals compare presented exp ≡ true) ↔ (presented ≡ some exp)
unfolding constant_time_equals
constant_time_equals_iff compare documented none exp = (λ accepted. cc, λ same. cc)
constant_time_equals_iff compare documented (some pres) exp = (
  λ accepted.
      ap some ((bytes_eq_iff pres exp).0 (sym (same_bytes compare documented pres exp) ∙ accepted)),
  λ same.
      same_bytes compare documented pres exp ∙ (bytes_eq_iff pres exp).1 (some_same pres exp same),
)
