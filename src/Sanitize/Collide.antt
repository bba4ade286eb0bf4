-- ===== src/Sanitize/Collide.antt =====
-- CollisionName of internal/sanitize/sanitize.go: candidates with different numbers differ.
use clipbeam_cli.Prelude.{
  ℕ, zero, suc, ◌+◌, ◌/◌, ◌%◌, ◌^◌, ◌<◌, ◌≡◌, sym, ◌∙◌, ◌≢◌, inl, inr, false, [], ◌∷◌, ◌++◌,
  append_assoc, arith, ◌==◌, if◌then◌else◌, All-map, Bool-cases, All, All-append, Bytes, codes,
}
use mathlib.Core.List.{append_cancel_left, append_cancel_right}
use clipbeam_cli.Go.Strings.{is_empty}
use clipbeam_cli.Sanitize.{itoa, path_extension, deleting_path_extension, collision_name}
use clipbeam_cli.Go.FilePath.{slash}
use clipbeam_cli.Go.Paths.{IsElement}
use clipbeam_cli.Sanitize.Names.{IsNameByte, IsNameByte-ne-slash}
use clipbeam_cli.Sanitize.Cap.{IsSafeName, name-Parts, Leads-append}
use clipbeam_cli.Sanitize.Contain.{Leads-IsElement}
use clipbeam_cli.Sanitize.{itoa_loop, dot_ext}
use clipbeam_cli.Sanitize.Decimal.{itoa-injective}

-- What follows the number: the closing bracket and the dotted extension.
after_number : Bytes → Bytes
after_number leaf =
    if is_empty (path_extension leaf) then codes ")" else codes ")." ++ path_extension leaf

collision_name-parts :
    (leaf : Bytes) (n : ℕ)
    → collision_name leaf n
      ≡ deleting_path_extension leaf ++ (codes " (" ++ (itoa n ++ after_number leaf))
unfolding collision_name after_number
collision_name-parts leaf n = elim (Bool-cases (is_empty (path_extension leaf))) [
  | inl y ↦ rw y (simp append_assoc)
  | inr m ↦ rw m (simp append_assoc)
]

-- The n-th and the m-th candidate for one leaf are the same name only if n is m (numbers of 20
-- digits at most, more than an int of the source holds).
pub collision_name-injective :
    (leaf : Bytes) (n m : ℕ)
    → n < 10 ^ 20
    → m < 10 ^ 20
    → collision_name leaf n ≡ collision_name leaf m
    → n ≡ m
collision_name-injective leaf n m hn hm e = itoa-injective n m hn hm (
    append_cancel_right (itoa n) (itoa m) (after_number leaf) (
      append_cancel_left (codes " (") _ _ (
        append_cancel_left (deleting_path_extension leaf) _ _
          (sym (collision_name-parts leaf n) ∙ e ∙ collision_name-parts leaf m))))

itoa_loop-plain :
    (room n : ℕ) (out : Bytes)
    → All (λ c. c ≢ slash) out
    → All (λ c. c ≢ slash) (itoa_loop room n out)
unfolding itoa_loop
itoa_loop-plain zero n out h = h
itoa_loop-plain (suc room) n out h = elim (Bool-cases (n == 0)) [
  | inl y ↦ rw y h
  | inr m ↦ rw m (itoa_loop-plain room (n / 10) ((b'0' + n % 10) ∷ out) (omega arith, h))
]

itoa-plain : (n : ℕ) → All (λ c. c ≢ slash) (itoa n)
unfolding itoa
itoa-plain n = elim (Bool-cases (n == 0)) [
  | inl y ↦ rw y (omega arith)
  | inr m ↦ rw m (itoa_loop-plain 20 n [] tt)
]

module _ (leaf : Bytes) (safe : IsSafeName leaf) where
  extension-plain :
      is_empty (path_extension leaf) ≡ false
      → All (λ c. c ≢ slash) (codes ")." ++ path_extension leaf)
  unfolding dot_ext
  extension-plain m =
      let dotted : All IsNameByte (dot_ext (path_extension leaf)) = (name-Parts leaf safe).1 in
      (omega arith, All-map IsNameByte-ne-slash (b'.' ∷ path_extension leaf) (rw m at dotted))

  after_number-plain : All (λ c. c ≢ slash) (after_number leaf)
  unfolding after_number
  after_number-plain = elim (Bool-cases (is_empty (path_extension leaf))) [
    | inl y ↦ rw y (omega arith)
    | inr m ↦ rw m (extension-plain m)
  ]

  -- A candidate for a safe leaf is again a name that stands for itself in a path.
  pub collision_name-IsElement : (n : ℕ) → IsElement (collision_name leaf n)
  collision_name-IsElement n =
      let stem : IsSafeName (deleting_path_extension leaf) = (name-Parts leaf safe).0 in
      rw (collision_name-parts leaf n) (
        Leads-IsElement _ (Leads-append (deleting_path_extension leaf) _ stem.leads) (
          All-append (λ c. c ≢ slash) (deleting_path_extension leaf) _
            (All-map IsNameByte-ne-slash (deleting_path_extension leaf) stem.chars)
            (All-append (λ c. c ≢ slash) (codes " (") (itoa n ++ after_number leaf) (omega arith)
              (All-append (λ c. c ≢ slash) (itoa n) (after_number leaf) (itoa-plain n)
                after_number-plain))))
