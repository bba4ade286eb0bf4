-- ===== src/Drain/Listing.antt =====
-- internal/store/agentjournal.go, listJournalRecords: the names come in order, oldest first.
use clipbeam_cli.Prelude.{
  ◌≡◌, refl, inl, inr, true, false, List, [], ◌∷◌, arith, Bool-cases, Bytes, ◌⊎◌, ◌↔◌, ◌≢◌, ◌++◌,
  ◌-◌, Bool, sym, ap, ◌∙◌, not, ◌||◌, length, take, drop, codes, bytes_eq_iff, bytes_eq_refl,
  take-append-drop, drop-length-append, length-append, le→leb, has_prefix, has_prefix-append,
}
use mathlib.Core.Path.{subst}
use clipbeam_cli.Go.Strings.{has_suffix}
use clipbeam_cli.Disk.{Disk, file, folder}
use clipbeam_cli.Drain.{name_le, insert_name, is_record_name, list_journal_records, taken_prefix}

name_le_total : (a b : Bytes) → name_le a b ≡ false → name_le b a ≡ true
unfolding name_le
name_le_total [] b h = cc
name_le_total (x ∷ a) [] h = refl
name_le_total (x ∷ a) (y ∷ b) h = ground (arith, name_le_total a b)

-- What may stand behind `m`.
abbrev pub Follows : Bytes → List Bytes → Type 0
Follows m [] = Unit
Follows m (n ∷ names) = name_le m n ≡ true

abbrev pub Sorted : List Bytes → Type 0
Sorted [] = Unit
Sorted (n ∷ names) = Follows n names × Sorted names

insert_name-Follows :
    (m n : Bytes) (names : List Bytes)
    → name_le m n ≡ true
    → Follows m names
    → Follows m (insert_name n names)
unfolding insert_name
insert_name-Follows m n [] h f = h
insert_name-Follows m n (k ∷ names) h f = elim (Bool-cases (name_le n k)) [
  | inl y ↦ rw y h
  | inr other ↦ rw other f
]

insert_name-Sorted : (n : Bytes) (names : List Bytes) → Sorted names → Sorted (insert_name n names)
unfolding insert_name
insert_name-Sorted n [] s = (tt, tt)
insert_name-Sorted n (m ∷ names) (f, s) = elim (Bool-cases (name_le n m)) [
  | inl y ↦ rw y (y, (f, s))
  | inr other ↦
      rw other
        (insert_name-Follows m n names (name_le_total n m other) f, insert_name-Sorted n names s)
]

-- A name stands in a list of names, and a file in a directory.
abbrev pub In : Bytes → List Bytes → Type 0
In n [] = ⊥
In n (m ∷ names) = (n ≡ m) ⊎ In n names

abbrev pub HasFile : Bytes → Disk → Type 0
HasFile n [] = ⊥
HasFile n ((m, folder) ∷ d) = HasFile n d
HasFile n ((m, file bytes) ∷ d) = (n ≡ m) ⊎ HasFile n d

-- An unclaimed record: a name that ends in `.json` and does not begin with `.taken-`.
pub record IsRecord (n : Bytes) : Type 0 where
  pub stem : Bytes
  pub ends : n ≡ stem ++ codes ".json"
  pub unclaimed : (rest : Bytes) → n ≢ codes ".taken-" ++ rest

prefix_rest : (p n : Bytes) → has_prefix n p ≡ true → (rest : Bytes) × (n ≡ p ++ rest)
unfolding has_prefix
prefix_rest [] n h = (n, refl)
prefix_rest (c ∷ p) [] h = absurd (cc)
prefix_rest (c ∷ p) (b ∷ n) h =
    let r = prefix_rest p n (ground (arith, h)) in
    let same : b ≡ c = ground (arith, h) in (r.0, rw (same, ← r.1) refl)

suffix_stem : (p n : Bytes) → has_suffix n p ≡ true → (stem : Bytes) × (n ≡ stem ++ p)
unfolding has_suffix
suffix_stem p n h =
    let same = (bytes_eq_iff (drop (length n - length p) n) p).0 (ground (arith, h)) in
    (
      take (length n - length p) n,
      sym (take-append-drop (length n - length p) n)
          ∙ ap (λ (t : Bytes). take (length n - length p) n ++ t) same,
    )

has_suffix-append : (stem p : Bytes) → has_suffix (stem ++ p) p ≡ true
unfolding has_suffix
has_suffix-append stem p =
    let at : length (stem ++ p) - length p ≡ length stem = omega (arith, length-append stem p) in
    rw
      (
        le→leb (length p) (length (stem ++ p)) (omega (arith, length-append stem p)),
        at,
        drop-length-append stem p,
        bytes_eq_refl p,
      )
      refl

both_tests : (a b : Bool) → not (a || not b) ≡ true → (a ≡ false) × (b ≡ true)
both_tests a b h = ground arith

pub is_record_name-IsRecord : (n : Bytes) → is_record_name n ≡ true → IsRecord n
unfolding is_record_name
is_record_name-IsRecord n h =
    let (p, s) = both_tests (has_prefix n taken_prefix) (has_suffix n (codes ".json")) h in
    let stem = suffix_stem (codes ".json") n s in
    record {
      stem = stem.0;
      ends = stem.1;
      unclaimed = λ rest e. cc (
          sym p
          ∙ (ap (λ (m : Bytes). has_prefix m taken_prefix) e
              ∙ has_prefix-append taken_prefix rest));
    }

IsRecord-is_record_name : (n : Bytes) → IsRecord n → is_record_name n ≡ true
unfolding is_record_name
IsRecord-is_record_name n r =
    let ends : has_suffix n (codes ".json") ≡ true =
      ap (λ (m : Bytes). has_suffix m (codes ".json")) r.ends
      ∙ has_suffix-append r.stem (codes ".json") in
    elim (Bool-cases (has_prefix n taken_prefix)) [
      | inl y ↦ (let p = prefix_rest taken_prefix n y in absurd (r.unclaimed p.0 p.1))
      | inr free ↦ rw (free, ends) refl
    ]

insert_name-In : (k n : Bytes) (names : List Bytes) → In k (insert_name n names) → In k (n ∷ names)
unfolding insert_name
insert_name-In k n [] h = h
insert_name-In k n (m ∷ names) h = elim (Bool-cases (name_le n m)) [
  | inl y ↦ rw y at h
  | inr other ↦
      (let h' : (k ≡ m) ⊎ In k (insert_name n names) = (rw other at h) in
        elim h' [
          | inl e ↦ inr (inl e)
          | inr i ↦ elim (insert_name-In k n names i) [ inl e ↦ inl e | inr j ↦ inr (inr j) ]
        ])
]

In-insert_name : (k n : Bytes) (names : List Bytes) → In k (n ∷ names) → In k (insert_name n names)
unfolding insert_name
In-insert_name k n [] h = h
In-insert_name k n (m ∷ names) h = elim (Bool-cases (name_le n m)) [
  | inl y ↦ rw y h
  | inr other ↦ rw other (elim h [
    | inl e ↦ inr (In-insert_name k n names (inl e))
    | inr (inl e) ↦ inl e
    | inr (inr i) ↦ inr (In-insert_name k n names (inr i))
  ])
]

listed-Sorted : (d : Disk) → Sorted (list_journal_records d)
unfolding list_journal_records
listed-Sorted [] = tt
listed-Sorted ((n, folder) ∷ d) = listed-Sorted d
listed-Sorted ((n, file bytes) ∷ d) = elim (Bool-cases (is_record_name n)) [
  | inl y ↦ rw y (insert_name-Sorted n (list_journal_records d) (listed-Sorted d))
  | inr other ↦ rw other (listed-Sorted d)
]

listed-file : (k : Bytes) (d : Disk) → In k (list_journal_records d) → IsRecord k × HasFile k d
unfolding list_journal_records
listed-file k [] h = absurd h
listed-file k ((n, folder) ∷ d) h = listed-file k d h
listed-file k ((n, file bytes) ∷ d) h = elim (Bool-cases (is_record_name n)) [
  | inl y ↦
      (let h' : In k (insert_name n (list_journal_records d)) = (rw y at h) in
        elim (insert_name-In k n (list_journal_records d) h') [
          | inl e ↦ (subst IsRecord (sym e) (is_record_name-IsRecord n y), inl e)
          | inr i ↦ (let l = listed-file k d i in (l.0, inr l.1))
        ])
  | inr other ↦
      (let h' : In k (list_journal_records d) = (rw other at h) in
        let l = listed-file k d h' in (l.0, inr l.1))
]

file-listed : (k : Bytes) (d : Disk) → IsRecord k → HasFile k d → In k (list_journal_records d)
unfolding list_journal_records
file-listed k [] r h = absurd h
file-listed k ((n, folder) ∷ d) r h = file-listed k d r h
file-listed k ((n, file bytes) ∷ d) r h = elim (Bool-cases (is_record_name n)) [
  | inl y ↦ rw y (
      In-insert_name k n (list_journal_records d)
        (elim h [ inl e ↦ inl e | inr i ↦ inr (file-listed k d r i) ]))
  | inr other ↦ rw other (elim h [
    | inl e ↦ absurd (cc (sym other ∙ (ap is_record_name (sym e) ∙ IsRecord-is_record_name k r)))
    | inr i ↦ file-listed k d r i
  ])
]

-- The listing of a journal directory is in byte order of the names, and a name stands in it exactly when
-- the directory has a file of that name, the name ends in `.json` and does not begin with `.taken-`:
-- no record is left out, and no claimed sidecar, other file or folder is listed.
pub list_journal_records-lists :
    (d : Disk)
    → Sorted (list_journal_records d)
      × ((n : Bytes) → In n (list_journal_records d) ↔ (IsRecord n × HasFile n d))
list_journal_records-lists d =
    (listed-Sorted d, λ n. (listed-file n d, λ p. file-listed n d p.0 p.1))
