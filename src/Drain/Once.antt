-- ===== src/Drain/Once.antt =====
-- internal/store/agentjournal.go under any interleaving of its writers and drainers: each step is one
-- rename, one reading, one removal or one record written.
use clipbeam_cli.Prelude.{
  ◌≡◌, refl, sym, ap, ◌∙◌, ◌≢◌, inl, inr, true, false, Option, none, some, List, [], ◌∷◌, ◌++◌,
  arith, All-map, All, Option-cases, Bytes, bytes_eq, bytes_eq_iff, bytes_eq_refl,
}
use mathlib.Core.Path.{subst}
use clipbeam_cli.Disk.{Disk, Node, find, put, remove, find-put, find-remove}
use clipbeam_cli.Receive.{AgentItem, Json}
use clipbeam_cli.Drain.{rename, read_item, is_record_name, taken_prefix}
use clipbeam_cli.Drain.Listing.{is_record_name-IsRecord}

-- What became of a record that a drainer renamed.
pub data Fate : Type 0 where
  unread : Fate
  handed : AgentItem → Fate
  dropped : Fate

unfoldable pub fate : Option AgentItem → Fate
fate none = dropped
fate (some item) = handed item

-- The directory, and the records renamed so far.
pub record Journal : Type 0 where
  pub disk : Disk
  pub taken : List (Bytes × Fate)

abbrev pub names : List (Bytes × Fate) → List Bytes
names [] = []
names ((n, x) ∷ taken) = n ∷ names taken

-- The path of a sidecar.
abbrev pub sidecar : Bytes → Bytes
sidecar name = taken_prefix ++ name

module _ (json : Json) where
  pub data Step : Journal → Journal → Type 0 where
    -- writeAgentJournal: its names have a time and a sequence number, and are used once.
    written :
        (s : Journal) (name : Bytes) (node : Node)
        → All (λ m. m ≢ name) (names s.taken)
        → Step s (record s { disk = put name node s.disk })
    -- A name from some listing, whenever that was made.
    renamed :
        (s : Journal) (name : Bytes) (d : Disk)
        → is_record_name name ≡ true
        → rename name (sidecar name) s.disk ≡ some d
        → Step s (record { disk = d; taken = (name, unread) ∷ s.taken })
    -- The drainer that renamed a record reads its sidecar.
    looked :
        (s : Journal) (name : Bytes) (before after : List (Bytes × Fate))
        → s.taken ≡ before ++ (name, unread) ∷ after
        → Step s (record s {
          taken = before ++ (name, fate (read_item json (find (sidecar name) s.disk))) ∷ after;
        })
    -- A sidecar, or any other entry, goes.
    cleared : (s : Journal) (path : Bytes) → Step s (record s { disk = remove path s.disk })

  pub data Reach (s : Journal) : Journal → Type 0 where
    here : Reach s s
    then_step : {t u : Journal} → Reach s t → Step t u → Reach s u

abbrev pub Unique : List Bytes → Type 0
Unique [] = Unit
Unique (n ∷ ns) = All (λ m. m ≢ n) ns × Unique ns

-- A record name that the directory does not have.
abbrev pub Gone : Disk → Bytes → Type 0
Gone d n = (is_record_name n ≡ true) × (find n d ≡ none)

-- No record was renamed twice, and none that was renamed is there.
pub record IsOnce (s : Journal) : Type 0 where
  pub unique : Unique (names s.taken)
  pub gone : All (Gone s.disk) (names s.taken)

record_ne : (name other : Bytes) → is_record_name name ≡ true → name ≢ sidecar other
record_ne name other h = (is_record_name-IsRecord name h).unclaimed other

different : (a b : Bytes) → a ≢ b → bytes_eq a b ≡ false
different a b ne = ground (arith, bytes_eq_iff a b, ne)

put-Gone : (p n : Bytes) (node : Node) (d : Disk) → n ≢ p → Gone d n → Gone (put p node d) n
put-Gone p n node d ne (r, g) = (r, find-put p n node d ∙ (rw (different p n (λ e. ne (sym e))) g))

remove-Gone : (p n : Bytes) (d : Disk) → Gone d n → Gone (remove p d) n
remove-Gone p n d (r, g) = (r, ground (arith, find-remove p n d, g))

written-Gone :
    (name : Bytes) (node : Node) (d : Disk) (ns : List Bytes)
    → All (λ m. m ≢ name) ns
    → All (Gone d) ns
    → All (Gone (put name node d)) ns
written-Gone name node d [] fresh h = tt
written-Gone name node d (n ∷ ns) (ne, fresh) (g, h) =
    (put-Gone name n node d ne g, written-Gone name node d ns fresh h)

-- A rename that succeeds: what stood under the old name stands under the new one alone.
rename-some :
    (old new : Bytes) (d e : Disk)
    → rename old new d ≡ some e
    → (node : Node) × (find old d ≡ some node) × (e ≡ put new node (remove old d))
unfolding rename
rename-some old new d e h = elim (Option-cases (find old d)) [
  | inl gone ↦ absurd (cc (rw (gone, rename) at h))
  | inr (node, there) ↦ (node, there, cc (rw (there, rename) at h))
]

renamed-Gone :
    (name n : Bytes) (node : Node) (d : Disk)
    → Gone d n
    → Gone (put (sidecar name) node (remove name d)) n
renamed-Gone name n node d g =
    put-Gone (sidecar name) n node (remove name d) (record_ne n name g.0) (remove-Gone name n d g)

name-Gone :
    (name : Bytes) (node : Node) (d : Disk)
    → is_record_name name ≡ true
    → Gone (put (sidecar name) node (remove name d)) name
name-Gone name node d r =
    put-Gone (sidecar name) name node (remove name d) (record_ne name name r)
      (r, find-remove name name d ∙ (rw (bytes_eq_refl name) refl))

found_not-Gone :
    (name n : Bytes) (node : Node) (d : Disk) → find name d ≡ some node → Gone d n → n ≢ name
found_not-Gone name n node d there (r, g) e = cc (sym g ∙ (ap (λ (m : Bytes). find m d) e ∙ there))

renamed-IsOnce :
    (s : Journal) (name : Bytes) (d : Disk)
    → is_record_name name ≡ true
    → rename name (sidecar name) s.disk ≡ some d
    → IsOnce s
    → IsOnce (record { disk = d; taken = (name, unread) ∷ s.taken })
renamed-IsOnce s name d r h o =
    let (node, there, eq) = rename-some name (sidecar name) s.disk d h in
    rw eq (record {
      unique = (
        All-map (λ n g. found_not-Gone name n node s.disk there g) (names s.taken) o.gone,
        o.unique,
      );
      gone = (
        name-Gone name node s.disk r,
        All-map (λ n g. renamed-Gone name n node s.disk g) (names s.taken) o.gone,
      );
    })

names-same :
    (before : List (Bytes × Fate)) (name : Bytes) (x y : Fate) (after : List (Bytes × Fate))
    → names (before ++ (name, x) ∷ after) ≡ names (before ++ (name, y) ∷ after)
names-same [] name x y after = refl
names-same ((n, z) ∷ before) name x y after =
    ap (λ (ns : List Bytes). n ∷ ns) (names-same before name x y after)

module _ (json : Json) where
  Step-IsOnce : {s t : Journal} → Step json s t → IsOnce s → IsOnce t
  Step-IsOnce (written s name node fresh) o = record {
    unique = o.unique;
    gone = written-Gone name node s.disk (names s.taken) fresh o.gone;
  }
  Step-IsOnce (renamed s name d r h) o = renamed-IsOnce s name d r h o
  Step-IsOnce (looked s name before after eq) o =
      let same : names s.taken
          ≡ names (before ++ (name, fate (read_item json (find (sidecar name) s.disk))) ∷ after) =
        ap names eq
        ∙ names-same before name unread (fate (read_item json (find (sidecar name) s.disk)))
            after in
      record { unique = subst Unique same o.unique; gone = subst (All (Gone s.disk)) same o.gone }
  Step-IsOnce (cleared s path) o = record {
    unique = o.unique;
    gone = All-map (λ n g. remove-Gone path n s.disk g) (names s.taken) o.gone;
  }

  -- From a directory that no drainer has touched, however the renames, readings and removals of any
  -- number of drainers, the removals of others and the records written under new names interleave: the
  -- records that were renamed, and so those handed out, have different names, each a record name
  -- that the directory does not have any more. No record is handed out twice.
  pub Reach-IsOnce :
      (d : Disk) {s : Journal} → Reach json (record { disk = d; taken = [] }) s → IsOnce s
  Reach-IsOnce d here = record { unique = tt; gone = tt }
  Reach-IsOnce d (then_step r st) = Step-IsOnce st (Reach-IsOnce d r)
