-- ===== src/Drain.antt =====
-- internal/store/agentjournal.go, the drain side. The journal directory is a `Disk` whose paths are
-- the names of its entries. The listing that a drainer walks may be older than the directory: both
-- are arguments. Once has the rename, the reading and the removal of any number of drainers as the
-- steps of a relation.
pub mod Once
pub mod Listing
mod Tests
use clipbeam_cli.Prelude.{
  ℕ, zero, suc, ◌+◌, ◌-◌, ◌*◌, ◌/◌, ◌%◌, ◌^◌, ◌≤◌, ◌<◌, ◌≡◌, refl, sym, ap, ◌∙◌, ◌≢◌, ◌↔◌, ◌⊎◌, inl,
  inr, Bool, true, false, not, ◌&&◌, ◌||◌, Option, none, some, List, [], ◌∷◌, ◌++◌, map,
  append_assoc, append-nil, arith, ltb, leb, ◌==◌, if◌then◌else◌, between, ==_iff, lt→ltb, ltb→lt,
  ltb→le, leb→le, leb→lt, le→leb, lt→leb-false, le→ltb-false, All-left, All-right, All-map,
  Bool-cases, Option-cases, length, replicate, take, drop, All, last, get_or, length-append,
  length-take, length-drop, take-append-drop, take-length-append, drop-length-append, All-append,
  All-take, All-drop, Bytes, codes, bytes_eq, bytes_eq_refl, bytes_eq_iff, has_prefix,
  has_prefix-append,
}
use mathlib.Core.Option
use clipbeam_cli.Go.Strings.{is_empty, has_suffix}
use clipbeam_cli.Disk.{Disk, Node, file, folder, find, put, remove}
use clipbeam_cli.Receive.{AgentItem, JournalRecord, Json}

abbrev pub taken_prefix : Bytes
taken_prefix = codes ".taken-"

unfoldable pub record_to_agent_item : JournalRecord → AgentItem
unfolding is_empty
record_to_agent_item rec = record {
  kind = rec.kind;
  sender = rec.sender;
  path = if is_empty rec.path then none else some rec.path;
  text = if rec.has_text then some rec.text else none;
}

-- Byte order of names, as sort.Strings has it.
pub name_le : Bytes → Bytes → Bool
name_le [] b = true
name_le (x ∷ a) [] = false
name_le (x ∷ a) (y ∷ b) = if ltb x y then true else if x == y then name_le a b else false

pub insert_name : Bytes → List Bytes → List Bytes
insert_name n [] = n ∷ []
insert_name n (m ∷ names) =
    let rest = insert_name n names in if name_le n m then n ∷ (m ∷ names) else m ∷ rest

pub is_record_name : Bytes → Bool
unfolding has_prefix has_suffix
is_record_name n = not (has_prefix n taken_prefix || not (has_suffix n (codes ".json")))

pub list_journal_records : Disk → List Bytes
list_journal_records [] = []
list_journal_records ((n, folder) ∷ d) = list_journal_records d
list_journal_records ((n, file bytes) ∷ d) =
    let rest = list_journal_records d in if is_record_name n then insert_name n rest else rest

-- os.Rename, which fails where nothing stands under the old name, and replaces what stands under the
-- new one.
unfoldable pub rename : Bytes → Bytes → Disk → Option Disk
rename old new d = elim (find old d) [
  | none ↦ none
  | some node ↦ some (put new node (remove old d))
]

module _ (json : Json) where
  -- What a sidecar is read to: `none` drops the record. A folder, or nothing, cannot be read.
  pub read_item : Option Node → Option AgentItem
  read_item (some (file bytes)) = Option.map record_to_agent_item (json.decode_record bytes)
  read_item (some folder) = none
  read_item none = none

  -- A renamed record: it is read, and its sidecar is removed in every case.
  pub read_claimed : Bytes → Disk → Option AgentItem × Disk
  unfolding read_item
  read_claimed claimed d = (read_item (find claimed d), remove claimed d)

  -- What follows the rename. `false` is a Rename that failed, which leaves the directory alone.
  claim_renamed : Bytes → Disk → Option Disk → Option AgentItem × (Bool × Disk)
  claim_renamed claimed d none = (none, (false, d))
  claim_renamed claimed d (some d') = let out = read_claimed claimed d' in (out.0, (true, out.1))

  -- One name of the listing.
  pub claim_one : Bytes → Disk → Option AgentItem × (Bool × Disk)
  unfolding claim_renamed read_claimed rename
  claim_one name d = claim_renamed (taken_prefix ++ name) d (rename name (taken_prefix ++ name) d)

  pub or_later :
      Option AgentItem × (Bool × Disk) → Option AgentItem × Disk → Option AgentItem × Disk
  or_later (some item, (renamed, d)) later = (some item, d)
  or_later (none, claimed) later = later

  -- One walk over a listing; the result `none` makes the caller list the directory again.
  pub walk : List Bytes → Disk → Option AgentItem × Disk
  walk [] d = (none, d)
  walk (name ∷ names) d = let out = claim_one name d in or_later out (walk names out.1.1)
