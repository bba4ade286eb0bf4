-- ===== src/Drain/Tests.antt =====
-- The drain at a concrete directory.
use clipbeam_cli.Prelude.{
  ◌≡◌, refl, true, none, some, List, [], ◌∷◌, if◌then◌else◌, ◌↔◌, Bytes, codes, bytes_eq,
}
use clipbeam_cli.Disk.{Disk, file, find, put, remove}
use clipbeam_cli.Receive.{AgentItem, Json}
use clipbeam_cli.Drain.{
  record_to_agent_item, claim_one, claim_renamed, or_later, read_claimed, read_item, rename, walk,
  list_journal_records, name_le, insert_name, is_record_name,
}
use clipbeam_cli.Drain.Listing.{Sorted, In, IsRecord, HasFile, list_journal_records-lists}
use clipbeam_cli.Drain.Once.{
  Journal, unread, handed, fate, sidecar, renamed, looked, Reach, here, then_step, IsOnce,
  Reach-IsOnce,
}

-- A record file that holds the text alone.
abbrev text_json : Json
text_json = record {
  encode_recents = λ rs. [];
  decode_recents = λ bytes. none;
  encode_record = λ r. r.text;
  decode_record = λ bytes.
      if bytes_eq bytes []
      then none
      else some
          (record { kind = codes "text"; sender = []; path = []; has_text = true; text = bytes });
}

-- An empty file, which does not decode, and two records.
abbrev journal : Disk
journal =
    (codes "2.json", file (codes "two"))
    ∷ ((codes "0.json", file []) ∷ ((codes "1.json", file (codes "one")) ∷ []))

abbrev text_item : Bytes → AgentItem
text_item text = record { kind = codes "text"; sender = []; path = none; text = some text }

listing : list_journal_records journal ≡ codes "0.json" ∷ (codes "1.json" ∷ (codes "2.json" ∷ []))
unfolding list_journal_records name_le insert_name is_record_name
listing = refl

abbrev names : List Bytes
names = codes "0.json" ∷ (codes "1.json" ∷ (codes "2.json" ∷ []))

abbrev left : Disk
left = (codes "2.json", file (codes "two")) ∷ []

first_walk : walk text_json names journal ≡ (some (text_item (codes "one")), left)
unfolding walk claim_one claim_renamed or_later read_claimed read_item rename record_to_agent_item
    find put remove bytes_eq
first_walk = refl

second_walk : walk text_json names left ≡ (some (text_item (codes "two")), [])
unfolding walk claim_one claim_renamed or_later read_claimed read_item rename record_to_agent_item
    find put remove bytes_eq
second_walk = refl

-- A drainer renames a record, another one renames the next, and the first reads its sidecar.
abbrev first_renamed : Disk
first_renamed =
    (codes "2.json", file (codes "two"))
    ∷ ((codes "0.json", file []) ∷ ((codes ".taken-1.json", file (codes "one")) ∷ []))

abbrev both_renamed : Disk
both_renamed =
    (codes "0.json", file [])
    ∷ ((codes ".taken-1.json", file (codes "one"))
        ∷ ((codes ".taken-2.json", file (codes "two")) ∷ []))

abbrev two_drainers : Journal
two_drainers = record {
  disk = both_renamed;
  taken = (codes "2.json", unread) ∷ ((codes "1.json", handed (text_item (codes "one"))) ∷ []);
}

one_is : is_record_name (codes "1.json") ≡ true
unfolding is_record_name
one_is = refl

two_is : is_record_name (codes "2.json") ≡ true
unfolding is_record_name
two_is = refl

one_moves : rename (codes "1.json") (sidecar (codes "1.json")) journal ≡ some first_renamed
unfolding rename find put remove bytes_eq
one_moves = refl

two_moves : rename (codes "2.json") (sidecar (codes "2.json")) first_renamed ≡ some both_renamed
unfolding rename find put remove bytes_eq
two_moves = refl

run : Reach text_json (record { disk = journal; taken = [] }) two_drainers
unfolding read_item find bytes_eq record_to_agent_item fate
run =
    then_step
      (then_step
        (then_step here (
          renamed (record { disk = journal; taken = [] }) (codes "1.json") first_renamed one_is
            one_moves))
        (renamed (record { disk = first_renamed; taken = (codes "1.json", unread) ∷ [] })
          (codes "2.json") both_renamed two_is two_moves))
      (looked
        (record {
          disk = both_renamed;
          taken = (codes "2.json", unread) ∷ ((codes "1.json", unread) ∷ []);
        })
        (codes "1.json") ((codes "2.json", unread) ∷ []) [] refl)

Reach-IsOnce_example : IsOnce two_drainers
Reach-IsOnce_example = Reach-IsOnce text_json journal run

list_journal_records-lists_example :
    Sorted (list_journal_records journal)
    × ((n : Bytes) → In n (list_journal_records journal) ↔ (IsRecord n × HasFile n journal))
list_journal_records-lists_example = list_journal_records-lists journal
