-- ===== src/Cli/RecvParse.antt =====
-- cmd/clipbeam/cli/recvparse.go: reading a body of /recv, and the correlation token of a text.
pub mod RoundTrip
pub mod Ends
use clipbeam_cli.Prelude.{
  ℕ, zero, suc, Bool, true, false, Option, none, some, [], ◌∷◌, ◌++◌, ◌==◌, if◌then◌else◌, length,
  drop, Bytes, codes, bytes_eq, has_prefix,
}
use clipbeam_cli.Go.Cut.{cut}
use clipbeam_cli.Go.Strings.{is_empty}

pub record RecvItem : Type 0 where
  pub kind : Bytes
  pub sender : Bytes
  pub path : Bytes
  pub text : Bytes
  pub has_text : Bool
  pub cid : Bytes

abbrev pub no_item : RecvItem
no_item = record { kind = []; sender = []; path = []; text = []; has_text = false; cid = [] }

-- A line and what follows its end.
pub line_of : Bytes → Option (Bytes × Bytes) → Bytes × Bytes
line_of rest none = (rest, [])
line_of rest (some found) = found

pub next_line : Bytes → Bytes × Bytes
unfolding line_of
next_line rest = line_of rest (cut 10 rest)

pub drop_space : Bytes → Bytes
drop_space [] = []
drop_space (c ∷ s) = if c == b' ' then s else c ∷ s

pub labeled : Bytes → Option (Bytes × Bytes) → Bytes × Bytes
labeled line none = ([], line)
labeled line (some (label, value)) = (label, drop_space value)

pub split_first_colon : Bytes → Bytes × Bytes
unfolding labeled drop_space
split_first_colon line = labeled line (cut b':' line)

-- The value of a text: its first line, with the rest of the body behind it.
pub text_value : Bytes → Bytes → Bytes
text_value value [] = value
text_value value (c ∷ rest) = value ++ (10 ∷ (c ∷ rest))

-- One line of the loop: the item so far, and what is left.
pub assign : RecvItem → Bytes → Bytes → Bytes → RecvItem × Bytes
unfolding text_value
assign it label value rest =
    if bytes_eq label (codes "type")
    then (record it { kind = value }, rest)
    else if bytes_eq label (codes "sender")
    then (record it { sender = value }, rest)
    else if bytes_eq label (codes "path")
    then (record it { path = value }, rest)
    else if bytes_eq label (codes "text")
    then (record it { has_text = true; text = text_value value rest }, [])
    else (it, rest)

pub read_line : RecvItem → Bytes → RecvItem × Bytes
read_line it rest =
    let (line, more) = next_line rest in
    let (label, value) = split_first_colon line in assign it label value more

abbrev pub cid_open : Bytes
cid_open = codes "[clipbeam:cid="

abbrev pub cid_close : ℕ
cid_close = b']'

-- The text without the token, and the token.
pub without_token : Bytes → Option (Bytes × Bytes) → Bytes × Bytes
without_token text none = (text, [])
without_token text (some (before, after)) = (drop_space after, drop (length cid_open) before)

pub extract_cid : Bytes → Bytes × Bytes
unfolding without_token drop_space
extract_cid text =
    if has_prefix text cid_open then without_token text (cut cid_close text) else (text, [])

pub prepend_cid : Bytes → Bytes → Bytes
prepend_cid cid text = cid_open ++ (cid ++ (cid_close ∷ (b' ' ∷ text)))

pub with_cid : RecvItem → RecvItem
with_cid it =
    let (text, cid) = extract_cid it.text in
    if it.has_text then record it { text = text; cid = cid } else it

-- The loop; `none` is a run that needs more rounds.
pub parse_loop : ℕ → RecvItem → Bytes → Option RecvItem
parse_loop zero it rest = none
parse_loop (suc fuel) it rest =
    let (it', more) = read_line it rest in
    let later = parse_loop fuel it' more in if is_empty more then some (with_cid it') else later

pub parse_recv_body : Bytes → Option RecvItem
parse_recv_body body = parse_loop (suc (length body)) no_item body
