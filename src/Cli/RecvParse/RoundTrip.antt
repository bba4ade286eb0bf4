-- ===== src/Cli/RecvParse/RoundTrip.antt =====
-- cmd/clipbeam/cli/recvparse.go on the bodies of internal/httpd/response.go.
use clipbeam_cli.Prelude.{
  ℕ, suc, ◌≡◌, refl, sym, ap, ◌∙◌, ◌≢◌, inl, inr, Bool, true, false, Option, none, some, [], ◌∷◌,
  ◌++◌, append-nil, arith, Option-cases, length, drop, All, All-append, Bytes, codes, bytes_eq,
  has_prefix, has_prefix-append,
}
use clipbeam_cli.Go.Cut.{cut-none-All, cut-splits, cut, cut-append, cut-none}
use clipbeam_cli.Go.Strings.{is_empty}
use clipbeam_cli.Receive.{AgentItem}
use clipbeam_cli.Httpd.Response.{recv_body_string, optional_line}
use clipbeam_cli.Cli.RecvParse.{
  RecvItem, line_of, next_line, labeled, split_first_colon, drop_space, text_value, assign,
  read_line, with_cid, parse_loop, no_item, cid_open, cid_close, prepend_cid, without_token,
  extract_cid, parse_recv_body,
}

-- A text of one line: it holds no newline.
abbrev pub OneLine : Bytes → Type 0
OneLine = All (λ c. c ≢ 10)

next_line-append : (s rest : Bytes) → OneLine s → next_line (s ++ 10 ∷ rest) ≡ (s, rest)
unfolding next_line line_of
next_line-append s rest h = rw (cut-append 10 s rest h) refl

next_line-last : (s : Bytes) → OneLine s → next_line s ≡ (s, [])
unfolding next_line line_of
next_line-last s h = rw (cut-none 10 s h) refl

-- A labelled value, for a label without a colon.
split_first_colon-label :
    (label value : Bytes)
    → All (λ c. c ≢ b':') label
    → split_first_colon (label ++ (b':' ∷ (b' ' ∷ value))) ≡ (label, value)
unfolding split_first_colon labeled drop_space
split_first_colon-label label value h = rw (cut-append b':' label (b' ' ∷ value) h) refl

OneLine-label :
    (label value : Bytes)
    → OneLine label
    → OneLine value
    → OneLine (label ++ (b':' ∷ (b' ' ∷ value)))
OneLine-label label value h k =
    All-append (λ c. c ≢ 10) label (b':' ∷ (b' ' ∷ value)) h (omega arith, (omega arith, k))

read_line-label :
    (it : RecvItem) (label value rest : Bytes)
    → All (λ c. c ≢ b':') label
    → OneLine label
    → OneLine value
    → read_line it ((label ++ (b':' ∷ (b' ' ∷ value))) ++ 10 ∷ rest) ≡ assign it label value rest
unfolding read_line
read_line-label it label value rest h k v =
    rw
      (
        next_line-append (label ++ (b':' ∷ (b' ' ∷ value))) rest (OneLine-label label value k v),
        split_first_colon-label label value h,
      )
      refl

read_line-last :
    (it : RecvItem) (label value : Bytes)
    → All (λ c. c ≢ b':') label
    → OneLine label
    → OneLine value
    → read_line it (label ++ (b':' ∷ (b' ' ∷ value))) ≡ assign it label value []
unfolding read_line
read_line-last it label value h k v =
    rw
      (
        next_line-last (label ++ (b':' ∷ (b' ' ∷ value))) (OneLine-label label value k v),
        split_first_colon-label label value h,
      )
      refl

-- One round that leaves something, and one that leaves nothing.
parse_loop-more :
    (fuel : ℕ) (it it' : RecvItem) (rest more : Bytes)
    → read_line it rest ≡ (it', more)
    → is_empty more ≡ false
    → parse_loop (suc fuel) it rest ≡ parse_loop fuel it' more
unfolding parse_loop
parse_loop-more fuel it it' rest more h e = rw (h, e) refl

parse_loop-done :
    (fuel : ℕ) (it it' : RecvItem) (rest : Bytes)
    → read_line it rest ≡ (it', [])
    → parse_loop (suc fuel) it rest ≡ some (with_cid it')
unfolding parse_loop is_empty
parse_loop-done fuel it it' rest h = rw h refl

-- The text does not end in the one newline that it holds.
abbrev pub KeepsEnd : Bytes → Type 0
KeepsEnd text = (line : Bytes) → OneLine line → text ≢ line ++ 10 ∷ []

text_value_whole :
    (text before after : Bytes)
    → KeepsEnd text
    → cut 10 text ≡ some (before, after)
    → text_value before after ≡ text
unfolding text_value
text_value_whole text before [] keeps h =
    (let parts = cut-splits 10 text before [] h in absurd (keeps before parts.1 parts.0))
text_value_whole text before (c ∷ after) keeps h = sym (cut-splits 10 text before (c ∷ after) h).0

abbrev text_label : Bytes
text_label = codes "text: "

with_text : RecvItem → Bytes → RecvItem
with_text it text = record it { has_text = true; text = text }

read_line-text :
    (it : RecvItem) (text : Bytes)
    → KeepsEnd text
    → read_line it (text_label ++ text) ≡ (with_text it text, [])
unfolding with_text assign bytes_eq
read_line-text it text keeps = elim (Option-cases (cut 10 text)) [
  | inl one ↦
      read_line-last it (codes "text") text (omega arith) (omega arith) (cut-none-All 10 text one)
  | inr ((before, after), found) ↦
      (let parts = cut-splits 10 text before after found in
        rw (parts.0) (
          read_line-label it (codes "text") before after (omega arith) (omega arith) parts.1
          ∙ ap (λ (t : Bytes). (with_text it t, []))
              (text_value_whole text before after keeps found ∙ parts.0)))
]

pub is_some : Option Bytes → Bool
is_some none = false
is_some (some s) = true

-- The path line, if there is one, and then the text.
abbrev pub or_empty : Option Bytes → Bytes
or_empty none = []
or_empty (some s) = s

sender_last :
    (fuel : ℕ) (it : RecvItem) (sender : Bytes)
    → OneLine sender
    → parse_loop (suc fuel) it (codes "sender: " ++ sender)
      ≡ some (with_cid (record it { sender = sender }))
unfolding assign bytes_eq
sender_last fuel it sender h =
    parse_loop-done fuel it (record it { sender = sender }) _
      (read_line-last it (codes "sender") sender (omega arith) (omega arith) h)

sender_more :
    (fuel : ℕ) (it : RecvItem) (sender : Bytes) (c : ℕ) (rest : Bytes)
    → OneLine sender
    → parse_loop (suc fuel) it (codes "sender: " ++ (sender ++ 10 ∷ (c ∷ rest)))
      ≡ parse_loop fuel (record it { sender = sender }) (c ∷ rest)
unfolding assign bytes_eq is_empty
sender_more fuel it sender c rest h =
    parse_loop-more fuel it (record it { sender = sender }) _ (c ∷ rest)
      (read_line-label it (codes "sender") sender (c ∷ rest) (omega arith) (omega arith) h) refl

path_last :
    (fuel : ℕ) (it : RecvItem) (path : Bytes)
    → OneLine path
    → parse_loop (suc fuel) it (codes "path: " ++ path)
      ≡ some (with_cid (record it { path = path }))
unfolding assign bytes_eq
path_last fuel it path h =
    parse_loop-done fuel it (record it { path = path }) _
      (read_line-last it (codes "path") path (omega arith) (omega arith) h)

path_more :
    (fuel : ℕ) (it : RecvItem) (path : Bytes) (c : ℕ) (rest : Bytes)
    → OneLine path
    → parse_loop (suc fuel) it (codes "path: " ++ (path ++ 10 ∷ (c ∷ rest)))
      ≡ parse_loop fuel (record it { path = path }) (c ∷ rest)
unfolding assign bytes_eq is_empty
path_more fuel it path c rest h =
    parse_loop-more fuel it (record it { path = path }) _ (c ∷ rest)
      (read_line-label it (codes "path") path (c ∷ rest) (omega arith) (omega arith) h) refl

text_last :
    (fuel : ℕ) (it : RecvItem) (text : Bytes)
    → KeepsEnd text
    → parse_loop (suc fuel) it (text_label ++ text) ≡ some (with_cid (with_text it text))
text_last fuel it text h = parse_loop-done fuel it (with_text it text) _ (read_line-text it text h)

-- What a reader should get of an item.
pub received : AgentItem → RecvItem
received item = record {
  kind = item.kind;
  sender = item.sender;
  path = or_empty item.path;
  text = or_empty item.text;
  has_text = is_some item.text;
  cid = [];
}

abbrev pub OneLineOption : Option Bytes → Type 0
OneLineOption none = Unit
OneLineOption (some s) = OneLine s

abbrev pub KeepsEndOption : Option Bytes → Type 0
KeepsEndOption none = Unit
KeepsEndOption (some s) = KeepsEnd s

tail_parses :
    (fuel : ℕ) (kind sender : Bytes) (path text : Option Bytes)
    → OneLine sender
    → OneLineOption path
    → KeepsEndOption text
    → parse_loop
        (suc (suc (suc fuel)))
        (record no_item { kind = kind })
        (codes "sender: "
          ++ (sender
              ++ (optional_line (codes "path: ") path ++ optional_line (codes "text: ") text)))
      ≡ some
          (with_cid (received (record { kind = kind; sender = sender; path = path; text = text })))
unfolding received is_some with_text
tail_parses fuel kind sender none none h _ _ =
    rw (append-nil sender) (sender_last (suc (suc fuel)) _ sender h)
tail_parses fuel kind sender none (some text) h _ k =
    sender_more (suc (suc fuel)) _ sender _ _ h ∙ text_last (suc fuel) _ text k
tail_parses fuel kind sender (some path) none h hp _ =
    rw (append-nil path)
      (sender_more (suc (suc fuel)) _ sender _ _ h ∙ path_last (suc fuel) _ path hp)
tail_parses fuel kind sender (some path) (some text) h hp k =
    sender_more (suc (suc fuel)) _ sender _ _ h
    ∙ (path_more (suc fuel) _ path _ _ hp ∙ text_last fuel _ text k)

abbrev pub NoToken : Option Bytes → Type 0
NoToken none = Unit
NoToken (some s) = has_prefix s cid_open ≡ false

with_cid-received :
    (kind sender : Bytes) (path text : Option Bytes)
    → NoToken text
    → (let item : AgentItem = record { kind = kind; sender = sender; path = path; text = text } in
        with_cid (received item) ≡ received item)
unfolding with_cid received is_some extract_cid
with_cid-received kind sender path none h = refl
with_cid-received kind sender path (some t) h = rw h refl

-- Reading the body that /recv writes for an item gives the item: kind, sender, the path and the
-- text, with no text kept apart from an empty one. The kind, the sender and the path are of one line;
-- the text is any that does not begin with a correlation token, and does not end in the only newline
-- that it holds.
pub parse_recv_body-recv_body_string :
    (item : AgentItem)
    → OneLine item.kind
    → OneLine item.sender
    → OneLineOption item.path
    → KeepsEndOption item.text
    → NoToken item.text
    → parse_recv_body (recv_body_string item) ≡ some (received item)
unfolding parse_recv_body recv_body_string assign bytes_eq is_empty
parse_recv_body-recv_body_string item k s p t n =
    (let rest =
        codes "sender: "
        ++ (item.sender
            ++ (optional_line (codes "path: ") item.path
                ++ optional_line (codes "text: ") item.text)) in
      parse_loop-more _ no_item (record no_item { kind = item.kind }) _ rest
        (read_line-label no_item (codes "type") item.kind rest (omega arith) (omega arith) k) refl
      ∙ (tail_parses (length (drop 3 (recv_body_string item))) item.kind item.sender item.path
            item.text s p t
          ∙ ap some (with_cid-received item.kind item.sender item.path item.text n)))

-- A text that ends in the only newline that it holds arrives without that newline.
pub parse_recv_body-drops_newline :
    (kind sender line : Bytes)
    → OneLine kind
    → OneLine sender
    → OneLine line
    → has_prefix line cid_open ≡ false
    → parse_recv_body (
        recv_body_string
          (record { kind = kind; sender = sender; path = none; text = some (line ++ 10 ∷ []) }))
      ≡ some (received (record { kind = kind; sender = sender; path = none; text = some line }))
unfolding parse_recv_body recv_body_string assign bytes_eq is_empty with_text received is_some
    text_value
parse_recv_body-drops_newline kind sender line k s l n =
    (let rest = codes "sender: " ++ (sender ++ 10 ∷ (codes "text: " ++ (line ++ 10 ∷ []))) in
      let before = record no_item { kind = kind; sender = sender } in
      parse_loop-more _ no_item (record no_item { kind = kind }) _ rest
        (read_line-label no_item (codes "type") kind rest (omega arith) (omega arith) k) refl
      ∙ (sender_more _ _ sender _ _ s
          ∙ (parse_loop-done _ before (with_text before line) _
                (read_line-label before (codes "text") line [] (omega arith) (omega arith) l)
              ∙ ap some (with_cid-received kind sender none (some line) n))))

-- The token that `msg --reply-to` puts in front of a text comes off again, whole.
pub extract_cid-prepend_cid :
    (cid text : Bytes)
    → All (λ c. c ≢ cid_close) cid
    → extract_cid (prepend_cid cid text) ≡ (text, cid)
unfolding extract_cid prepend_cid without_token drop_space
extract_cid-prepend_cid cid text h =
    rw
      (
        has_prefix-append cid_open (cid ++ (cid_close ∷ (b' ' ∷ text))),
        cut-append cid_close (cid_open ++ cid) (b' ' ∷ text)
            (All-append (λ c. c ≢ cid_close) cid_open cid (omega arith) h),
      )
      refl
