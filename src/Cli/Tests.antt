-- ===== src/Cli/Tests.antt =====
-- The bodies of /recv at concrete inputs.
use clipbeam_cli.Prelude.{
  ℕ, ◌≡◌, refl, ap, ◌≢◌, false, none, some, [], ◌∷◌, ◌++◌, arith, length, get_or, length-append,
  Bytes, codes, has_prefix,
}
use clipbeam_cli.Receive.{AgentItem}
use clipbeam_cli.Httpd.Response.{recv_body_string}
use clipbeam_cli.Cli.RecvParse.{RecvItem, parse_recv_body, extract_cid, prepend_cid, cid_open}
use clipbeam_cli.Cli.RecvParse.RoundTrip.{
  received, OneLine, KeepsEnd, parse_recv_body-recv_body_string, parse_recv_body-drops_newline,
  extract_cid-prepend_cid,
}
use clipbeam_cli.Cli.RecvParse.Ends.{parse_recv_body_ends}

abbrev two_lines : AgentItem
two_lines = record {
  kind = codes "text";
  sender = codes "mac";
  path = none;
  text = some (b'a' ∷ 10 ∷ b'b' ∷ []);
}

text-OneLine : OneLine (codes "text")
text-OneLine = (omega arith, (omega arith, (omega arith, (omega arith, tt))))

mac-OneLine : OneLine (codes "mac")
mac-OneLine = (omega arith, (omega arith, (omega arith, tt)))

abbrev two_lines_text : Bytes
two_lines_text = b'a' ∷ 10 ∷ b'b' ∷ []

third_differs : get_or two_lines_text 2 0 ≢ 10
third_differs = omega arith

three_are_short :
    (a b c : ℕ) (line : Bytes) → length two_lines_text ≢ length (a ∷ (b ∷ (c ∷ (line ++ 10 ∷ []))))
three_are_short a b c line e = omega (arith, e, length-append line (10 ∷ []))

two_lines-KeepsEnd : KeepsEnd (b'a' ∷ 10 ∷ b'b' ∷ [])
two_lines-KeepsEnd [] h e = cc
two_lines-KeepsEnd (a ∷ []) h e = cc
two_lines-KeepsEnd (a ∷ (b ∷ [])) h e = absurd (third_differs (ap (λ t. get_or t 2 0) e))
two_lines-KeepsEnd (a ∷ (b ∷ (c ∷ line))) h e = absurd (three_are_short a b c line (ap length e))

no_token : has_prefix (b'a' ∷ 10 ∷ b'b' ∷ []) cid_open ≡ false
unfolding has_prefix
no_token = refl

parse_recv_body-recv_body_string_example :
    parse_recv_body (recv_body_string two_lines) ≡ some (received two_lines)
parse_recv_body-recv_body_string_example =
    parse_recv_body-recv_body_string two_lines text-OneLine mac-OneLine tt two_lines-KeepsEnd
      no_token

parse_recv_body_ends_example : (out : RecvItem) × (parse_recv_body (codes "text") ≡ some out)
parse_recv_body_ends_example = parse_recv_body_ends (codes "text")

extract_cid-prepend_cid_example :
    extract_cid (prepend_cid (codes "7f") (codes "hi")) ≡ (codes "hi", codes "7f")
extract_cid-prepend_cid_example = extract_cid-prepend_cid (codes "7f") (codes "hi") (omega arith)

line_no_token : has_prefix (codes "hi") cid_open ≡ false
unfolding has_prefix
line_no_token = refl

hi-OneLine : OneLine (codes "hi")
hi-OneLine = omega arith

parse_recv_body-drops_newline_example :
    parse_recv_body (
      recv_body_string (record {
        kind = codes "text";
        sender = codes "mac";
        path = none;
        text = some (codes "hi" ++ 10 ∷ []);
      }))
    ≡ some (
        received (record {
          kind = codes "text";
          sender = codes "mac";
          path = none;
          text = some (codes "hi");
        }))
parse_recv_body-drops_newline_example =
    parse_recv_body-drops_newline (codes "text") (codes "mac") (codes "hi") text-OneLine mac-OneLine
      hi-OneLine line_no_token
