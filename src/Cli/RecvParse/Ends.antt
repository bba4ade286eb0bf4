-- ===== src/Cli/RecvParse/Ends.antt =====
-- cmd/clipbeam/cli/recvparse.go: the loop over the lines ends.
use clipbeam_cli.Prelude.{
  ℕ, zero, suc, ◌<◌, ◌≡◌, refl, inl, inr, false, some, arith, Bool-cases, Option-cases, length,
  Bytes,
}
use clipbeam_cli.Go.Cut.{cut, length-cut}
use clipbeam_cli.Go.Strings.{is_empty}
use clipbeam_cli.Cli.RecvParse.{
  RecvItem, no_item, line_of, next_line, split_first_colon, assign, read_line, with_cid, parse_loop,
  parse_recv_body,
}

next_line-shorter :
    (rest : Bytes) → is_empty (next_line rest).1 ≡ false → length (next_line rest).1 < length rest
unfolding next_line line_of is_empty
next_line-shorter rest h = elim (Option-cases (cut 10 rest)) [
  | inl e ↦ cc (rw e at h)
  | inr ((line, more), e) ↦ rw e (length-cut 10 rest line more e)
]

assign-rest :
    (it : RecvItem) (label value rest : Bytes)
    → is_empty (assign it label value rest).1 ≡ false
    → (assign it label value rest).1 ≡ rest
unfolding assign is_empty
assign-rest it label value rest h = ground arith

read_line-shorter :
    (it : RecvItem) (rest : Bytes)
    → is_empty (read_line it rest).1 ≡ false
    → length (read_line it rest).1 < length rest
unfolding read_line
read_line-shorter it rest h =
    (let line = next_line rest in
      let parts = split_first_colon line.0 in
      let same = assign-rest it parts.0 parts.1 line.1 h in
      rw same (next_line-shorter rest (rw same at h)))

-- As many rounds as the text has bytes, and one more, are enough.
parse_loop_ends :
    (fuel : ℕ) (it : RecvItem) (rest : Bytes)
    → length rest < fuel
    → (out : RecvItem) × (parse_loop fuel it rest ≡ some out)
unfolding parse_loop
parse_loop_ends zero it rest h = absurd (omega arith)
parse_loop_ends (suc fuel) it rest h = elim (Bool-cases (is_empty (read_line it rest).1)) [
  | inl done ↦ (with_cid (read_line it rest).0, rw done refl)
  | inr more ↦ rw more (
      parse_loop_ends fuel (read_line it rest).0 (read_line it rest).1
        (omega (arith, read_line-shorter it rest more)))
]

-- Reading a body gives an item, whatever the body is: the loop over its lines always ends.
pub parse_recv_body_ends : (body : Bytes) → (out : RecvItem) × (parse_recv_body body ≡ some out)
unfolding parse_recv_body
parse_recv_body_ends body = parse_loop_ends (suc (length body)) no_item body (omega arith)
