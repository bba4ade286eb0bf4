-- ===== src/Tests.antt =====
-- The theorems at concrete inputs.
use clipbeam_cli.Prelude.{
  ℕ, ◌+◌, ◌*◌, ◌/◌, ◌≤◌, ◌≡◌, refl, ◌↔◌, true, false, Option, none, some, List, [], ◌∷◌, ◌++◌, map,
  arith, if◌then◌else◌, length, All, Bytes, codes, bytes_eq,
}
use clipbeam_cli.Go.Paths
use clipbeam_cli.Go.Paths.{IsElement, rooted_path}
use clipbeam_cli.Go.Clock.{sample_time}
use clipbeam_cli.Sanitize.{
  kind_image, kind_file, clean_leaf, safe_leaf, eval_dir, truncate_bytes, name_max_bytes,
}
use clipbeam_cli.Sanitize.Cap.{IsSafeName, IsLongestWhole, truncate_bytes-IsLongestWhole}
use clipbeam_cli.Sanitize.Safe.{clean_leaf-IsSafeName}
use clipbeam_cli.Sanitize.Contain.{safe_leaf-contained, eval_dir-some}
use clipbeam_cli.Disk.{find_empty}
use clipbeam_cli.Store.{Payload, Os, made, write_fails, save_stream, unique_leaf}
use clipbeam_cli.Store.Save.{SaveSpec, Calm, save_stream-SaveSpec}
use clipbeam_cli.Cb01.{Cb01Item, encode, decode, to_reader, ok, item_head, decode_item}
use clipbeam_cli.Cb01.Items.{Fits}
use clipbeam_cli.Cb01.RoundTrip.{decode-encode}
use clipbeam_cli.Cb01.Cut.{decode_item_cut}
use clipbeam_cli.Auth.{constant_time_equals, base32_encode, token_random_bytes, token_chars}
use clipbeam_cli.Auth.Compare.{constant_time_equals_iff}
use clipbeam_cli.Auth.Base32.{InAlphabet, base32_encode_lem}
use clipbeam_cli.Classify.{Addr, v4, classify, peer_host, parse_ip}
use clipbeam_cli.Classify.Order.{classify-peer_iff}
use clipbeam_cli.Wire.{hard_ceiling, decoded_length}
use clipbeam_cli.Wire.Base64.{base64, decoded_length-base64, hard_ceiling_fits}

abbrev save_folder : List Bytes
save_folder = codes "save" ∷ []

save_folder-All : All IsElement save_folder
unfolding bytes_eq
save_folder-All = (record { plain = omega arith; named = refl; down = refl }, tt)

abbrev resolved : Bytes → Option Bytes
resolved dir = some dir

-- A disk that fills up after two bytes.
abbrev full_disk : Os
full_disk = record {
  now = sample_time;
  unseen = λ p. false;
  unseen_again = λ p. false;
  first = made;
  second = made;
  removed = true;
  random = codes "1f";
  fault = write_fails 28 2;
}

full_disk-Calm : Calm full_disk
full_disk-Calm = record {
  sees = λ p. refl;
  sees_again = λ p. refl;
  closes = λ e. cc;
  removes = refl;
  cleans = λ x n e. cc;
}

abbrev four_bytes : Payload
four_bytes = record { bytes = codes "abcd"; broken = none }

abbrev chosen : Bytes
chosen = Paths.join (rooted_path save_folder) (
    unique_leaf full_disk.unseen [] (rooted_path save_folder)
      (clean_leaf sample_time (codes "../a.txt") kind_file []))

save_stream-SaveSpec_example : SaveSpec [] four_bytes chosen (
    save_stream resolved full_disk
      (rooted_path save_folder)
      (codes "../a.txt")
      kind_file
      []
      four_bytes
      [])
save_stream-SaveSpec_example =
    save_stream-SaveSpec resolved full_disk save_folder (codes "../a.txt") kind_file [] four_bytes
      [] full_disk-Calm save_folder-All
      (eval_dir-some resolved (rooted_path save_folder) (rooted_path save_folder) refl)
      (omega arith) (find_empty _)

safe_leaf-contained_example :
    (safe_leaf resolved sample_time
        (codes "../../etc/passwd")
        kind_file
        []
        (rooted_path save_folder)
      ≡ some (clean_leaf sample_time (codes "../../etc/passwd") kind_file []))
    × (Paths.join
          (eval_dir resolved (rooted_path save_folder))
          (clean_leaf sample_time (codes "../../etc/passwd") kind_file [])
        ≡ rooted_path
            (save_folder ++ clean_leaf sample_time (codes "../../etc/passwd") kind_file [] ∷ []))
safe_leaf-contained_example =
    safe_leaf-contained resolved sample_time (codes "../../etc/passwd") kind_file []
      (rooted_path save_folder) save_folder save_folder-All
      (eval_dir-some resolved (rooted_path save_folder) (rooted_path save_folder) refl)

clean_leaf-IsSafeName_example :
    IsSafeName (clean_leaf sample_time (codes ".ssh/../.bashrc") kind_image (codes "public.png"))
    × (length (clean_leaf sample_time (codes ".ssh/../.bashrc") kind_image (codes "public.png"))
        ≤ name_max_bytes)
clean_leaf-IsSafeName_example =
    clean_leaf-IsSafeName sample_time (codes ".ssh/../.bashrc") kind_image (codes "public.png")

-- The last letter takes two bytes.
abbrev cafe : Bytes
cafe = codes "caf" ++ (0xC3 ∷ 0xA9 ∷ [])

truncate_bytes-IsLongestWhole_example :
    IsLongestWhole cafe 4 (truncate_bytes cafe 4) × (length cafe ≤ 4 → truncate_bytes cafe 4 ≡ cafe)
truncate_bytes-IsLongestWhole_example = truncate_bytes-IsLongestWhole cafe 4

abbrev shot : Cb01Item
shot = record {
  kind = 0;
  name = codes "shot.png";
  uti = codes "public.png";
  mime = codes "image/png";
  payload = codes "PNG...";
}

abbrev note : Cb01Item
note = record { kind = 2; name = []; uti = []; mime = []; payload = codes "hello" }

shot-Fits : Fits shot
shot-Fits = record {
  name = omega arith;
  uti = omega arith;
  mime = omega arith;
  payload = omega arith;
}

note-Fits : Fits note
note-Fits = record {
  name = omega arith;
  uti = omega arith;
  mime = omega arith;
  payload = omega arith;
}

decode-encode_example :
    (frame : Bytes) × ((encode 1 (shot ∷ (note ∷ [])) ≡ some frame)
      × (decode 1000 (λ n. none) (frame ++ codes "next")
          ≡ ok (1, map to_reader (shot ∷ (note ∷ [])))))
decode-encode_example =
    decode-encode 1000 1 shot (note ∷ []) (codes "next") (shot-Fits, (note-Fits, tt)) (omega arith)
      (omega arith)

decode_item_cut_example :
    decode_item none true (item_head (to_reader shot) ++ codes "PN")
    ≡ ok (record (to_reader shot) { payload = some (codes "PN") }, [])
decode_item_cut_example = decode_item_cut shot (codes "PN") shot-Fits (omega arith)

abbrev compare_contents : Bytes → Bytes → ℕ
compare_contents a b = if bytes_eq a b then 1 else 0

constant_time_equals_iff_example :
    (constant_time_equals compare_contents (some (codes "KVBN")) (codes "KVBM") ≡ true)
    ↔ (some (codes "KVBN") ≡ some (codes "KVBM"))
constant_time_equals_iff_example =
    constant_time_equals_iff compare_contents (λ a b h. refl) (some (codes "KVBN")) (codes "KVBM")

base32_encode_lem_example :
    (length (base32_encode (codes "fifteen bytes!!"))
      ≡ (length (codes "fifteen bytes!!") * 8 + 4) / 5)
    × (All InAlphabet (base32_encode (codes "fifteen bytes!!"))
        × (length (codes "fifteen bytes!!") ≡ token_random_bytes
            → length (base32_encode (codes "fifteen bytes!!")) ≡ token_chars))
base32_encode_lem_example = base32_encode_lem (codes "fifteen bytes!!")

-- An address parser that knows one host.
abbrev one_host : Bytes → Option Addr
one_host s =
    if bytes_eq s (codes "100.64.0.7") then some (v4 (100 ∷ (64 ∷ (0 ∷ (7 ∷ []))))) else none

classify-peer_iff_example :
    (classify (λ s. s) one_host (codes "100.64.0.7") (codes "laptop") ≡ peer_host) ↔ (
      (ip : Addr) × ((parse_ip (λ s. s) one_host (codes "100.64.0.7") ≡ some ip)
        × (parse_ip (λ s. s) one_host (codes "laptop") ≡ some ip)))
classify-peer_iff_example =
    classify-peer_iff (λ s. s) one_host (codes "100.64.0.7") (codes "laptop")

decoded_length-base64_example : decoded_length (base64 (codes "hello")) ≡ length (codes "hello")
decoded_length-base64_example = decoded_length-base64 (codes "hello")

hard_ceiling_fits_example : length (base64 (codes "hello")) + 200 ≤ hard_ceiling 5
hard_ceiling_fits_example =
    hard_ceiling_fits 5 200 (codes "hello") (omega arith) (omega arith) (omega arith)
