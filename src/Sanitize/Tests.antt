-- ===== src/Sanitize/Tests.antt =====
-- Names that the sanitizer is given, and what it makes of them.
use clipbeam_cli.Prelude.{◌≡◌, refl, [], ◌∷◌, Bytes, codes}
use clipbeam_cli.Go.Strings.{is_empty, trim}
use clipbeam_cli.Go.FilePath
use clipbeam_cli.Go.Clock
use clipbeam_cli.Go.Clock.{Time}
use clipbeam_cli.Sanitize.{
  clean_leaf, clean_runes, fallback_name, cap_length, needs_fallback, path_extension,
  deleting_path_extension, dot_ext, truncate_bytes, utc_timestamp, fallback_ext, uti_ext, kind_ext,
  kind_file, kind_image, collision_name, itoa, itoa_loop,
}

-- What a run of `clean_leaf` opens.
clean_leaf_run : Time → Bytes → Bytes → Bytes → Bytes
unfolding clean_leaf FilePath.base clean_runes trim fallback_name cap_length needs_fallback
    path_extension deleting_path_extension dot_ext truncate_bytes utc_timestamp is_empty
    fallback_ext uti_ext kind_ext
clean_leaf_run = clean_leaf

traversal :
    clean_leaf_run Clock.sample_time (codes "../../etc/pass wd.txt ") kind_file []
    ≡ codes "pass wd.txt"
unfolding clean_leaf_run
traversal = refl

hidden :
    clean_leaf_run Clock.sample_time (codes "/home/.bashrc") kind_image []
    ≡ codes "clipbeam-20260309-140507-042.png"
unfolding clean_leaf_run
hidden = refl

accented :
    clean_leaf_run Clock.sample_time (0xC3 ∷ 0xA9 ∷ 0xFF ∷ codes "t\\a") kind_image []
    ≡ codes "__t_a"
unfolding clean_leaf_run
accented = refl

second_name : collision_name (codes "shot.png") 12 ≡ codes "shot (12).png"
unfolding collision_name path_extension deleting_path_extension itoa itoa_loop is_empty
second_name = refl
