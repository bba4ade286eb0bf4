-- ===== src/Config/Alias/Tests.antt =====
-- A store with one alias.
use clipbeam_cli.Prelude.{◌≡◌, refl, ◌⊎◌, false, some, [], ◌∷◌, All, codes, bytes_eq}
use clipbeam_cli.Go.Strings.{is_empty}
use clipbeam_cli.Config.Alias.{
  Alias, AliasStore, first_alias, target_of, lookup, parse_ssh_spec, or_by_host, lookup_spec,
}
use clipbeam_cli.Config.Alias.Found.{IsFirst, Named, Matches, lookup_spec-IsFirst}

abbrev work : Alias
work = record {
  name = codes "work";
  transport = codes "ssh";
  ssh_user = codes "root";
  ssh_host = codes "box";
  ssh_port = 22;
  ssh_config_alias = [];
  remote_bin_path = codes "/usr/bin/clipbeam";
  serve_mode = codes "exec";
  peer_ip = [];
  is_default = false;
}

abbrev one_alias : AliasStore
one_alias = record { aliases = work ∷ []; default_alias = codes "work" }

default_found : lookup_spec one_alias [] ≡ some work
unfolding lookup_spec lookup or_by_host first_alias target_of is_empty bytes_eq
default_found = refl

lookup_spec-IsFirst_example :
    IsFirst (Named one_alias []) one_alias.aliases work
    ⊎ (All (λ b. ¬ Named one_alias [] b) one_alias.aliases
        × IsFirst
            (Matches (parse_ssh_spec []).user (parse_ssh_spec []).host (parse_ssh_spec []).port)
            one_alias.aliases
            work)
lookup_spec-IsFirst_example = lookup_spec-IsFirst one_alias [] work default_found
