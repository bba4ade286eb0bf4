-- ===== src/Cli/Exit.antt =====
-- cmd/clipbeam/cli/exit.go and errors.go: the exit codes.
use clipbeam_cli.Prelude.{ℕ, ◌&&◌, Option, none, some, ltb, leb, ◌==◌, if◌then◌else◌}

abbrev pub exit_ok : ℕ
exit_ok = 0

abbrev pub exit_generic : ℕ
exit_generic = 1

abbrev pub exit_usage : ℕ
exit_usage = 2

abbrev pub exit_nothing : ℕ
exit_nothing = 3

abbrev pub exit_unauthorized : ℕ
exit_unauthorized = 4

abbrev pub exit_forbidden : ℕ
exit_forbidden = 5

abbrev pub exit_unreachable : ℕ
exit_unreachable = 6

abbrev pub exit_too_large : ℕ
exit_too_large = 7

abbrev pub exit_config : ℕ
exit_config = 8

abbrev pub exit_remote_io : ℕ
exit_remote_io = 9

unfoldable pub http_status_to_exit : ℕ → ℕ
http_status_to_exit status =
    if status == 401
    then exit_unauthorized
    else if status == 403
    then exit_forbidden
    else if status == 413
    then exit_too_large
    else if status == 500
    then exit_remote_io
    else if status == 502
    then exit_unreachable
    else if leb 200 status && ltb status 300
    then exit_ok
    else if leb 500 status
    then exit_remote_io
    else exit_generic

-- The sentinels of package sshx, and any other error.
pub data SshError : Type 0 where
  host_key_unknown : SshError
  host_key_mismatch : SshError
  dial_failed : SshError
  host_key_ca_unsupported : SshError
  proxy_jump_unsupported : SshError
  other_error : SshError

pub ssh_err_to_exit : Option SshError → ℕ
ssh_err_to_exit none = exit_ok
ssh_err_to_exit (some host_key_unknown) = exit_unreachable
ssh_err_to_exit (some host_key_mismatch) = exit_unreachable
ssh_err_to_exit (some dial_failed) = exit_unreachable
ssh_err_to_exit (some host_key_ca_unsupported) = exit_config
ssh_err_to_exit (some proxy_jump_unsupported) = exit_config
ssh_err_to_exit (some other_error) = exit_generic
