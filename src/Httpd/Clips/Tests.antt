-- ===== src/Httpd/Clips/Tests.antt =====
-- One transfer under way.
use clipbeam_cli.Prelude.{◌≡◌, refl, true, false, none, some, [], ◌∷◌, bytes_eq}
use clipbeam_cli.Receive.Tests.{sample_store}
use clipbeam_cli.Httpd.Gate.{Options, Request, clip_gate, listen_unix_socket}
use clipbeam_cli.Httpd.Gate.Needs.{clip_gate_iff, IsAdmitted}
use clipbeam_cli.Httpd.Tests.{sample_platform, tcp_options, sample_request, around, compares}
use clipbeam_cli.Httpd.Clips.{ceiling, clip_checks, gated, declared, try_acquire}
use clipbeam_cli.Httpd.Gate.{max_bytes_of}
use clipbeam_cli.Wire.{hard_ceiling}
use clipbeam_cli.Httpd.Clips.Flight.{
  Flight, idle, Reaches, at_start, one_more, started, Held, Reaches-Held,
}

abbrev socket_options : Options
socket_options = record tcp_options { listen = listen_unix_socket }

abbrev empty_request : Request
empty_request = record sample_request { content_length = some 0; body = [] }

admitted : clip_gate sample_platform socket_options empty_request ≡ none
unfolding IsAdmitted
admitted = (clip_gate_iff sample_platform socket_options compares empty_request).1 (tt, refl)

checked_through : clip_checks around socket_options empty_request ≡ none
unfolding clip_checks gated declared bytes_eq ceiling max_bytes_of hard_ceiling
checked_through = rw admitted refl

abbrev one_running : Flight
one_running = record { taken = true; running = empty_request ∷ []; store = sample_store }

acquired : try_acquire false ≡ some true
unfolding try_acquire
acquired = refl

under_way : Reaches around socket_options sample_store one_running
under_way =
    one_more (idle sample_store) one_running at_start
      (started false true [] sample_store empty_request checked_through acquired)

Reaches-Held_example : Held around socket_options true (empty_request ∷ [])
Reaches-Held_example = Reaches-Held around socket_options under_way
