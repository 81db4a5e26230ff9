-- ===== src/Examples/Backup.antt =====
-- The status request and the FRAMLOG header of the space "s".
use fram.Prelude.{ℕ, ◌≡◌, refl, List, [], ◌∷◌, pos, ok, arith}
use fram.Text.{Text, codes, has_paired_surrogates}
use fram.Text.Utf8.{encode, encode_point}
use fram.Text.RoundTrip.{IsWellFormed}
use fram.Client.Request.{query}
use fram.Adapter.Requests.{authorize}
use fram.Adapter.Inspect.{summary}
use fram.Adapter.Status.{status_frame, parse_framlog_header}
use fram.Adapter.Status.Request.{status_encoded, authorize-status_frame}
use fram.Adapter.Status.Header.{framlog_of, parse_framlog_header-framlog_of}

abbrev space : Text
space = codes "s"

space-IsWellFormed : IsWellFormed space
unfolding has_paired_surrogates
space-IsWellFormed = record { units16 = omega arith; paired = refl }

authorize-status_frame_example :
    (frame : List ℕ) × (status_frame space ≡ ok frame)
    × (authorize space frame query space
        ≡ ok (summary (pos 0) space (codes "rpc/status") (status_encoded space)))
unfolding encode encode_point
authorize-status_frame_example =
    authorize-status_frame space space-IsWellFormed refl refl (omega arith)

parse_framlog_header-framlog_of_example :
    parse_framlog_header (framlog_of space (9 ∷ [])) ≡ ok space
unfolding encode encode_point
parse_framlog_header-framlog_of_example =
    parse_framlog_header-framlog_of space (9 ∷ []) space-IsWellFormed refl refl (omega arith)
