-- ===== src/Fbb/Line/Tests.antt =====
-- Runs of the line reader, and its theorems at concrete inputs.
use wl2k_go.Prelude.{◌≡◌, refl, [], ◌∷◌, ◌++◌, true}
use wl2k_go.Go.Result.{ok, err, panic}
use wl2k_go.Go.Strings.{codes, cut_at}
use wl2k_go.Fbb.Error.{remote_error}
use wl2k_go.Fbb.Line.{
  wide_space, space_width, last_space_width, trim_loop, trim_space, clean_end, clean_begin,
  clean_string, after_last, err_line, checked_line, next_line_remote_err, next_line,
}
use wl2k_go.Fbb.Line.Clean.{next_line_nul_only}

spaces_run :
    clean_string (9 ∷ 0xC2 ∷ 0xA0 ∷ (codes " hi " ++ 0xE2 ∷ 0x80 ∷ 0x83 ∷ [])) ≡ ok (codes "hi")
unfolding clean_string clean_begin clean_end trim_space trim_loop space_width last_space_width
    wide_space
spaces_run = refl

remote_error_run :
    next_line (codes "*** Bad MID " ++ 13 ∷ []) ≡ err (remote_error (codes "Bad MID"))
unfolding next_line next_line_remote_err checked_line err_line after_last cut_at clean_string
    clean_begin clean_end trim_space trim_loop space_width last_space_width wide_space
remote_error_run = refl

nul_line_run : next_line_remote_err true (0 ∷ 13 ∷ codes "FQ") ≡ panic
nul_line_run = next_line_nul_only true (codes "FQ")
