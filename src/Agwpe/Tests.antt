-- ===== src/Agwpe/Tests.antt =====
-- Runs of the frames, and their theorems at concrete inputs.
use wl2k_go.Prelude.{◌≡◌, refl, [], ◌∷◌, ◌++◌, Bytes, take, arith}
use wl2k_go.Go.Result.{ok, err}
use wl2k_go.Go.Strings.{codes}
use wl2k_go.Agwpe.{
  Frame, unexpected_eof, write_header, write_frame, read_some, read_more, decode_header,
  read_header, read_frame,
}
use wl2k_go.Agwpe.Kinds.{connected_data_frame}
use wl2k_go.Agwpe.RoundTrip.{concat, sent, read_frame-write_frame, read_frame_split}

abbrev data_frame : Frame
data_frame = connected_data_frame 1 (codes "LA5NTA") (codes "LA1B") (codes "hello")

abbrev header_bytes : Bytes
header_bytes = take 36 (write_frame data_frame)

-- A header and its data in two pieces, then another piece.
read_run :
    read_frame (header_bytes ∷ codes "hello" ∷ codes "next" ∷ [])
    ≡ ok (data_frame, codes "next" ∷ [])
unfolding read_frame read_header read_more read_some decode_header write_frame write_header
read_run = refl

read_frame-write_frame_example :
    read_frame ((header_bytes ++ codes "hello") ∷ codes "next" ∷ [])
    ≡ ok (sent data_frame, codes "next" ∷ [])
unfolding write_frame write_header
read_frame-write_frame_example =
    read_frame-write_frame data_frame [] header_bytes (codes "next" ∷ [])
      (record { from_fits = refl; to_fits = refl; length_fits = omega arith }) tt
      (unfold concat in refl) (omega arith)

read_frame_split_example :
    read_frame ((header_bytes ++ codes "hel") ∷ codes "lo" ∷ []) ≡ err unexpected_eof
unfolding write_frame write_header
read_frame_split_example =
    read_frame_split data_frame [] header_bytes (codes "hel") (codes "lo") []
      (record { from_fits = refl; to_fits = refl; length_fits = omega arith }) tt
      (unfold concat in refl) refl (omega arith) (omega arith)
