-- ===== src/Ardop/Tests.antt =====
-- Runs of the frames, and the theorems at concrete inputs.
use wl2k_go.Prelude.{◌≡◌, refl, true, false, [], ◌∷◌, ◌++◌, Bytes, arith}
use wl2k_go.Go.Result.{ok}
use wl2k_go.Go.Strings.{codes}
use wl2k_go.Ardop.{
  cmd_frame, d_frame, prefix, crc16_sum, crc16_bytes, crc16_byte, write_ctrl_frame, read_data,
  read_frame_of_type,
}
use wl2k_go.Ardop.RoundTrip.{read_frame_of_type-write_ctrl_frame}
use wl2k_go.Ardop.Faults.{read_data_truncated}

-- The checksum of the repository's own test.
crc16_run : crc16_sum (codes "RDY\r") ≡ 55805
unfolding crc16_sum crc16_bytes crc16_byte
crc16_run = refl

-- The sum of "RDY" is 0xD9FD.
read_frame_of_type-write_ctrl_frame_example :
    ((frame : Bytes) × (write_ctrl_frame false (codes "RDY") ≡ prefix false (codes "C:") ++ frame)
      × (read_frame_of_type false 2 b'c' (frame ++ codes "c:")
          ≡ ok (cmd_frame (codes "RDY"), codes "c:")))
    × (read_frame_of_type false 2 b'c' (codes "RDY\r" ++ 0xD9 ∷ 0xFD ∷ codes "c:")
        ≡ ok (cmd_frame (codes "RDY"), codes "c:"))
unfolding crc16_sum crc16_bytes crc16_byte
read_frame_of_type-write_ctrl_frame_example =
    read_frame_of_type-write_ctrl_frame false (codes "RDY") (codes "c:") 0xD9 0xFD (ground arith)

read_data_truncated_example :
    read_data true 2 (0 ∷ 6 ∷ b'A' ∷ b'R' ∷ b'Q' ∷ b'h' ∷ [])
    ≡ ok (d_frame (b'A' ∷ b'R' ∷ b'Q' ∷ []) (b'h' ∷ 0 ∷ 0 ∷ []), [])
read_data_truncated_example =
    read_data_truncated 0 6 b'A' b'R' b'Q' 3 (b'h' ∷ []) refl (omega arith) (omega arith)
