-- ===== src/Lzhuf/Crc/Tests.antt =====
-- Runs of the checksum, and its theorems at concrete inputs.
use wl2k_go.Prelude.{◌≡◌, refl, [], ◌∷◌, ◌++◌, arith}
use wl2k_go.Go.Strings.{codes}
use wl2k_go.Lzhuf.Crc.{udp_crc16, add_bytes, crc, new_crc_writer, crc_writer_sum, write_all, joined}
use wl2k_go.Lzhuf.Crc.Division.{divide, crc_writer_sum-divide}

-- The check value of the XMODEM variant.
crc_run : crc (codes "123456789") ≡ 0x31C3
unfolding crc add_bytes udp_crc16
crc_run = refl

crc_writer_sum-divide_example :
    (crc_writer_sum (write_all (codes "12" ∷ codes "345" ∷ []) new_crc_writer)
      ≡ crc (codes "12345"))
    × (crc (codes "12345") ≡ divide (codes "12345" ++ 0 ∷ 0 ∷ []) 0)
unfolding joined
crc_writer_sum-divide_example =
    crc_writer_sum-divide (codes "12" ∷ codes "345" ∷ [])
      ((omega arith, (omega arith, tt)), ((omega arith, (omega arith, (omega arith, tt))), tt))
