-- ===== src/Ardop/RoundTrip.antt =====
-- What is written of a command is read back as its frame.
use wl2k_go.Prelude.{
  ℕ, ◌+◌, ◌*◌, ◌==◌, if◌then◌else◌, ◌≡◌, refl, ap, ◌∙◌, Bool, true, false, [], ◌∷◌, ◌++◌,
  append_assoc, Bytes, arith,
}
use wl2k_go.Go.Result.{ok, err}
use wl2k_go.Go.Strings.{codes, Free, cut_at-append}
use wl2k_go.Ardop.{
  cmd_frame, checksum_mismatch, big_endian, checksum, crc16_sum, prefix, uint16, verify,
  write_ctrl_frame, frame_type, read_command, read_frame_of_type,
}

uint16-big_endian : (n : ℕ) → uint16 (big_endian n) ≡ n
uint16-big_endian n = omega arith

-- The checksum of what was read is accepted, and read off.
verify-checksum :
    (is_tcp : Bool) (data' rest : Bytes)
    → verify is_tcp 2 data' (checksum is_tcp data' ++ rest) ≡ ok rest
unfolding verify
verify-checksum true data' rest = refl
verify-checksum false data' rest = ground (arith, uint16-big_endian (crc16_sum data'))

read_frame_of_type-command :
    (is_tcp : Bool) (got : ℕ) (s : Bytes)
    → read_frame_of_type is_tcp got b'c' s ≡ read_command is_tcp got s
unfolding read_frame_of_type frame_type
read_frame_of_type-command is_tcp got [] = refl
read_frame_of_type-command is_tcp got (x ∷ []) = refl
read_frame_of_type-command is_tcp got (x ∷ y ∷ s) = refl

read_command-append :
    (is_tcp : Bool) (text rest : Bytes)
    → Free 13 text
    → read_command is_tcp 2 (text ++ 13 ∷ (checksum is_tcp (text ++ 13 ∷ []) ++ rest))
      ≡ ok (cmd_frame text, rest)
unfolding read_command
read_command-append is_tcp text rest free = ground (
  arith,
  cut_at-append 13 text (checksum is_tcp (text ++ 13 ∷ []) ++ rest) free,
  verify-checksum is_tcp (text ++ 13 ∷ []) rest,
)

-- Where the two bytes behind a command are not the sum of it, the command is refused.
verify-bytes :
    (line rest : Bytes) (x y : ℕ)
    → verify false 2 line (x ∷ y ∷ rest)
      ≡ (if crc16_sum line == x * 256 + y then ok rest else err checksum_mismatch)
unfolding verify
verify-bytes line rest x y = ground arith

read_command-bytes :
    (text rest : Bytes) (x y : ℕ)
    → Free 13 text
    → read_command false 2 (text ++ 13 ∷ x ∷ y ∷ rest) ≡ (
        if crc16_sum (text ++ 13 ∷ []) == x * 256 + y
        then ok (cmd_frame text, rest)
        else err checksum_mismatch)
unfolding read_command
read_command-bytes text rest x y free =
    ground
      (arith, cut_at-append 13 text (x ∷ y ∷ rest) free, verify-bytes (text ++ 13 ∷ []) rest x y)

-- A control frame of a text with no carriage return is its prefix and some bytes which, where they are read as a
-- command and the one Read of the checksum gives both its bytes, give the text, and leave what follows them; so it
-- is with and without the checksum. With the checksum, any two bytes may stand behind the text and its carriage
-- return: the command is read if they are, in big-endian order, the sum of these, and is refused if not.
pub read_frame_of_type-write_ctrl_frame :
    (is_tcp : Bool) (text rest : Bytes) (x y : ℕ)
    → Free 13 text
    → ((frame : Bytes) × (write_ctrl_frame is_tcp text ≡ prefix is_tcp (codes "C:") ++ frame)
        × (read_frame_of_type is_tcp 2 b'c' (frame ++ rest) ≡ ok (cmd_frame text, rest)))
      × (read_frame_of_type false 2 b'c' (text ++ 13 ∷ x ∷ y ∷ rest) ≡ (
          if crc16_sum (text ++ 13 ∷ []) == x * 256 + y
          then ok (cmd_frame text, rest)
          else err checksum_mismatch))
unfolding write_ctrl_frame
read_frame_of_type-write_ctrl_frame is_tcp text rest x y free =
    let line = text ++ 13 ∷ [] in
    let sum = checksum is_tcp line in
    (
      (
        line ++ sum,
        refl,
        read_frame_of_type-command is_tcp 2 ((line ++ sum) ++ rest)
            ∙ ap (read_command is_tcp 2)
                (append_assoc line sum rest ∙ append_assoc text (13 ∷ []) (sum ++ rest))
            ∙ read_command-append is_tcp text rest free,
      ),
      read_frame_of_type-command false 2 (text ++ 13 ∷ x ∷ y ∷ rest)
          ∙ read_command-bytes text rest x y free,
    )
