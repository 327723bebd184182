-- ===== src/Fbb/Transfer/Tests.antt =====
-- Runs of the transfer, and its theorems at concrete inputs.
use wl2k_go.Prelude.{◌≡◌, refl, [], ◌∷◌, ◌++◌, Bytes, arith}
use wl2k_go.Prelude.Int.{pos}
use wl2k_go.Go.Result.{ok, err}
use wl2k_go.Go.Strings.{codes, cut_at}
use wl2k_go.Go.Strconv.{show_int, digits, atoi, parse_int, unsigned_part, scan, digit_value, signed}
use wl2k_go.Go.Mime.{q_encode}
use wl2k_go.Fbb.Error.{bad_checksum}
use wl2k_go.Fbb.Proposal.{Proposal, empty_proposal}
use wl2k_go.Fbb.Transfer.{
  done, sum_bytes, write_blocks, write_header, write_data, write_compressed, read_block, read_end,
  read_blocks, check_header, read_header, read_data, read_compressed,
}
use wl2k_go.Fbb.Transfer.RoundTrip.{
  verdict, read_compressed-write_compressed, read_compressed-verdict, read_compressed_unchecked,
}
use wl2k_go.Fbb.Transfer.Errors.{Delivered, read_compressed_sound}

abbrev same : Bytes → Bytes
same s = s

abbrev outgoing : Proposal
outgoing = record empty_proposal {
  title = codes "Hi";
  compressed_data = 1 ∷ 2 ∷ 3 ∷ 4 ∷ 5 ∷ 6 ∷ 235 ∷ [];
  compressed_size = pos 7;
}

abbrev expected : Proposal
expected = record empty_proposal { compressed_size = pos 7 }

abbrev delivered : Proposal
delivered = record outgoing { title = codes "Hi" }

abbrev header_bytes : Bytes
header_bytes = 1 ∷ 5 ∷ b'H' ∷ b'i' ∷ 0 ∷ b'0' ∷ 0 ∷ []

abbrev block_bytes : Bytes
block_bytes = 2 ∷ 7 ∷ 1 ∷ 2 ∷ 3 ∷ 4 ∷ 5 ∷ 6 ∷ 235 ∷ []

write_run : write_compressed outgoing ≡ done (header_bytes ++ (block_bytes ++ 4 ∷ 0 ∷ []))
unfolding write_compressed write_data write_blocks sum_bytes show_int digits q_encode
write_run = refl

read_run :
    read_compressed same (header_bytes ++ (block_bytes ++ 4 ∷ 0 ∷ 9 ∷ [])) expected
    ≡ ok (delivered, 9 ∷ [])
unfolding read_compressed read_header read_data read_blocks read_block read_end check_header cut_at
    atoi parse_int unsigned_part scan digit_value signed
read_run = refl

read_compressed-write_compressed_example :
    (out : Bytes) × (write_compressed outgoing ≡ done out)
    × (read_compressed same (out ++ (9 ∷ [])) expected
        ≡ ok (
          record expected {
            title = same (q_encode outgoing.title);
            compressed_data = outgoing.compressed_data;
          },
          9 ∷ [],
        ))
unfolding q_encode show_int digits
read_compressed-write_compressed_example =
    read_compressed-write_compressed same outgoing expected 0 (9 ∷ []) (omega arith) (omega arith)
      (omega arith) (omega arith) refl refl refl

read_compressed-verdict_example :
    read_compressed same
      (write_header (codes "Hi") (show_int (pos 0))
        ++ ((write_blocks 3 (7 ∷ 8 ∷ 9 ∷ []) 0).0 ++ 4 ∷ 5 ∷ []))
      expected
    ≡ verdict 5 (7 ∷ 8 ∷ 9 ∷ []) [] (record expected { title = codes "Hi" })
unfolding show_int digits
read_compressed-verdict_example =
    read_compressed-verdict same (codes "Hi") (7 ∷ 8 ∷ 9 ∷ []) [] 0 5 expected (refl, (refl, tt))
      (omega arith) (omega arith) refl

verdict_run : verdict 5 (7 ∷ 8 ∷ 9 ∷ []) [] expected ≡ err bad_checksum
unfolding verdict sum_bytes
verdict_run = refl

read_compressed_unchecked_example :
    read_compressed same
      (write_header (codes "Hi") (show_int (pos 0))
        ++ ((write_blocks 7 outgoing.compressed_data 0).0 ++ 4 ∷ []))
      expected
    ≡ ok (record expected { title = codes "Hi"; compressed_data = outgoing.compressed_data }, [])
unfolding show_int digits sum_bytes
read_compressed_unchecked_example =
    read_compressed_unchecked same (codes "Hi") outgoing.compressed_data 0 expected
      (refl, (refl, tt)) (omega arith) (omega arith) refl refl refl

read_compressed_sound_example : Delivered expected delivered
read_compressed_sound_example =
    read_compressed_sound same (header_bytes ++ (block_bytes ++ 4 ∷ 0 ∷ 9 ∷ [])) expected delivered
      (9 ∷ []) read_run
