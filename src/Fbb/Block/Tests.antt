-- ===== src/Fbb/Block/Tests.antt =====
-- Runs of a block of proposals, and its theorems at concrete inputs.
use wl2k_go.Prelude.{◌<◌, ◌≡◌, refl, inl, [], ◌∷◌, ◌++◌, arith, length}
use wl2k_go.Prelude.Int.{pos}
use wl2k_go.Go.Result.{ok}
use wl2k_go.Go.Strings.{codes}
use wl2k_go.Go.Strconv.{show_int, digits, show_hex2, hex_digit}
use wl2k_go.Go.Utf8.{runes, runes_loop, decode_rune}
use wl2k_go.Fbb.Error.{Ends}
use wl2k_go.Fbb.Transfer.{sum_bytes}
use wl2k_go.Fbb.Proposal.{Proposal, empty_proposal, proposal_line}
use wl2k_go.Fbb.Proposal.RoundTrip.{offered}
use wl2k_go.Fbb.Block.{prompted, proposal_lines, block_checksum, write_block, read_lines}
use wl2k_go.Fbb.Block.RoundTrip.{read_lines-write_block}
use wl2k_go.Fbb.Block.Progress.{proposals_of, Unanswered, read_lines-Ends}

abbrev pending : Proposal
pending = record empty_proposal {
  code = b'C';
  msg_type = codes "EM";
  mid = codes "TJKY";
  size = pos 527;
  compressed_size = pos 123;
}

block_run :
    write_block (pending ∷ []) ≡ codes "FC EM TJKY 527 123 0" ++ 13 ∷ (codes "F> 92" ++ 13 ∷ [])
unfolding write_block proposal_lines block_checksum proposal_line show_int digits show_hex2
    hex_digit runes runes_loop decode_rune sum_bytes
block_run = refl

read_lines-write_block_example :
    read_lines 2 (write_block (pending ∷ []) ++ codes "FF") 0 []
    ≡ ok (prompted (offered empty_proposal pending ∷ []), codes "FF")
read_lines-write_block_example =
    read_lines-write_block (pending ∷ []) 2 (codes "FF")
      (
        (
          record {
            b2_code = inl refl;
            known_type = inl refl;
            one_word = (refl, (refl, (refl, (refl, tt))));
            size_low = omega arith;
            size_high = omega arith;
            compressed_low = omega arith;
            compressed_high = omega arith;
          },
          (refl, (refl, (refl, (refl, tt)))),
        ),
        tt,
      )
      (omega arith)

read_lines-Ends_example :
    Ends
      (λ r. (length r.1 < 3) × Unanswered (proposals_of r.0))
      (read_lines 4 (codes "FF" ++ 13 ∷ []) 0 [])
read_lines-Ends_example = read_lines-Ends 4 (codes "FF" ++ 13 ∷ []) 0 [] (omega arith) tt
