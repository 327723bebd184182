-- ===== src/Fbb/Block.antt =====
-- fbb/b2f.go, the lines of a block of proposals: those that sendOutbound prints before it waits for
-- the answer, and the loop of handleInbound that reads them.
pub mod RoundTrip
pub mod Progress
mod Tests
use wl2k_go.Prelude.{
  ℕ, zero, suc, ◌+◌, ◌-◌, ◌%◌, Bool, true, false, not, ◌&&◌, ◌||◌, List, [], ◌∷◌, ◌++◌, Bytes, ltb,
  ◌==◌, if◌then◌else◌, length, drop,
}
use wl2k_go.Prelude.Int.{ℤ, pos, eq_ℤ}
use wl2k_go.Go.Result.{ok, err, panic, ◌>>=◌}
use wl2k_go.Go.Strings.{codes}
use wl2k_go.Go.Strconv.{parse_int, show_hex2}
use wl2k_go.Go.Utf8.{runes}
use wl2k_go.Fbb.Error.{
  Error, Result, unexpected_line, checksum_mismatch, unknown_command, out_of_fuel,
}
use wl2k_go.Fbb.Line.{next_line}
use wl2k_go.Fbb.Transfer.{sum_bytes, negate_byte}
use wl2k_go.Fbb.Proposal.{Proposal, empty_proposal, second, parse_proposal, proposal_line}

-- The checksum behind one more line: its runes and the carriage return.
abbrev pub add_line : ℕ → Bytes → ℕ
add_line checksum line = sum_bytes checksum (runes line) + 13

unfoldable pub block_checksum : ℕ → List Proposal → ℕ
block_checksum checksum [] = checksum
block_checksum checksum (p ∷ ps) = block_checksum (add_line checksum (proposal_line p)) ps

unfoldable pub proposal_lines : List Proposal → Bytes
proposal_lines [] = []
proposal_lines (p ∷ ps) = proposal_line p ++ 13 ∷ proposal_lines ps

-- "F> %02X\r"
abbrev pub prompt_line : ℕ → Bytes
prompt_line checksum = codes "F> " ++ show_hex2 (negate_byte checksum)

-- What `sendOutbound` prints for the proposals.
unfoldable pub write_block : List Proposal → Bytes
write_block ps = proposal_lines ps ++ (prompt_line (block_checksum 0 ps) ++ 13 ∷ [])

-- The commands that the second byte of a line stands for.
pub data Command : Type 0 where
  proposal no_more quit prompt unknown : Command

unfoldable pub command : ℕ → Command
command c =
    if c == b'A' || c == b'B' || c == b'C' || c == b'D'
    then proposal
    else (if c == b'F'
        then no_more
        else (if c == b'Q' then quit else (if c == b'>' then prompt else unknown)))

-- How the loop ends: with no more messages, a quit, or a prompt for the answer; with the proposals
-- that it has read.
pub data BlockEnd : Type 0 where
  finished quitting prompted : List Proposal → BlockEnd

-- The checksum of a prompt line, against ours; the line has no third byte to cut at if it is short.
unfoldable pub read_prompt : Bytes → Bytes → ℕ → List Proposal → Result (BlockEnd × Bytes)
read_prompt line rest checksum props =
    if ltb (length line) 3
    then panic
    else (let their = (parse_int 16 (drop 3 line)).0 in
        if eq_ℤ their (pos (negate_byte checksum))
        then ok (prompted props, rest)
        else err (checksum_mismatch (negate_byte checksum) their))

-- `line == "" || line[0] == ';'`
abbrev pub is_ignored : Bytes → Bool
is_ignored [] = true
is_ignored (c ∷ s) = c == b';'

-- `len(line) < 2 || line[0] != 'F'`
abbrev pub is_unexpected : Bytes → Bool
is_unexpected [] = true
is_unexpected (c ∷ []) = true
is_unexpected (c ∷ d ∷ s) = not (c == b'F')

-- The loop. Every line takes a byte at least.
unfoldable pub read_lines : ℕ → Bytes → ℕ → List Proposal → Result (BlockEnd × Bytes)
read_lines zero s checksum props = err out_of_fuel
read_lines (suc f) s checksum props = next_line s >>= λ r.
    let (line, rest) = r in
    let skip = read_lines f rest checksum props in
    let offer = parse_proposal line empty_proposal >>= λ p.
    read_lines f rest (add_line checksum line) (props ++ (p ∷ [])) in
    if is_ignored line
    then skip
    else (if is_unexpected line then err (unexpected_line line) else elim (command (second line)) [
      | proposal ↦ offer
      | no_more ↦ ok (finished props, rest)
      | quit ↦ ok (quitting props, rest)
      | prompt ↦ read_prompt line rest checksum props
      | unknown ↦ err (unknown_command (second line))
    ])
