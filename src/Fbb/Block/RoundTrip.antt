-- ===== src/Fbb/Block/RoundTrip.antt =====
-- A block of proposals, read back with its checksum.
use wl2k_go.Prelude.{
  ℕ, zero, suc, ◌%◌, ◌/◌, ◌<◌, ◌≡◌, refl, sym, ap, ◌∙◌, inl, inr, false, List, [], ◌∷◌, ◌++◌, map,
  Bytes, arith, ◌==◌, length, append_assoc, append-nil,
}
use wl2k_go.Prelude.Int.{pos, eq_ℤ_refl}
use wl2k_go.Go.Result.{ok}
use wl2k_go.Go.Strings.{Free, Free-append}
use wl2k_go.Go.Sort.{All}
use wl2k_go.Go.Strconv.{show_hex2, hex_digit, show_int}
use wl2k_go.Go.Strconv.RoundTrip.{parse_int-show_hex2, show_int-Free}
use wl2k_go.Fbb.Line.{next_line}
use wl2k_go.Fbb.Line.Clean.{line_of, IsGraphic, next_line-line}
use wl2k_go.Fbb.Transfer.{negate_byte}
use wl2k_go.Fbb.Proposal.{Proposal, empty_proposal, second, proposal_line}
use wl2k_go.Fbb.Proposal.RoundTrip.{IsOffered, offered, parse_proposal-proposal_line}
use wl2k_go.Fbb.Block.{
  add_line, block_checksum, proposal_lines, prompt_line, write_block, command, proposal, prompted,
  read_prompt, is_ignored, is_unexpected, read_lines,
}

-- A proposal that fits on a line.
abbrev pub IsPrintable : Proposal → Type 0
IsPrintable p = IsOffered p × Free 13 p.mid

-- The line between its first and last byte.
abbrev middle : Proposal → Bytes
middle p =
    p.code
    ∷ b' '
    ∷ (p.msg_type
        ++ b' '
          ∷ (p.mid ++ b' ' ∷ (show_int p.size ++ b' ' ∷ (show_int p.compressed_size ++ b' ' ∷ []))))

line_form : (p : Proposal) → proposal_line p ≡ line_of b'F' (middle p) b'0'
unfolding proposal_line
line_form p = simp append_assoc

Free-cons-append :
    (c d : ℕ) (xs ys : Bytes) → (d == c) ≡ false → Free c xs → Free c ys → Free c (xs ++ d ∷ ys)
Free-cons-append c d xs ys h f g = Free-append c xs (d ∷ ys) f (h, g)

line-Free : (p : Proposal) → IsPrintable p → Free 13 (proposal_line p)
unfolding proposal_line
line-Free p h = (
  refl,
  (
    ground (arith, h.0.b2_code),
    (
      refl,
      Free-cons-append 13 b' ' p.msg_type _ refl (type_ok p h.0) (
          Free-cons-append 13 b' ' p.mid _ refl h.1 (
            Free-cons-append 13 b' ' (show_int p.size) _ refl
              (show_int-Free 13 p.size (omega arith))
              (Free-cons-append 13 b' ' (show_int p.compressed_size) _ refl
                (show_int-Free 13 p.compressed_size (omega arith)) (refl, tt)))),
    ),
  ),
)
  where
    type_ok : (p : Proposal) → IsOffered p → Free 13 p.msg_type
    type_ok p h = elim h.known_type [
      | inl e ↦ rw e (refl, (refl, tt))
      | inr e ↦ rw e (refl, (refl, tt))
    ]

next_line-proposal :
    (p : Proposal) (rest : Bytes)
    → IsPrintable p
    → next_line (proposal_line p ++ 13 ∷ rest) ≡ ok (proposal_line p, rest)
next_line-proposal p rest h = rw (line_form p) (
    next_line-line b'F' (middle p) b'0' rest (omega arith) (omega arith) (omega arith)
      (rw (line_form p) at (line-Free p h)))

command_code : (p : Proposal) → IsOffered p → command p.code ≡ proposal
unfolding command
command_code p h = ground (arith, h.b2_code)

read_lines-proposal :
    (f : ℕ) (p : Proposal) (rest : Bytes) (checksum : ℕ) (props : List Proposal)
    → IsPrintable p
    → read_lines (suc f) (proposal_line p ++ 13 ∷ rest) checksum props
      ≡ read_lines f rest
          (add_line checksum (proposal_line p))
          (props ++ (offered empty_proposal p ∷ []))
unfolding read_lines
read_lines-proposal f p rest checksum props h = ground (
  arith,
  next_line-proposal p rest h,
  parse_proposal-proposal_line empty_proposal p h.0,
  command_code p h.0,
  tests_pass p,
)
  where
    tests_pass :
        (p : Proposal)
        → (is_ignored (proposal_line p) ≡ false)
          × (is_unexpected (proposal_line p) ≡ false)
          × (second (proposal_line p) ≡ p.code)
    tests_pass p = unfold proposal_line in (refl, refl, refl)

hex_digit-IsGraphic : (d : ℕ) → d < 16 → IsGraphic (hex_digit d)
unfolding hex_digit
hex_digit-IsGraphic d h = ground arith

next_line-prompt :
    (checksum : ℕ) (rest : Bytes)
    → next_line (prompt_line checksum ++ 13 ∷ rest) ≡ ok (prompt_line checksum, rest)
unfolding show_hex2
next_line-prompt checksum rest =
    let n = negate_byte checksum in
    next_line-line b'F' (b'>' ∷ b' ' ∷ hex_digit (n / 16) ∷ []) (hex_digit (n % 16)) rest
      (omega arith) (hex_digit-IsGraphic (n % 16) (omega arith)) (omega arith)
      (
        refl,
        (
          refl,
          (
            refl,
            (
              ground (arith, hex_digit-IsGraphic (n / 16) (omega arith)),
              (ground (arith, hex_digit-IsGraphic (n % 16) (omega arith)), tt),
            ),
          ),
        ),
      )

read_prompt-prompt_line :
    (rest : Bytes) (checksum : ℕ) (props : List Proposal)
    → read_prompt (prompt_line checksum) rest checksum props ≡ ok (prompted props, rest)
unfolding read_prompt
read_prompt-prompt_line rest checksum props = ground (
  arith,
  parse_int-show_hex2 (negate_byte checksum) (omega arith),
  eq_ℤ_refl (pos (negate_byte checksum)),
)

read_lines-prompt :
    (f : ℕ) (rest : Bytes) (checksum : ℕ) (props : List Proposal)
    → read_lines (suc f) (prompt_line checksum ++ 13 ∷ rest) checksum props
      ≡ ok (prompted props, rest)
unfolding read_lines command
read_lines-prompt f rest checksum props =
    ground (arith, next_line-prompt checksum rest, read_prompt-prompt_line rest checksum props)

read_lines-lines :
    (ps : List Proposal) (f : ℕ) (rest : Bytes) (checksum : ℕ) (props : List Proposal)
    → All IsPrintable ps
    → length ps < f
    → read_lines f
        (proposal_lines ps ++ (prompt_line (block_checksum checksum ps) ++ 13 ∷ rest))
        checksum
        props
      ≡ ok (prompted (props ++ map (offered empty_proposal) ps), rest)
unfolding proposal_lines block_checksum
read_lines-lines ps zero rest checksum props h lt = absurd (omega arith)
read_lines-lines [] (suc f) rest checksum props h lt =
    read_lines-prompt f rest checksum props
    ∙ ap (λ l. ok (prompted l, rest)) (sym (append-nil props))
read_lines-lines (p ∷ ps) (suc f) rest checksum props h lt =
    let tail = prompt_line (block_checksum (add_line checksum (proposal_line p)) ps) ++ 13 ∷ rest in
    ap (λ l. read_lines (suc f) l checksum props)
      (append_assoc (proposal_line p) (13 ∷ proposal_lines ps) tail)
    ∙ read_lines-proposal f p (proposal_lines ps ++ tail) checksum props h.0
    ∙ read_lines-lines ps f rest (add_line checksum (proposal_line p))
        (props ++ (offered empty_proposal p ∷ [])) h.1 (omega arith)
    ∙ ap (λ l. ok (prompted l, rest))
        (append_assoc props (offered empty_proposal p ∷ []) (map (offered empty_proposal) ps))

-- A block of B2 proposals whose message ids hold no space and no carriage return is read back, with its
-- checksum, whatever follows it: the receiver comes to the prompt with the same proposals in the
-- same order, each with the code, type, message id and sizes that were sent.
pub read_lines-write_block :
    (ps : List Proposal) (f : ℕ) (rest : Bytes)
    → All IsPrintable ps
    → length ps < f
    → read_lines f (write_block ps ++ rest) 0 []
      ≡ ok (prompted (map (offered empty_proposal) ps), rest)
unfolding write_block
read_lines-write_block ps f rest h lt =
    ap (λ l. read_lines f l 0 [])
      (append_assoc (proposal_lines ps) (prompt_line (block_checksum 0 ps) ++ 13 ∷ []) rest
        ∙ ap (λ l. proposal_lines ps ++ l)
            (append_assoc (prompt_line (block_checksum 0 ps)) (13 ∷ []) rest))
    ∙ read_lines-lines ps f rest 0 [] h lt
