-- ===== src/Fbb/Proposal/RoundTrip.antt =====
-- The line that offers a proposal, read back.
use wl2k_go.Prelude.{
  ℕ, ◌-◌, ◌^◌, ◌≡◌, refl, ◌∙◌, ◌⊎◌, inl, inr, true, false, ◌||◌, List, [], ◌∷◌, ◌++◌, Bytes, arith,
  ltb, ◌==◌, length, length-append, drop,
}
use wl2k_go.Prelude.Int.{pos, negsuc, ◌≤ℤ◌}
use wl2k_go.Go.Result.{ok}
use wl2k_go.Go.Strings.{codes, Free, split, split-append, split_word}
use wl2k_go.Go.Strconv.{atoi, show_int}
use wl2k_go.Go.Strconv.RoundTrip.{atoi-show_int, show_int-Free}
use wl2k_go.Fbb.Proposal.{
  Proposal, wl2k_proposal, gzip_proposal, parse_parts, parse_b2_proposal, parse_coded, second,
  parse_proposal, proposal_line,
}

-- A proposal that the B2 protocol can offer.
pub record IsOffered (p : Proposal) : Type 0 where
  pub b2_code : (p.code ≡ wl2k_proposal) ⊎ (p.code ≡ gzip_proposal)
  pub known_type : (p.msg_type ≡ codes "EM") ⊎ (p.msg_type ≡ codes "CM")
  pub one_word : Free b' ' p.mid
  pub size_low : negsuc (2 ^ 63 - 1) ≤ℤ p.size
  pub size_high : p.size ≤ℤ pos (2 ^ 63 - 1)
  pub compressed_low : negsuc (2 ^ 63 - 1) ≤ℤ p.compressed_size
  pub compressed_high : p.compressed_size ≤ℤ pos (2 ^ 63 - 1)

-- The five words behind the code.
abbrev words : Proposal → List Bytes
words p = p.msg_type ∷ p.mid ∷ show_int p.size ∷ show_int p.compressed_size ∷ (b'0' ∷ []) ∷ []

type-Free : (t : Bytes) → (t ≡ codes "EM") ⊎ (t ≡ codes "CM") → Free b' ' t
type-Free t (inl e) = rw e (refl, (refl, tt))
type-Free t (inr e) = rw e (refl, (refl, tt))

split-line : (p : Proposal) → IsOffered p → split b' ' (drop 3 (proposal_line p)) ≡ words p
unfolding proposal_line
split-line p h = rw (
  split-append b' ' p.msg_type _ (type-Free p.msg_type h.known_type),
  split-append b' ' p.mid _ h.one_word,
  split-append b' ' (show_int p.size) _ (show_int-Free b' ' p.size (omega arith)),
  split-append b' ' (show_int p.compressed_size) _
      (show_int-Free b' ' p.compressed_size (omega arith)),
  split_word b' ' (b'0' ∷ []) (refl, tt),
)

-- The proposal that the other side makes of the line.
abbrev pub offered : Proposal → Proposal → Proposal
offered q p = record q {
  code = p.code;
  msg_type = p.msg_type;
  mid = p.mid;
  size = p.size;
  compressed_size = p.compressed_size;
}

parse_parts_type :
    (t : Bytes) (parts : List Bytes) (q : Proposal)
    → (t ≡ codes "EM") ⊎ (t ≡ codes "CM")
    → parse_parts 0 (t ∷ parts) q ≡ parse_parts 1 parts (record q { msg_type = t })
unfolding parse_parts
parse_parts_type t parts q (inl e) = rw e
parse_parts_type t parts q (inr e) = rw e

parse_parts_rest :
    (mid size compressed last : Bytes) (q : Proposal)
    → parse_parts 1 (mid ∷ size ∷ compressed ∷ last ∷ []) q
      ≡ ok (record q { mid = mid; size = (atoi size).0; compressed_size = (atoi compressed).0 })
unfolding parse_parts
parse_parts_rest mid size compressed last q = refl

parse_parts-words :
    (q p : Proposal)
    → IsOffered p
    → parse_parts 0 (words p) (record q { code = p.code }) ≡ ok (offered q p)
parse_parts-words q p h =
    parse_parts_type p.msg_type _ (record q { code = p.code }) h.known_type
    ∙ parse_parts_rest p.mid (show_int p.size) (show_int p.compressed_size) (b'0' ∷ []) _
    ∙ rw (
      atoi-show_int p.size h.size_low h.size_high,
      atoi-show_int p.compressed_size h.compressed_low h.compressed_high,
    )

four_bytes : (a b c d : ℕ) (t s : Bytes) → ltb (length (a ∷ b ∷ c ∷ (t ++ d ∷ s))) 4 ≡ false
four_bytes a b c d t s = ground (arith, length-append t (d ∷ s))

long_line : (p : Proposal) → ltb (length (proposal_line p)) 4 ≡ false
unfolding proposal_line
long_line p = four_bytes b'F' p.code b' ' b' ' p.msg_type _

second-line : (p : Proposal) → second (proposal_line p) ≡ p.code
unfolding proposal_line
second-line p = refl

code_test :
    (p : Proposal) → IsOffered p → (p.code == wl2k_proposal || p.code == gzip_proposal) ≡ true
code_test p h = ground (arith, h.b2_code)

parse_b2_proposal-line :
    (q p : Proposal)
    → IsOffered p
    → parse_b2_proposal (proposal_line p) (record q { code = p.code }) ≡ ok (offered q p)
unfolding parse_b2_proposal
parse_b2_proposal-line q p h =
    rw (long_line p, second-line p, code_test p h, split-line p h, parse_parts-words q p h)

parse_coded-line :
    (q p : Proposal) → IsOffered p → parse_coded p.code (proposal_line p) q ≡ ok (offered q p)
unfolding parse_coded
parse_coded-line q p h = ground (arith, h.b2_code, parse_b2_proposal-line q p h)

parse_proposal-coded :
    (q p : Proposal) → parse_proposal (proposal_line p) q ≡ parse_coded p.code (proposal_line p) q
unfolding parse_proposal proposal_line
parse_proposal-coded q p = refl

-- The line that `sendOutbound` prints for a proposal of the B2 protocol is parsed back to its code,
-- type, message id and both sizes; all other fields stay what they were in `q`.
pub parse_proposal-proposal_line :
    (q p : Proposal) → IsOffered p → parse_proposal (proposal_line p) q ≡ ok (offered q p)
parse_proposal-proposal_line q p h = parse_proposal-coded q p ∙ parse_coded-line q p h
