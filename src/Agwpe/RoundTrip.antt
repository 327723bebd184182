-- ===== src/Agwpe/RoundTrip.antt =====
-- A frame that is written is read back, however its header is cut into pieces.
use wl2k_go.Prelude.{
  ℕ, zero, suc, ◌+◌, ◌-◌, ◌*◌, ◌/◌, ◌%◌, ◌^◌, ◌<◌, ◌≡◌, refl, sym, ap, ◌∙◌, true, List, [], ◌∷◌,
  ◌++◌, append_assoc, append-nil, Bytes, arith, leb, length, length-append, take, drop,
}
use wl2k_go.Go.Result.{ok, err, ◌>>=◌}
use wl2k_go.Go.Sort.{All}
use wl2k_go.Agwpe.{
  unexpected_eof, Chunks, Header, Frame, le32, write_header, write_frame, read_some, read_more,
  decode_header, read_header, read_frame,
}

unfoldable pub concat : List Bytes → Bytes
concat [] = []
concat (c ∷ cs) = c ++ concat cs

-- A piece of at least one byte.
abbrev pub IsPiece : Bytes → Type 0
IsPiece c = 0 < length c

-- A text as a piece, if it has a byte.
abbrev pub piece : Bytes → Chunks → Chunks
piece [] chunks = chunks
piece (x ∷ s) chunks = (x ∷ s) ∷ chunks

take-append : (a b : Bytes) → take (length a) (a ++ b) ≡ a
take-append [] b = refl
take-append (x ∷ a) b = ap (λ l. x ∷ l) (take-append a b)

drop-append : (a b : Bytes) → drop (length a) (a ++ b) ≡ b
drop-append [] b = refl
drop-append (x ∷ a) b = drop-append a b

read_more_whole :
    (done c : Bytes) (n : ℕ) (chunks : Chunks)
    → leb (length c) (suc n) ≡ true
    → read_more done (suc n) (c ∷ chunks) ≡ read_more (done ++ c) (suc n - length c) chunks
unfolding read_more
read_more_whole done c n chunks h = rw h refl

leb_add : (a n : ℕ) → leb a (a + n) ≡ true
leb_add a n = ground arith

-- A piece that is read as a whole.
read_more-piece :
    (done c : Bytes) (n : ℕ) (chunks : Chunks)
    → 0 < length c
    → read_more done (length c + n) (c ∷ chunks) ≡ read_more (done ++ c) n chunks
read_more-piece done [] n chunks h = absurd (omega arith)
read_more-piece done (x ∷ c) n chunks h =
    let cancel : suc (length c + n) - suc (length c) ≡ n = omega arith in
    let count : suc (length c) + n ≡ suc (length c + n) = omega arith in
    ap (λ k. read_more done k ((x ∷ c) ∷ chunks)) count
    ∙ read_more_whole done (x ∷ c) (length c + n) chunks
        (ap (leb (suc (length c))) (sym count) ∙ leb_add (suc (length c)) n)
    ∙ ap (λ k. read_more (done ++ x ∷ c) k chunks) cancel

-- The data may begin in the piece in which the header ends.
read_more-last :
    (done last payload : Bytes) (chunks : Chunks)
    → 0 < length last + length payload
    → read_more done (length last) ((last ++ payload) ∷ chunks)
      ≡ ok (done ++ last, piece payload chunks)
unfolding read_more
read_more-last done [] [] chunks h = absurd (omega arith)
read_more-last done [] (x ∷ payload) chunks h = rw (append-nil done) refl
read_more-last done (y ∷ last) [] chunks h =
    let whole : length (y ∷ last) ≡ length (y ∷ last) + 0 = omega arith in
    ap (λ l. read_more done (length (y ∷ last)) (l ∷ chunks)) (append-nil (y ∷ last))
    ∙ ap (λ k. read_more done k ((y ∷ last) ∷ chunks)) whole
    ∙ read_more-piece done (y ∷ last) 0 chunks (omega arith)
    ∙ unfold read_more in refl
read_more-last done (y ∷ last) (x ∷ payload) chunks h = ground (
  arith,
  length-append last (x ∷ payload),
  take-append last (x ∷ payload),
  drop-append last (x ∷ payload),
)

read_more-pieces :
    (pieces : List Bytes) (done last payload : Bytes) (chunks : Chunks)
    → All IsPiece pieces
    → 0 < length last + length payload
    → read_more done (length (concat pieces ++ last)) (pieces ++ (last ++ payload) ∷ chunks)
      ≡ ok (done ++ (concat pieces ++ last), piece payload chunks)
unfolding concat
read_more-pieces [] done last payload chunks h lt = read_more-last done last payload chunks lt
read_more-pieces (c ∷ pieces) done last payload chunks h lt =
    ap (λ k. read_more done k (c ∷ (pieces ++ (last ++ payload) ∷ chunks)))
      (ap length (append_assoc c (concat pieces) last) ∙ length-append c (concat pieces ++ last))
    ∙ read_more-piece done c (length (concat pieces ++ last)) (pieces ++ (last ++ payload) ∷ chunks)
        h.0
    ∙ read_more-pieces pieces (done ++ c) last payload chunks h.1 lt
    ∙ ap (λ l. ok (l, piece payload chunks))
        (append_assoc done c (concat pieces ++ last)
          ∙ ap (λ l. done ++ l) (sym (append_assoc c (concat pieces) last)))

le32_value :
    (n : ℕ)
    → n < 2 ^ 32
    → n % 256 + 256 * (n / 256 % 256) + 65536 * (n / 65536 % 256) + 16777216 * (n / 16777216 % 256)
      ≡ n
le32_value n h = omega arith

drop_add : (a b : Bytes) (n : ℕ) → drop (length a + n) (a ++ b) ≡ drop n b
drop_add [] b n = let e : 0 + n ≡ n = omega arith in ap (λ k. drop k b) e
drop_add (x ∷ a) b n =
    let e : suc (length a) + n ≡ suc (length a + n) = omega arith in
    ap (λ k. drop k (x ∷ (a ++ b))) e ∙ drop_add a b n

-- The fields behind both callsigns.
drop_fields :
    (a b r : Bytes) (n : ℕ)
    → length a ≡ 10
    → length b ≡ 10
    → drop (20 + n) (a ++ (b ++ r)) ≡ drop n r
drop_fields a b r n h k =
    ap (λ m. drop m (a ++ (b ++ r))) (sum (length a) (length b) h k)
    ∙ drop_add a (b ++ r) (length b + n)
    ∙ drop_add b r n
  where
    sum : (x y : ℕ) → x ≡ 10 → y ≡ 10 → 20 + n ≡ x + (y + n)
    sum x y h k = omega arith

pub take_field : (a r : Bytes) → length a ≡ 10 → take 10 (a ++ r) ≡ a
take_field a r h = ap (λ n. take n (a ++ r)) (sym h) ∙ take-append a r

pub drop_field : (a r : Bytes) → length a ≡ 10 → drop 10 (a ++ r) ≡ r
drop_field a r h = ap (λ n. drop n (a ++ r)) (sym h) ∙ drop-append a r

-- The fields of a header that fit.
pub record IsHeader (h : Header) : Type 0 where
  pub from_fits : length h.from ≡ 10
  pub to_fits : length h.to ≡ 10
  pub length_fits : h.data_len < 2 ^ 32

decode_header-write_header : (h : Header) → IsHeader h → decode_header (write_header h) ≡ h
unfolding decode_header write_header
decode_header-write_header h k =
    let rest = le32 h.data_len ++ (0 ∷ 0 ∷ 0 ∷ 0 ∷ []) in
    rw
      (
        take_field h.from (h.to ++ rest) k.from_fits,
        drop_field h.from (h.to ++ rest) k.from_fits,
        take_field h.to rest k.to_fits,
        drop_fields h.from h.to rest 0 k.from_fits k.to_fits,
        drop_fields h.from h.to rest 1 k.from_fits k.to_fits,
        drop_fields h.from h.to rest 2 k.from_fits k.to_fits,
        drop_fields h.from h.to rest 3 k.from_fits k.to_fits,
      )
      (ap (λ n. record h { data_len = n }) (le32_value h.data_len k.length_fits))

length-write_header : (h : Header) → IsHeader h → length (write_header h) ≡ 36
unfolding write_header
length-write_header h k =
    let rest = le32 h.data_len ++ (0 ∷ 0 ∷ 0 ∷ 0 ∷ []) in
    omega
      (arith, length-append h.from (h.to ++ rest), length-append h.to rest, k.from_fits, k.to_fits)

read_header-pieces :
    (h : Header) (pieces : List Bytes) (last payload : Bytes) (chunks : Chunks)
    → IsHeader h
    → All IsPiece pieces
    → concat pieces ++ last ≡ write_header h
    → 0 < length last + length payload
    → read_header (pieces ++ (last ++ payload) ∷ chunks) ≡ ok (h, piece payload chunks)
unfolding read_header
read_header-pieces h pieces last payload chunks k whole e lt =
    let size : 36 ≡ length (concat pieces ++ last) = sym (ap length e ∙ length-write_header h k) in
    ap
      (λ n.
        read_more [] n (pieces ++ (last ++ payload) ∷ chunks) >>= λ r. ok (decode_header r.0, r.1))
      size
    ∙ ap (λ m. m >>= λ r. ok (decode_header r.0, r.1))
        (read_more-pieces pieces [] last payload chunks whole lt)
    ∙ ap (λ b. ok (b, piece payload chunks)) (ap decode_header e ∙ decode_header-write_header h k)

read_some-piece :
    (payload : Bytes) (chunks : Chunks)
    → read_some (length payload) (piece payload chunks) ≡ ok (payload, chunks)
unfolding read_some
read_some-piece [] chunks = refl
read_some-piece (x ∷ s) chunks = ground arith

read_some_short :
    (first : Bytes) (n : ℕ) (chunks : Chunks)
    → 0 < length first
    → length first < n
    → read_some n (piece first chunks) ≡ ok (first, chunks)
unfolding read_some
read_some_short [] n chunks h lt = absurd (omega arith)
read_some_short (x ∷ s) zero chunks h lt = absurd (omega arith)
read_some_short (x ∷ s) (suc n) chunks h lt = ground arith

-- The frame with the length of its data.
abbrev pub sent : Frame → Frame
sent f = record f { header = record f.header { data_len = length f.payload } }

-- What has to hold of a frame for its fields to fit.
abbrev pub IsFrame : Frame → Type 0
IsFrame f = IsHeader (record f.header { data_len = length f.payload })

take-write_frame : (f : Frame) → IsFrame f → take 36 (write_frame f) ≡ write_header (sent f).header
unfolding write_frame
take-write_frame f k =
    let size : length f.payload % 2 ^ 32 ≡ length f.payload = omega (arith, k.length_fits) in
    ap (λ n. take 36 (write_header (record f.header { data_len = n }) ++ f.payload)) size
    ∙ ap (λ n. take n (write_header (sent f).header ++ f.payload))
        (sym (length-write_header (sent f).header k))
    ∙ take-append (write_header (sent f).header) f.payload

-- A frame whose fields fit is read back with the length of its data, and what follows it is left, if its 36
-- bytes of header arrive in any pieces and its data in one, which may be the one in which the header
-- ends.
pub read_frame-write_frame :
    (f : Frame) (pieces : List Bytes) (last : Bytes) (chunks : Chunks)
    → IsFrame f
    → All IsPiece pieces
    → concat pieces ++ last ≡ take 36 (write_frame f)
    → 0 < length last + length f.payload
    → read_frame (pieces ++ (last ++ f.payload) ∷ chunks) ≡ ok (sent f, chunks)
unfolding read_frame
read_frame-write_frame f pieces last chunks k whole e lt = ground (
  arith,
  read_header-pieces (sent f).header pieces last f.payload chunks k whole (e ∙ take-write_frame f k)
      lt,
  read_some-piece f.payload chunks,
)

-- The data of such a frame is refused as an unexpected end if it arrives in two pieces, though all of it
-- arrives.
pub read_frame_split :
    (f : Frame) (pieces : List Bytes) (last first second : Bytes) (chunks : Chunks)
    → IsFrame f
    → All IsPiece pieces
    → concat pieces ++ last ≡ take 36 (write_frame f)
    → f.payload ≡ first ++ second
    → 0 < length first
    → 0 < length second
    → read_frame (pieces ++ (last ++ first) ∷ second ∷ chunks) ≡ err unexpected_eof
unfolding read_frame
read_frame_split f pieces last first second chunks k whole e split lt lt' =
    let size = ap length split ∙ length-append first second in
    ground (
      arith,
      read_header-pieces (sent f).header pieces last first (second ∷ chunks) k whole
          (e ∙ take-write_frame f k) (omega arith),
      read_some_short first (length f.payload) (second ∷ chunks) lt (omega (arith, size)),
      size,
    )
