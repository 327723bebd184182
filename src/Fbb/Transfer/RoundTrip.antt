-- ===== src/Fbb/Transfer/RoundTrip.antt =====
-- What writeCompressed sends, readCompressed takes in.
use wl2k_go.Prelude.{
  ℕ, suc, ◌+◌, ◌%◌, ◌^◌, ◌≤◌, ◌<◌, ◌≡◌, refl, ap, ◌∙◌, [], ◌∷◌, ◌++◌, Bytes, arith, ◌==◌,
  if◌then◌else◌, length, drop, append_assoc, length-append,
}
use wl2k_go.Prelude.Int.{ℤ, pos, eq_ℤ, eq_ℤ_refl, ◌≤ℤ◌}
use wl2k_go.Go.Result.{ok, err, ◌>>=◌}
use wl2k_go.Go.Strings.{Free, cut_at-append}
use wl2k_go.Go.Strconv.{show_int}
use wl2k_go.Go.Strconv.RoundTrip.{atoi-show_int, show_int-Free}
use wl2k_go.Go.Mime.{q_encode, q_encode-Free}
use wl2k_go.Fbb.Error.{Result, bad_checksum, length_mismatch}
use wl2k_go.Fbb.Proposal.{Proposal}
use wl2k_go.Fbb.Transfer.{
  done, write_blocks, write_header, write_data, write_compressed, negate_byte, chr_eot, chr_nul,
  Received, sum_bytes, read_end, read_blocks, check_header, read_header, read_data, read_compressed,
}
use wl2k_go.Fbb.Transfer.Blocks.{
  receive, receive_buf, receive_sum, read_blocks-write_blocks, write_blocks_checksum,
  length-write_blocks,
}

abbrev pub nothing : Received
nothing = record { buf = []; sum = 0 }

-- What the reader makes of the data of a message and a checksum byte.
unfoldable pub verdict : ℕ → Bytes → Bytes → Proposal → Result (Proposal × Bytes)
verdict k buffer rest q =
    if (sum_bytes 0 buffer + k) % 256 == 0
    then (if eq_ℤ q.compressed_size (pos (length buffer))
        then ok (record q { compressed_data = buffer }, rest)
        else err length_mismatch)
    else err bad_checksum

read_end-verdict :
    (k : ℕ) (buffer rest : Bytes) (q : Proposal)
    → (read_end q.compressed_size (k ∷ rest) (receive nothing buffer) >>= λ r.
        ok (record q { compressed_data = r.0 }, r.1))
      ≡ verdict k buffer rest q
unfolding read_end verdict
read_end-verdict k buffer rest q =
    ground (arith, receive_buf nothing buffer, receive_sum nothing buffer)

-- The blocks and the end mark, and what follows them.
abbrev pub body : Bytes → Bytes → Bytes
body buffer tail = (write_blocks (length buffer) buffer 0).0 ++ chr_eot ∷ tail

pub read_blocks-body :
    (buffer tail : Bytes) (size : ℤ)
    → read_blocks (suc (length (body buffer tail))) size (body buffer tail) nothing
      ≡ read_end size tail (receive nothing buffer)
read_blocks-body buffer tail size =
    read_blocks-write_blocks (length buffer) _ size buffer 0 tail nothing (omega arith) (
      omega (
        arith,
        length-write_blocks (length buffer) buffer 0 (omega arith),
        length-append (write_blocks (length buffer) buffer 0).0 (chr_eot ∷ tail),
      ))

-- Blocks and a checksum byte of any value, read back.
pub read_data-body :
    (decode : Bytes → Bytes) (k : ℕ) (buffer rest : Bytes) (q : Proposal)
    → read_data decode (body buffer (k ∷ rest)) q ≡ verdict k buffer rest q
unfolding read_data
read_data-body decode k buffer rest q =
    ap (λ m. m >>= λ r. ok (record q { compressed_data = r.0 }, r.1))
      (read_blocks-body buffer (k ∷ rest) q.compressed_size)
    ∙ read_end-verdict k buffer rest q

-- The checksum byte that is written is the one that is accepted.
read_data-written :
    (decode : Bytes → Bytes) (buffer rest : Bytes) (q : Proposal)
    → q.compressed_size ≡ pos (length buffer)
    → read_data decode
        (body buffer (negate_byte (write_blocks (length buffer) buffer 0).1 ∷ rest))
        q
      ≡ ok (record q { compressed_data = buffer }, rest)
unfolding verdict
read_data-written decode buffer rest q e =
    read_data-body decode _ buffer rest q
    ∙ rw (write_blocks_checksum (length buffer) buffer 0 (omega arith)) (ground (arith, e))

-- The header, read back.
pub read_header-write_header :
    (decode : Bytes → Bytes) (title offset rest : Bytes) (q : Proposal)
    → Free chr_nul title
    → Free chr_nul offset
    → length title + length offset + 2 < 256
    → check_header decode (length title + length offset + 2) title offset q
      ≡ ok (record q { title = decode title })
    → read_header decode
        ((length title + length offset + 2) % 256 ∷ (title ++ chr_nul ∷ (offset ++ chr_nul ∷ rest)))
        q
      ≡ ok (record q { title = decode title }, rest)
unfolding read_header
read_header-write_header decode title offset rest q ft fo fits e = ground (
  arith,
  cut_at-append chr_nul title (offset ++ chr_nul ∷ rest) ft,
  cut_at-append chr_nul offset rest fo,
)

pub check_header_ok :
    (decode : Bytes → Bytes) (title : Bytes) (n : ℕ) (q : Proposal)
    → n < 2 ^ 63
    → q.offset ≡ pos n
    → check_header decode (length title + length (show_int (pos n)) + 2) title (show_int (pos n)) q
      ≡ ok (record q { title = decode title })
unfolding check_header
check_header_ok decode title n q h e = ground (arith, atoi-show_int (pos n), eq_ℤ_refl (pos n))

write_data_append :
    (header buffer rest : Bytes)
    → write_data header buffer ++ rest
      ≡ header ++ body buffer (negate_byte (write_blocks (length buffer) buffer 0).1 ∷ rest)
unfolding write_data
write_data_append header buffer rest = simp append_assoc

write_compressed_done :
    (p : Proposal) (n : ℕ)
    → pos 6 ≤ℤ p.compressed_size
    → p.offset ≡ pos n
    → n ≤ length p.compressed_data
    → write_compressed p
      ≡ done (
          write_data
            (write_header (q_encode p.title) (show_int p.offset))
            (drop n p.compressed_data))
unfolding write_compressed
write_compressed_done p n big e fits = ground arith

pub read_compressed_soh :
    (decode : Bytes → Bytes) (s : Bytes) (q : Proposal)
    → read_compressed decode (1 ∷ s) q ≡ (read_header decode s q >>= λ r. read_data decode r.1 r.0)
unfolding read_compressed
read_compressed_soh decode s q = refl

header_append :
    (title offset s : Bytes)
    → write_header title offset ++ s
      ≡ 1 ∷ (length title + length offset + 2) % 256 ∷ (title ++ chr_nul ∷ (offset ++ chr_nul ∷ s))
header_append title offset s = simp append_assoc

-- A header that fits and names the expected offset is read to its end.
read_compressed-write_header :
    (decode : Bytes → Bytes) (title : Bytes) (n : ℕ) (s : Bytes) (q : Proposal)
    → Free chr_nul title
    → n < 2 ^ 63
    → length title + length (show_int (pos n)) + 2 < 256
    → q.offset ≡ pos n
    → read_compressed decode (write_header title (show_int (pos n)) ++ s) q
      ≡ read_data decode s (record q { title = decode title })
read_compressed-write_header decode title n s q free small fits e =
    rw (header_append title (show_int (pos n)) s) (
      read_compressed_soh decode _ q
      ∙ ap (λ m. m >>= λ r. read_data decode r.1 r.0)
          (read_header-write_header decode title (show_int (pos n)) s q free
            (show_int-Free 0 (pos n) (omega arith)) fits
            (check_header_ok decode title n q small e)))

-- Behind such a header, the blocks that the writer makes of any data, the end mark and any byte `k`
-- are accepted exactly if `k` and the data add up to a multiple of 256 and the data has the
-- expected size; otherwise the error is the bad checksum first, then the wrong length.
pub read_compressed-verdict :
    (decode : Bytes → Bytes) (title buffer rest : Bytes) (n k : ℕ) (q : Proposal)
    → Free chr_nul title
    → n < 2 ^ 63
    → length title + length (show_int (pos n)) + 2 < 256
    → q.offset ≡ pos n
    → read_compressed decode
        (write_header title (show_int (pos n))
          ++ ((write_blocks (length buffer) buffer 0).0 ++ chr_eot ∷ k ∷ rest))
        q
      ≡ verdict k buffer rest (record q { title = decode title })
read_compressed-verdict decode title buffer rest n k q free small fits e =
    read_compressed-write_header decode title n (body buffer (k ∷ rest)) q free small fits e
    ∙ read_data-body decode k buffer rest (record q { title = decode title })

read_end_unchecked :
    (buffer : Bytes) (size : ℤ)
    → sum_bytes 0 buffer % 256 ≡ 0
    → size ≡ pos (length buffer)
    → read_end size [] (receive nothing buffer) ≡ ok (buffer, [])
unfolding read_end
read_end_unchecked buffer size zero_sum e =
    ground (arith, receive_buf nothing buffer, receive_sum nothing buffer)

read_data_unchecked :
    (decode : Bytes → Bytes) (buffer : Bytes) (q : Proposal)
    → sum_bytes 0 buffer % 256 ≡ 0
    → q.compressed_size ≡ pos (length buffer)
    → read_data decode (body buffer []) q ≡ ok (record q { compressed_data = buffer }, [])
unfolding read_data
read_data_unchecked decode buffer q zero_sum e =
    ap (λ m. m >>= λ r. ok (record q { compressed_data = r.0 }, r.1))
      (read_blocks-body buffer [] q.compressed_size
        ∙ read_end_unchecked buffer q.compressed_size zero_sum e)

-- The checksum byte may be missing: if the connection ends behind the end mark, data of the expected
-- size whose bytes add up to a multiple of 256 is accepted.
pub read_compressed_unchecked :
    (decode : Bytes → Bytes) (title buffer : Bytes) (n : ℕ) (q : Proposal)
    → Free chr_nul title
    → n < 2 ^ 63
    → length title + length (show_int (pos n)) + 2 < 256
    → q.offset ≡ pos n
    → sum_bytes 0 buffer % 256 ≡ 0
    → q.compressed_size ≡ pos (length buffer)
    → read_compressed decode
        (write_header title (show_int (pos n))
          ++ ((write_blocks (length buffer) buffer 0).0 ++ chr_eot ∷ []))
        q
      ≡ ok (record q { title = decode title; compressed_data = buffer }, [])
read_compressed_unchecked decode title buffer n q free small fits e zero_sum size =
    read_compressed-write_header decode title n (body buffer []) q free small fits e
    ∙ read_data_unchecked decode buffer (record q { title = decode title }) zero_sum size

-- A message with at least six bytes of compressed data, sent from an offset inside that data under a
-- header of less than 256 bytes, is written without an error. A reader that expects that offset
-- and that many bytes accepts what was written, whatever follows it on the connection: it takes
-- exactly those bytes of data, the decoding of the encoded title, and nothing of what follows.
pub read_compressed-write_compressed :
    (decode : Bytes → Bytes) (p q : Proposal) (n : ℕ) (rest : Bytes)
    → pos 6 ≤ℤ p.compressed_size
    → n < 2 ^ 63
    → n ≤ length p.compressed_data
    → length (q_encode p.title) + length (show_int (pos n)) + 2 < 256
    → p.offset ≡ pos n
    → q.offset ≡ pos n
    → q.compressed_size ≡ pos (length (drop n p.compressed_data))
    → (out : Bytes) × (write_compressed p ≡ done out)
      × (read_compressed decode (out ++ rest) q
          ≡ ok (
            record q {
              title = decode (q_encode p.title);
              compressed_data = drop n p.compressed_data;
            },
            rest,
          ))
read_compressed-write_compressed decode p q n rest big small fits short po qo size =
    let buffer = drop n p.compressed_data in
    let header = write_header (q_encode p.title) (show_int p.offset) in
    (
      write_data header buffer,
      write_compressed_done p n big po fits,
      rw (po, write_data_append (write_header (q_encode p.title) (show_int (pos n))) buffer rest)
          (read_compressed-write_header decode (q_encode p.title) n _ q (q_encode-Free p.title)
              small short qo
            ∙ read_data-written decode buffer rest (record q { title = decode (q_encode p.title) })
                size),
    )
