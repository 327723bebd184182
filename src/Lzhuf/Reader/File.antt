-- ===== src/Lzhuf/Reader/File.antt =====
-- What Close of the writer puts before the compressed data, as NewReader reads it.
use wl2k_go.Prelude.{
  ℕ, zero, suc, ◌+◌, ◌-◌, ◌*◌, ◌/◌, ◌%◌, ◌^◌, ◌<◌, ◌≡◌, refl, ap, ◌∙◌, [], none, ◌++◌, Bytes, arith,
  Bool, true, false, ltb, if◌then◌else◌,
}
use wl2k_go.Prelude.Int.{pos}
use wl2k_go.Go.Result.{ok}
use wl2k_go.Lzhuf.Crc.{crc}
use wl2k_go.Lzhuf.Crc.Bounds.{crc_lt}
use wl2k_go.Lzhuf.Put.Stream.{AreBytes}
use wl2k_go.Lzhuf.Tree.{root, new_lzhuff}
use wl2k_go.Lzhuf.Search.{buffer_size, lookahead}
use wl2k_go.Lzhuf.Writer.{little_endian, file_bytes}
use wl2k_go.Lzhuf.Reader.{Reader, read_little_endian, sized_reader, new_reader}

read_little_endian-little_endian :
    (n x : ℕ) (s : Bytes) → x < 256 ^ n → read_little_endian n (little_endian n x ++ s) ≡ ok (x, s)
unfolding read_little_endian
read_little_endian-little_endian zero x s lt = ap (λ y. ok (y, s)) (omega arith)
read_little_endian-little_endian (suc n) x s lt =
    let e : 256 ^ suc n ≡ 256 ^ n * 256 = omega arith in
    let whole : x / 256 * 256 + x % 256 ≡ x = omega arith in
    rw (read_little_endian-little_endian n (x / 256) s (omega (arith, e)))
      (ap (λ y. ok (y, s)) whole)

AreBytes-little_endian : (n x : ℕ) (s : Bytes) → AreBytes s → AreBytes (little_endian n x ++ s)
AreBytes-little_endian zero x s h = h
AreBytes-little_endian (suc n) x s h = (omega arith, AreBytes-little_endian n (x / 256) s h)

-- A reader at the beginning of compressed data.
abbrev pub opened : Bool → ℕ → ℕ → ℕ → Bytes → Reader
opened crc16 header_crc sum size data' = record {
  bits = record { rest = data'; n = 0; bits = 0; failed = false };
  tree = new_lzhuff;
  text = λ i. if ltb i (buffer_size - lookahead) then b' ' else 0;
  crc16 = crc16;
  header_crc = header_crc;
  sum = sum;
  size = pos size;
  at = 0;
  r = buffer_size - root;
  buf = [];
  err = none;
}

sized_reader-ok :
    (crc16 : Bool) (header_crc size : ℕ) (s data' : Bytes)
    → size < 2147483648
    → read_little_endian 4 s ≡ ok (size, data')
    → sized_reader crc16 header_crc s ≡ ok (opened crc16 header_crc (crc s) size data')
unfolding sized_reader
sized_reader-ok crc16 header_crc size s data' lt e =
    let small : ltb size 0x80000000 ≡ true = ground arith in rw (sized_reader, e, small) refl

with_checksum :
    (s rest : Bytes) (sum : ℕ)
    → read_little_endian 2 s ≡ ok (sum, rest)
    → new_reader true s ≡ sized_reader true sum rest
unfolding new_reader
with_checksum s rest sum e = rw (new_reader, e) refl

-- The checksum that a file has in its header.
abbrev pub header_of : Bool → ℕ → ℕ
header_of crc16 sum = if crc16 then sum else 0

pub new_reader-file_bytes :
    (crc16 : Bool) (size : ℕ) (data' : Bytes)
    → size < 2147483648
    → AreBytes data'
    → (sum : ℕ) × (new_reader crc16 (file_bytes crc16 size data')
        ≡ ok (opened crc16 (header_of crc16 sum) sum size data'))
unfolding new_reader file_bytes
new_reader-file_bytes false size data' lt h =
    let sized = little_endian 4 size ++ data' in
    (
      crc sized,
      sized_reader-ok false 0 size sized data' lt
          (read_little_endian-little_endian 4 size data' (omega arith)),
    )
new_reader-file_bytes true size data' lt h =
    let sized = little_endian 4 size ++ data' in
    let sum = crc sized in
    let small = crc_lt sized (AreBytes-little_endian 4 size data' h) in
    (
      sum,
      with_checksum (little_endian 2 sum ++ sized) sized sum
            (read_little_endian-little_endian 2 sum sized (omega (arith, small)))
          ∙ sized_reader-ok true sum size sized data' lt
              (read_little_endian-little_endian 4 size data' (omega arith)),
    )
