-- ===== src/Lzhuf/Read/Stream.antt =====
-- `ReadBits64` takes the next bits of the stream, in their order.
use wl2k_go.Prelude.{
  ℕ, zero, suc, ◌+◌, ◌-◌, ◌*◌, ◌/◌, ◌%◌, ◌^◌, ◌≤◌, ◌<◌, ◌≡◌, refl, sym, ap, ◌∙◌, Bool, true, false,
  List, [], ◌∷◌, ◌++◌, Bytes, append_assoc, arith, bit_or, ltb, ltb→lt, Bool-cases, inl, inr,
  length, length-append, ◌⊎◌,
}
use native.Mathlib.Nat.{mod-lt}
use wl2k_go.Lzhuf.Bits.{shl_pos, shr, shl, bits_of, bits_of-split, bits_of-shl_add, shr-shl_add}
use wl2k_go.Lzhuf.Or.{bit_or-shl}
use wl2k_go.Lzhuf.Put.Stream.{stream, AreBytes, times-256, word_bits, uint-shl}
use wl2k_go.Lzhuf.Put.{uint}
use wl2k_go.Lzhuf.Read.{BitReader, fill, read_bits}

-- The bits that are still to be read.
abbrev pub ahead : BitReader → List ℕ
ahead r = bits_of r.bits r.n ++ stream r.rest

byte_narrow : (b : ℕ) → b < 256 → shr b 8 ≡ 0
unfolding shr
byte_narrow b h = omega arith

-- A byte behind the bits of a word that has room for it.
push_byte :
    (n k b : ℕ)
    → k + 8 ≤ 64
    → b < 256
    → bits_of (k + 8) (bit_or (n * 256 % 2 ^ 64) b) ≡ bits_of k n ++ bits_of 8 b
unfolding shl
push_byte n k b room small =
    let low = n % shl 1 56 in
    let word : bit_or (n * 256 % 2 ^ 64) b ≡ shl low 8 + b =
      ap (λ x. bit_or x b) (ap uint (times-256 0 n) ∙ uint-shl 8 56 n (omega arith))
      ∙ bit_or-shl 8 low b (byte_narrow b small) in
    let order : k + 8 ≡ 8 + k = omega arith in
    ap (λ j. bits_of j (bit_or (n * 256 % 2 ^ 64) b)) order
    ∙ ap (bits_of (8 + k)) word
    ∙ bits_of-split k 8 (shl low 8 + b)
    ∙ ap (λ x. bits_of k x ++ bits_of 8 (shl low 8 + b)) (shr-shl_add 8 low b (byte_narrow b small))
    ∙ ap (λ x. bits_of k low ++ x) (bits_of-shl_add 8 low b)
    ∙ ap (λ x. x ++ bits_of 8 b) (word_bits k 56 n (omega arith))

fill_step :
    (f want : ℕ) (r : BitReader) (b : ℕ) (rest : Bytes)
    → r.rest ≡ b ∷ rest
    → r.bits < want
    → fill (suc f) want r
      ≡ fill f want (record r { rest = rest; n = bit_or (r.n * 256 % 2 ^ 64) b; bits = r.bits + 8 })
unfolding fill
fill_step f want r b rest e h = ground (arith, e)

fill_stop : (f want : ℕ) (r : BitReader) → ltb r.bits want ≡ false → fill f want r ≡ (r, true)
unfolding fill
fill_stop zero want r h = refl
fill_stop (suc f) want r h = ground (arith, h)

Bytes-cases : (s : Bytes) → (s ≡ []) ⊎ ((b : ℕ) × (rest : Bytes) × (s ≡ b ∷ rest))
Bytes-cases [] = inl refl
Bytes-cases (b ∷ rest) = inr (b, rest, refl)

-- With a round for each bit that is missing, and enough bytes, the bits are there, and the stream is what
-- it was.
pub record Filled (want : ℕ) (r : BitReader) (q : BitReader × Bool) : Type 0 where
  pub done : q.1 ≡ true
  pub enough : want ≤ q.0.bits
  pub same : ahead q.0 ≡ ahead r
  pub fine : q.0.failed ≡ r.failed
  pub bytes : AreBytes q.0.rest

fill-Filled :
    (f want : ℕ) (r : BitReader)
    → want ≤ r.bits + f
    → want ≤ 57
    → AreBytes r.rest
    → want ≤ r.bits + 8 * length r.rest
    → Filled want r (fill f want r)
unfolding stream
fill-Filled zero want r h small bytes there =
    rw (fill_stop zero want r (ground arith))
      (record { done = refl; enough = omega arith; same = refl; fine = refl; bytes = bytes })
fill-Filled (suc f) want r h small bytes there = elim (Bool-cases (ltb r.bits want)) [
  | inr e ↦
      rw (fill_stop (suc f) want r e)
        (record { done = refl; enough = ground arith; same = refl; fine = refl; bytes = bytes })
  | inl e ↦ elim (Bytes-cases r.rest) [
    | inl n ↦ absurd (ground (arith, n))
    | inr (b, rest, q) ↦
        let r' : BitReader = record r {
          rest = rest;
          n = bit_or (r.n * 256 % 2 ^ 64) b;
          bits = r.bits + 8;
        } in
        let bytes' : AreBytes (b ∷ rest) = rw q at bytes in
        let later = fill-Filled f want r' (ground arith) small bytes'.1 (ground (arith, q)) in
        rw (fill_step f want r b rest q (ltb→lt _ _ e)) (record {
          done = later.done;
          enough = later.enough;
          same =
              later.same
              ∙ ap (λ x. x ++ stream rest) (push_byte r.n r.bits b (ground arith) bytes'.0)
              ∙ append_assoc (bits_of r.bits r.n) (bits_of 8 b) (stream rest)
              ∙ ap (λ s. bits_of r.bits r.n ++ stream s) (sym q);
          fine = later.fine;
          bytes = later.bytes;
        })
  ]
]

-- A number was taken from the stream.
pub record Took (want : ℕ) (r : BitReader) (q : BitReader × ℕ) : Type 0 where
  pub ahead_eq : ahead r ≡ bits_of want q.1 ++ ahead q.0
  pub narrow : q.1 < shl 1 want
  pub fine : q.0.failed ≡ r.failed
  pub bytes : AreBytes q.0.rest

read_bits-done :
    (want : ℕ) (r : BitReader) (q : BitReader × Bool)
    → fill want want r ≡ q
    → q.1 ≡ true
    → read_bits want r
      ≡ (record q.0 { bits = q.0.bits - want }, shr q.0.n (q.0.bits - want) % shl 1 want)
unfolding read_bits
read_bits-done want r q e d = rw (e, d)

taken :
    (want : ℕ) (r : BitReader) (q : BitReader × Bool)
    → Filled want r q
    → Took want r (record q.0 { bits = q.0.bits - want }, shr q.0.n (q.0.bits - want) % shl 1 want)
taken want r q f =
    let left = q.0.bits - want in
    let v = shr q.0.n left in
    let enough = f.enough in
    let split : q.0.bits ≡ left + want = omega arith in
    record {
      ahead_eq =
          sym f.same
          ∙ ap (λ k. bits_of k q.0.n ++ stream q.0.rest) split
          ∙ ap (λ x. x ++ stream q.0.rest) (bits_of-split want left q.0.n)
          ∙ append_assoc (bits_of want v) (bits_of left q.0.n) (stream q.0.rest)
          ∙ ap (λ x. x ++ (bits_of left q.0.n ++ stream q.0.rest))
              (sym (word_bits want want v (omega arith)));
      narrow = mod-lt v (shl_pos want);
      fine = f.fine;
      bytes = f.bytes;
    }

-- Of up to 57 bits that are there, `ReadBits64` returns the next ones as a number, and leaves the others; it
-- keeps no error.
pub read_bits-Took :
    (want : ℕ) (r : BitReader)
    → want ≤ 57
    → AreBytes r.rest
    → want ≤ r.bits + 8 * length r.rest
    → Took want r (read_bits want r)
read_bits-Took want r small bytes there =
    let f = fill-Filled want want r (omega arith) small bytes there in
    rw (read_bits-done want r (fill want want r) refl f.done) (taken want r (fill want want r) f)

pub length-bits_of : (w v : ℕ) → length (bits_of w v) ≡ w
unfolding bits_of
length-bits_of zero v = refl
length-bits_of (suc w) v =
    omega (arith, length-append {0} (bits_of w (v / 2)) (v % 2 ∷ []), length-bits_of w (v / 2))

length-stream : (s : Bytes) → length (stream s) ≡ 8 * length s
unfolding stream
length-stream [] = refl
length-stream (b ∷ s) =
    omega (arith, length-append {0} (bits_of 8 b) (stream s), length-bits_of 8 b, length-stream s)

pub length-ahead : (r : BitReader) → length (ahead r) ≡ r.bits + 8 * length r.rest
length-ahead r = omega (
  arith,
  length-append {0} (bits_of r.bits r.n) (stream r.rest),
  length-bits_of r.bits r.n,
  length-stream r.rest,
)

abbrev head_of : List ℕ → ℕ
head_of [] = 0
head_of (x ∷ xs) = x

abbrev tail_of : List ℕ → List ℕ
tail_of [] = []
tail_of (x ∷ xs) = xs

one_bit : (v : ℕ) → v < shl 1 1 → bits_of 1 v ≡ v ∷ []
unfolding bits_of shl
one_bit v h = let e : v % 2 ≡ v = omega arith in rw e

-- The bytes are bytes, and the end of the input has not been met.
abbrev pub IsFine : BitReader → Type 0
IsFine r = AreBytes r.rest × (r.failed ≡ false)

-- A bit that is read is the next one.
pub get_bit :
    (r : BitReader) (b : ℕ) (xs : List ℕ)
    → IsFine r
    → ahead r ≡ b ∷ xs
    → (r' : BitReader) × (read_bits 1 r ≡ (r', b)) × (ahead r' ≡ xs) × IsFine r'
get_bit r b xs bytes e =
    let there : 1 ≤ r.bits + 8 * length r.rest = omega (arith, length-ahead r, ap length e) in
    let t = read_bits-Took 1 r (omega arith) bytes.0 there in
    let front : b ∷ xs ≡ (read_bits 1 r).1 ∷ ahead (read_bits 1 r).0 =
      sym e
      ∙ t.ahead_eq
      ∙ ap (λ x. x ++ ahead (read_bits 1 r).0) (one_bit (read_bits 1 r).1 t.narrow) in
    (
      (read_bits 1 r).0,
      ap (λ v. ((read_bits 1 r).0, v)) (sym (ap head_of front)),
      sym (ap tail_of front),
      (t.bytes, t.fine ∙ bytes.1),
    )
