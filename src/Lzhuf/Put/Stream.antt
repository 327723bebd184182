-- ===== src/Lzhuf/Put/Stream.antt =====
-- The stream of the bits that `putCode` was given, and the bits of words.
use wl2k_go.Prelude.{
  ℕ, ◌+◌, ◌-◌, ◌*◌, ◌/◌, ◌%◌, ◌≤◌, ◌<◌, ◌≡◌, refl, sym, ap, ◌∙◌, List, [], ◌∷◌, ◌++◌, Bytes,
  append_assoc, append-nil, arith,
}
use wl2k_go.Lzhuf.Bits.{shr, shl, bits_of, shl-add, shl-mod, bits_of-mod}
use wl2k_go.Lzhuf.Put.{Put, uint}

-- The bits of some bytes.
unfoldable pub stream : Bytes → List ℕ
unfolding bits_of
stream [] = []
stream (b ∷ s) = bits_of 8 b ++ stream s

stream-append : (s t : Bytes) → stream (s ++ t) ≡ stream s ++ stream t
unfolding stream
stream-append [] t = refl
stream-append (b ∷ s) t =
    rw (stream-append s t) (sym (append_assoc (bits_of 8 b) (stream s) (stream t)))

-- The bytes are bytes.
abbrev pub AreBytes : Bytes → Type 0
AreBytes [] = Unit {0}
AreBytes (b ∷ s) = (b < 256) × AreBytes s

-- A byte that is written is cut to eight bits.
pub AreBytes-byte : (s : Bytes) (x : ℕ) → AreBytes s → AreBytes (s ++ x % 256 ∷ [])
AreBytes-byte [] x h = (omega arith, tt)
AreBytes-byte (b ∷ s) x (lt, h) = (lt, AreBytes-byte s x h)

-- The bits that were put: those of the bytes, and the highest bits of the buffer. The rest of the buffer
-- is empty.
pub record Holds (s : Put) (bits : List ℕ) : Type 0 where
  pub bytes : AreBytes s.buf
  pub few : s.putlen < 8
  pub top : ℕ
  pub buffer_eq : s.putbuf ≡ shl top (16 - s.putlen)
  pub bits_eq : bits ≡ stream s.buf ++ bits_of s.putlen top

-- A code: its highest `l` bits, and none below them.
pub record IsCode (l c m : ℕ) : Type 0 where
  pub long : l ≤ 16
  pub code_eq : c ≡ shl m (16 - l)
  pub narrow : shr m l ≡ 0

-- A byte that is cut to its eight bits.
pub byte_bits : (x : ℕ) → bits_of 8 (x % 256) ≡ bits_of 8 x
unfolding shl
byte_bits x = bits_of-mod 8 0 x

-- A word keeps 64 bits.
pub uint-shl : (k j x : ℕ) → k + j ≡ 64 → uint (shl x k) ≡ shl (x % shl 1 j) k
unfolding shl
uint-shl k j x e = ap (λ n. shl x k % shl 1 n) (sym e) ∙ shl-mod k j x

pub times-256 : (u w : ℕ) → shl w u * 256 ≡ shl w (8 + u)
unfolding shl
times-256 u w = omega (arith, shl-add 8 u w)

pub over-256 : (x : ℕ) → x / 256 ≡ shr x 8
unfolding shr
over-256 x = omega arith

pub high_byte : (x : ℕ) → bits_of 8 (x / 256 % 256) ≡ bits_of 8 (shr x 8)
high_byte x = byte_bits (x / 256) ∙ ap (bits_of 8) (over-256 x)

pub word_bits : (n j x : ℕ) → n ≤ j → bits_of n (x % shl 1 j) ≡ bits_of n x
word_bits n j x h =
    let e : j ≡ n + (j - n) = omega arith in
    ap (λ k. bits_of n (x % shl 1 k)) e ∙ bits_of-mod n (j - n) x

pub stream-byte : (s : Bytes) (b : ℕ) → stream (s ++ b ∷ []) ≡ stream s ++ bits_of 8 b
unfolding stream
stream-byte s b = stream-append s (b ∷ []) ∙ ap (λ x. stream s ++ x) (append-nil (bits_of 8 b))
