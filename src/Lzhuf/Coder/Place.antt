-- ===== src/Lzhuf/Coder/Place.antt =====
-- A position that is encoded is decoded.
use wl2k_go.Prelude.{
  ℕ, zero, suc, ◌+◌, ◌-◌, ◌*◌, ◌/◌, ◌%◌, ◌≤◌, ◌<◌, ◌≡◌, refl, sym, ap, ◌∙◌, Bool, true, ◌&&◌, List,
  ◌++◌, append_assoc, arith, ltb, ◌==◌, length, length-append, get_or, bit_or, all_from,
  all_from_sound,
}
use mathlib.Core.Path.{subst}
use wl2k_go.Lzhuf.Bits.{
  shr, shl, bits_of, bits_of-split, bits_of-shl_add, shl-add, shl-add_arg, shr-add, shr-shl_add,
  shr-rest,
}
use wl2k_go.Lzhuf.Or.{bit_or-shl}
use wl2k_go.Lzhuf.Put.{Put, put_code}
use wl2k_go.Lzhuf.Put.Stream.{Holds, IsCode}
use wl2k_go.Lzhuf.Put.Append.{put_code-Holds}
use wl2k_go.Lzhuf.Read.{BitReader, read_bits}
use wl2k_go.Lzhuf.Read.Stream.{ahead, IsFine, length-bits_of, read_bits-Took, length-ahead}
use wl2k_go.Lzhuf.Position.{p_code, p_len, d_code, d_len, free_bits, d_code-p_code}
use wl2k_go.Lzhuf.Coder.{encode_position, position_loop, decode_position}
use wl2k_go.Lzhuf.Coder.Loop.{position_loop-bits, front_byte}

-- What the tables say of a code, once more in terms of shifts.
code_fits : ℕ → Bool
code_fits i =
    let l = get_or p_len i 0 in
    let m = shr (get_or p_code i 0) (8 - l) in
    (get_or p_code i 0 * 256 == shl m (16 - l))
    && (get_or p_code i 0 == shl m (8 - l))
    && (shr m l == 0)
    && (free_bits i == shl 1 (8 - l))
    && (ltb 2 l && ltb l 9)

code_fits_run : all_from 0 64 code_fits ≡ true
unfolding all_from code_fits shl shr
code_fits_run = refl

-- The facts of such a row.
record Row (i l m : ℕ) : Type 0 where
  word_eq : get_or p_code i 0 * 256 ≡ shl m (16 - l)
  code_eq : get_or p_code i 0 ≡ shl m (8 - l)
  narrow : shr m l ≡ 0
  free_eq : free_bits i ≡ shl 1 (8 - l)
  at_least : 2 < l
  at_most : l < 9

six_tests :
    (a b c d e f g h l : ℕ)
    → ((a == b) && (c == d) && (e == f) && (g == h) && (ltb 2 l && ltb l 9)) ≡ true
    → (a ≡ b) × (c ≡ d) × (e ≡ f) × (g ≡ h) × (2 < l) × (l < 9)
six_tests a b c d e f g h l t =
    (ground arith, ground arith, ground arith, ground arith, ground arith, ground arith)

abbrev pub code_of : ℕ → ℕ
code_of i = shr (get_or p_code i 0) (8 - get_or p_len i 0)

row : (i : ℕ) → i < 64 → Row i (get_or p_len i 0) (code_of i)
unfolding code_fits
row i h =
    let t =
      six_tests _ _ _ _ _ _ _ _ _
        (all_from_sound 0 64 code_fits i i code_fits_run (omega arith) h) in
    record {
      word_eq = t.0;
      code_eq = t.1;
      narrow = t.2;
      free_eq = t.3;
      at_least = t.4;
      at_most = t.5;
    }

lt_of_shr : (k x : ℕ) → shr x k ≡ 0 → x < shl 1 k
unfolding shr shl
lt_of_shr zero x h = omega arith
lt_of_shr (suc k) x h = omega (arith, lt_of_shr k (x / 2) h)

-- The bits of a position: the code of its upper six bits, and the lower six.
unfoldable pub position_bits : ℕ → List ℕ
position_bits c = bits_of (get_or p_len (c / 64) 0) (code_of (c / 64)) ++ bits_of 6 (c % 64)

low-narrow : (x : ℕ) → x < 64 → shr x 6 ≡ 0
unfolding shr
low-narrow x h = omega arith

low-IsCode : (x : ℕ) → x < 64 → IsCode 6 (x * 1024) x
unfolding shl
low-IsCode x h = record { long = omega arith; code_eq = omega arith; narrow = low-narrow x h }

-- `encodePosition` puts these bits.
pub encode_position-Holds :
    (c : ℕ) (s : Put) (xs : List ℕ)
    → c < 4096
    → Holds s xs
    → Holds (encode_position c s) (xs ++ position_bits c)
unfolding encode_position position_bits
encode_position-Holds c s xs lt held =
    let i = c / 64 in
    let l = get_or p_len i 0 in
    let t = row i (omega arith) in
    let upper : IsCode l (get_or p_code i 0 * 256) (code_of i) = record {
      long = omega (arith, t.at_most);
      code_eq = t.word_eq;
      narrow = t.narrow;
    } in
    subst (Holds (encode_position c s))
      (append_assoc xs (bits_of l (code_of i)) (bits_of 6 (c % 64)))
      (put_code-Holds 6 (c % 64 * 1024) (c % 64) (low-IsCode (c % 64) (omega arith))
        (put_code l (get_or p_code i 0 * 256) s) (xs ++ bits_of l (code_of i))
        (put_code-Holds l (get_or p_code i 0 * 256) (code_of i) upper s xs held))

byte_of_shr : (v : ℕ) → shr v 8 ≡ 0 → v < 256
unfolding shr
byte_of_shr v h = omega arith

byte_lt_shl : (v : ℕ) → v < shl 1 8 → v < 256
unfolding shl
byte_lt_shl v h = h

shl-six : (m : ℕ) → shl m 6 ≡ m * 64
unfolding shl
shl-six m = omega arith

-- The first byte of the bits of a position, and the bits behind it.
record Front (c v w : ℕ) : Type 0 where
  byte_lt : v < 256
  looked_up : get_or d_code v 0 ≡ c / 64
  long : get_or d_len v 0 ≡ get_or p_len (c / 64) 0
  rest_low : shr w (get_or p_len (c / 64) 0 - 2) ≡ 0
  bits_eq : position_bits c ≡ bits_of 8 v ++ bits_of (get_or p_len (c / 64) 0 - 2) w
  value_eq : shl v (get_or p_len (c / 64) 0 - 2) + w ≡ code_of (c / 64) * 64 + c % 64

front : (c : ℕ) → c < 4096 → (v : ℕ) × (w : ℕ) × Front c v w
unfolding position_bits
front c lt =
    let i = c / 64 in
    let l = get_or p_len i 0 in
    let m = code_of i in
    let low = c % 64 in
    let t = row i (omega arith) in
    let lo = t.at_least in
    let hi = t.at_most in
    let high = shr low (l - 2) in
    let (w, low-eq, w-low) = shr-rest (l - 2) low in
    let v = shl m (8 - l) + high in
    let six : ◌+◌ 6 0 ≡ (l - 2) + (8 - l) = omega arith in
    let eight : ◌+◌ 8 0 ≡ (8 - l) + l = omega arith in
    let high-low : shr high (8 - l) ≡ 0 =
      sym (shr-add (l - 2) (8 - l) low) ∙ ap (shr low) (sym six) ∙ low-narrow low (omega arith) in
    let over : shr v (8 - l) ≡ m = shr-shl_add (8 - l) m high high-low in
    let v-low : shr v 8 ≡ 0 =
      ap (shr v) eight ∙ shr-add (8 - l) l v ∙ ap (λ x. shr x l) over ∙ t.narrow in
    let code : v ≡ get_or p_code i 0 + high = ap (λ x. x + high) (sym t.code_eq) in
    let found =
      d_code-p_code i high (omega arith)
        (let e = lt_of_shr (8 - l) high high-low in omega (arith, t.free_eq)) in
    (
      v,
      w,
      record {
        byte_lt = byte_of_shr v v-low;
        looked_up = ap (λ x. get_or d_code x 0) code ∙ found.0;
        long = ap (λ x. get_or d_len x 0) code ∙ found.1;
        rest_low = w-low;
        bits_eq =
            ap (λ k. bits_of l m ++ bits_of k low) six
            ∙ ap (λ x. bits_of l m ++ x) (bits_of-split (8 - l) (l - 2) low)
            ∙ ap (λ x. bits_of l m ++ (bits_of (8 - l) high ++ bits_of (l - 2) x)) low-eq
            ∙ ap (λ x. bits_of l m ++ (bits_of (8 - l) high ++ x)) (bits_of-shl_add (l - 2) high w)
            ∙ sym (append_assoc (bits_of l m) (bits_of (8 - l) high) (bits_of (l - 2) w))
            ∙ ap (λ x. (bits_of l x ++ bits_of (8 - l) high) ++ bits_of (l - 2) w) (sym over)
            ∙ ap (λ x. (bits_of l (shr v (8 - l)) ++ x) ++ bits_of (l - 2) w)
                (sym (bits_of-shl_add (8 - l) m high))
            ∙ ap (λ x. x ++ bits_of (l - 2) w) (sym (bits_of-split l (8 - l) v))
            ∙ ap (λ k. bits_of k v ++ bits_of (l - 2) w) (sym eight);
        value_eq =
            ap (λ x. x + w) (shl-add_arg (l - 2) (shl m (8 - l)) high)
            ∙ omega (arith, low-eq, shl-add (l - 2) (8 - l) m, ap (shl m) six, shl-six m);
      },
    )

decode_position-eq :
    (r r₁ r' : BitReader) (v u : ℕ)
    → read_bits 8 r ≡ (r₁, v)
    → position_loop (get_or d_len v 0 - 2) v r₁ ≡ (r', u)
    → decode_position r ≡ (r', bit_or (get_or d_code v 0 * 64) (u % 64))
unfolding decode_position
decode_position-eq r r₁ r' v u e1 e2 = rw (e1, e2)

joined_low : (i low : ℕ) → low < 64 → bit_or (i * 64) low ≡ i * 64 + low
unfolding shl
joined_low i low h =
    let e : i * 64 ≡ shl i 6 = omega arith in
    ap (λ x. bit_or x low) e ∙ bit_or-shl 6 i low (low-narrow low h) ∙ ap (λ x. x + low) (sym e)

-- A position below 4096 is written as its bits, behind whatever was put before. Whatever follows these
-- bits, `decodePosition` reads the position from them and leaves the rest.
pub decode_position-encode_position :
    (c : ℕ) (s : Put) (xs : List ℕ)
    → c < 4096
    → Holds s xs
    → (r : BitReader) (ys : List ℕ) → IsFine r
    → ahead r ≡ position_bits c ++ ys
    → Holds (encode_position c s) (xs ++ position_bits c)
      × ((r' : BitReader) × (decode_position r ≡ (r', c)) × (ahead r' ≡ ys) × IsFine r')
decode_position-encode_position c s xs lt held r ys bytes e =
    let i = c / 64 in
    let j = get_or p_len i 0 - 2 in
    let (v, w, f) = front c lt in
    let lined : ahead r ≡ bits_of 8 v ++ (bits_of j w ++ ys) =
      e ∙ ap (λ x. x ++ ys) f.bits_eq ∙ append_assoc (bits_of 8 v) (bits_of j w) ys in
    let there : 8 ≤ r.bits + 8 * length r.rest = omega (
      arith,
      length-ahead r,
      ap length lined,
      length-append {0} (bits_of 8 v) (bits_of j w ++ ys),
      length-bits_of 8 v,
    ) in
    let t = read_bits-Took 8 r (omega arith) bytes.0 there in
    let r₁ = (read_bits 8 r).0 in
    let small : (read_bits 8 r).1 < 256 = byte_lt_shl (read_bits 8 r).1 t.narrow in
    let (same, left) =
      front_byte (read_bits 8 r).1 v (ahead r₁) (bits_of j w ++ ys) small f.byte_lt
        (sym t.ahead_eq ∙ lined) in
    let (r', e2, a2, b2) =
      position_loop-bits j v w r₁ ys f.rest_low (t.bytes, t.fine ∙ bytes.1) left in
    let rounds : get_or d_len v 0 - 2 ≡ j = ap (λ x. x - 2) f.long in
    let low : (shl v j + w) % 64 ≡ c % 64 = omega (arith, f.value_eq) in
    (
      encode_position-Holds c s xs lt held,
      (
        r',
        decode_position-eq r r₁ r' v (shl v j + w) (ap (λ x. (r₁, x)) same)
              (ap (λ n. position_loop n v r₁) rounds ∙ e2)
            ∙ ap (λ x. (r', x))
                (ap (λ x. bit_or (x * 64) ((shl v j + w) % 64)) f.looked_up
                  ∙ ap (bit_or (i * 64)) low
                  ∙ joined_low i (c % 64) (omega arith)
                  ∙ (let whole : i * 64 + c % 64 ≡ c = omega arith in whole)),
        a2,
        b2,
      ),
    )
