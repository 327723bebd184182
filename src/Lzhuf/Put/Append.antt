-- ===== src/Lzhuf/Put/Append.antt =====
-- `putCode` appends its bits to the stream, whatever is in the buffer.
use wl2k_go.Prelude.{
  ℕ, ◌+◌, ◌-◌, ◌*◌, ◌/◌, ◌%◌, ◌≤◌, ◌<◌, ◌≡◌, sym, ap, ◌∙◌, List, [], ◌∷◌, ◌++◌, append_assoc, arith,
  bit_or, ltb, ltb→lt, Bool-cases, inl, inr,
}
use wl2k_go.Lzhuf.Bits.{
  shr, shl, bits_of, bits_of-split, bits_of-shl_add, shr-shl_add, shl-add, shr-add, shr-shl,
}
use wl2k_go.Lzhuf.Put.{Put, uint, put_code}
use mathlib.Core.Path.{subst}
use wl2k_go.Lzhuf.Put.Stream.{
  AreBytes-byte, stream, Holds, IsCode, stream-byte, high_byte, byte_bits, word_bits, uint-shl,
  times-256,
}
use wl2k_go.Lzhuf.Put.Buffer.{or_short, or_long, top_bits}

-- What `putCode` does, by the number of bits that it then holds.
module _ (l c : ℕ) (s : Put) (few : s.putlen < 8) (long : l ≤ 16) where
  abbrev joined : ℕ
  joined = bit_or s.putbuf (shr c s.putlen)

  put_none : s.putlen + l < 8 → put_code l c s ≡ record s { putbuf = joined; putlen = s.putlen + l }
  unfolding put_code
  put_none h = ground arith

  put_one :
      8 ≤ s.putlen + l
      → s.putlen + l < 16
      → put_code l c s ≡ record {
        buf = s.buf ++ joined / 256 % 256 ∷ [];
        putbuf = uint (joined * 256);
        putlen = s.putlen + l - 8;
      }
  unfolding put_code
  put_one h k = ground arith

  put_two :
      16 ≤ s.putlen + l
      → put_code l c s ≡ record {
        buf = (s.buf ++ joined / 256 % 256 ∷ []) ++ joined % 256 ∷ [];
        putbuf = uint (shl c (16 - s.putlen));
        putlen = s.putlen + l - 16;
      }
  unfolding put_code
  put_two h =
      let shift : l - ((s.putlen + l) % 256 - 8 - 8) ≡ 16 - s.putlen = omega arith in
      ground (arith, shift)

module _ (l c m : ℕ) (code : IsCode l c m) (s : Put) (xs : List ℕ) (held : Holds s xs) where
  abbrev held_bits : ℕ
  held_bits = joined l c s held.few code.long

  -- The bits that are held, and the code behind them.
  more : xs ++ bits_of l m ≡ stream s.buf ++ (bits_of s.putlen held.top ++ bits_of l m)
  more =
      ap (λ x. x ++ bits_of l m) held.bits_eq
      ∙ append_assoc (stream s.buf) (bits_of s.putlen held.top) (bits_of l m)

  joined-top : held_bits ≡ bit_or (shl held.top (16 - s.putlen)) (shr c s.putlen)
  joined-top = ap (λ x. bit_or x (shr c s.putlen)) held.buffer_eq

  Holds-none :
      s.putlen + l < 8
      → Holds (record s { putbuf = held_bits; putlen = s.putlen + l }) (xs ++ bits_of l m)
  Holds-none h =
      let u = 16 - (s.putlen + l) in
      let e : s.putlen + l + u ≡ 16 = omega arith in
      let n : l + s.putlen ≡ s.putlen + l = omega arith in
      record {
        bytes = held.bytes;
        few = h;
        top = shl held.top l + m;
        buffer_eq = joined-top ∙ or_short s.putlen l u held.top c m e code;
        bits_eq =
            more
            ∙ ap (λ x. stream s.buf ++ x)
                (sym (top_bits s.putlen l held.top m code.narrow)
                  ∙ ap (λ k. bits_of k (shl held.top l + m)) n);
      }

  Holds-one :
      8 ≤ s.putlen + l
      → s.putlen + l < 16
      → Holds
          (record {
            buf = s.buf ++ held_bits / 256 % 256 ∷ [];
            putbuf = uint (held_bits * 256);
            putlen = s.putlen + l - 8;
          })
          (xs ++ bits_of l m)
  Holds-one lo hi =
      let u = 16 - (s.putlen + l) in
      let left = s.putlen + l - 8 in
      let whole = shl held.top l + m in
      let j = 64 - (16 - left) in
      let v : held_bits ≡ shl whole u =
        joined-top ∙ or_short s.putlen l u held.top c m (omega arith) code in
      let high : shr held_bits 8 ≡ shr whole left =
        ap (λ x. shr x 8) v
        ∙ ap (shr (shl whole u)) (let e : 8 ≡ u + left = omega arith in e)
        ∙ shr-shl u left whole in
      record {
        bytes = AreBytes-byte s.buf (held_bits / 256) held.bytes;
        few = omega arith;
        top = whole % shl 1 j;
        buffer_eq =
            ap uint (ap (λ x. x * 256) v ∙ times-256 u whole)
            ∙ uint-shl (8 + u) j whole (omega arith)
            ∙ ap (shl (whole % shl 1 j)) (let e : 8 + u ≡ 16 - left = omega arith in e);
        bits_eq =
            more
            ∙ ap (λ x. stream s.buf ++ x)
                (sym (top_bits s.putlen l held.top m code.narrow)
                  ∙ ap (λ k. bits_of k whole) (let e : l + s.putlen ≡ left + 8 = omega arith in e)
                  ∙ bits_of-split 8 left whole
                  ∙ ap (λ x. bits_of 8 x ++ bits_of left whole) (sym high))
            ∙ sym (append_assoc (stream s.buf) (bits_of 8 (shr held_bits 8)) (bits_of left whole))
            ∙ ap (λ x. (stream s.buf ++ x) ++ bits_of left whole) (sym (high_byte held_bits))
            ∙ ap (λ x. x ++ bits_of left whole) (sym (stream-byte s.buf (held_bits / 256 % 256)))
            ∙ ap (λ x. stream (s.buf ++ held_bits / 256 % 256 ∷ []) ++ x)
                (sym (word_bits left j whole (omega arith)));
      }

  Holds-two :
      16 ≤ s.putlen + l
      → Holds
          (record {
            buf = (s.buf ++ held_bits / 256 % 256 ∷ []) ++ held_bits % 256 ∷ [];
            putbuf = uint (shl c (16 - s.putlen));
            putlen = s.putlen + l - 16;
          })
          (xs ++ bits_of l m)
  Holds-two lo =
      let n = s.putlen in
      let r = 16 - n in
      let left = n + l - 16 in
      let j = 64 - (16 - left) in
      let top = held.top in
      let few = held.few in
      let long = code.long in
      let v : held_bits ≡ shl top r + shr m left =
        joined-top ∙ or_long n l left top c m (omega arith) few code in
      let l-split : l ≡ left + r = omega arith in
      let fits : shr (shr m left) r ≡ 0 =
        sym (shr-add left r m) ∙ ap (shr m) (sym l-split) ∙ code.narrow in
      let both : bits_of 8 (shr held_bits 8) ++ bits_of 8 held_bits
          ≡ bits_of n top ++ bits_of r (shr m left) =
        sym (bits_of-split 8 8 held_bits)
        ∙ ap (λ k. bits_of k held_bits) (let e : ◌+◌ 8 8 ≡ r + n = omega arith in e)
        ∙ bits_of-split n r held_bits
        ∙ ap (λ x. bits_of n (shr x r) ++ bits_of r x) v
        ∙ ap (λ x. bits_of n x ++ bits_of r (shl top r + shr m left))
            (shr-shl_add r top (shr m left) fits)
        ∙ ap (λ x. bits_of n top ++ x) (bits_of-shl_add r top (shr m left)) in
      let bytes : stream ((s.buf ++ held_bits / 256 % 256 ∷ []) ++ held_bits % 256 ∷ [])
          ≡ stream s.buf ++ (bits_of n top ++ bits_of r (shr m left)) =
        stream-byte (s.buf ++ held_bits / 256 % 256 ∷ []) (held_bits % 256)
        ∙ ap (λ x. x ++ bits_of 8 (held_bits % 256))
            (stream-byte s.buf (held_bits / 256 % 256)
              ∙ ap (λ x. stream s.buf ++ x) (high_byte held_bits))
        ∙ ap (λ x. (stream s.buf ++ bits_of 8 (shr held_bits 8)) ++ x) (byte_bits held_bits)
        ∙ append_assoc (stream s.buf) (bits_of 8 (shr held_bits 8)) (bits_of 8 held_bits)
        ∙ ap (λ x. stream s.buf ++ x) both in
      record {
        bytes =
            AreBytes-byte (s.buf ++ held_bits / 256 % 256 ∷ []) held_bits
              (AreBytes-byte s.buf (held_bits / 256) held.bytes);
        few = omega arith;
        top = m % shl 1 j;
        buffer_eq =
            ap (λ x. uint (shl x r)) code.code_eq
            ∙ ap uint (
                sym (shl-add r (16 - l) m)
                ∙ ap (shl m) (let e : r + (16 - l) ≡ 16 - left = omega arith in e))
            ∙ uint-shl (16 - left) j m (omega arith);
        bits_eq =
            more
            ∙ ap (λ k. stream s.buf ++ (bits_of n top ++ bits_of k m)) l-split
            ∙ ap (λ x. stream s.buf ++ (bits_of n top ++ x)) (bits_of-split r left m)
            ∙ ap (λ x. stream s.buf ++ x)
                (sym (append_assoc (bits_of n top) (bits_of r (shr m left)) (bits_of left m)))
            ∙ sym (
                append_assoc (stream s.buf) (bits_of n top ++ bits_of r (shr m left))
                  (bits_of left m))
            ∙ ap (λ x. x ++ bits_of left m) (sym bytes)
            ∙ ap (λ x. stream ((s.buf ++ held_bits / 256 % 256 ∷ []) ++ held_bits % 256 ∷ []) ++ x)
                (sym (word_bits left j m (omega arith)));
      }

  -- `putCode` with a code of at most 16 bits, and no bits below them, appends these bits to those that were
  -- put before, whichever bytes it writes for that.
  pub put_code-Holds : Holds (put_code l c s) (xs ++ bits_of l m)
  put_code-Holds =
      let keep = λ (q : Put) (e : put_code l c s ≡ q) (h : Holds q (xs ++ bits_of l m)).
        subst (λ q. Holds q (xs ++ bits_of l m)) (sym e) h in
      elim (Bool-cases (ltb (s.putlen + l) 8)) [
        | inl a ↦
            keep _ (put_none l c s held.few code.long (ltb→lt _ _ a)) (Holds-none (ltb→lt _ _ a))
        | inr a ↦ elim (Bool-cases (ltb (s.putlen + l) 16)) [
          | inl b ↦
              keep _ (put_one l c s held.few code.long (ground arith) (ltb→lt _ _ b))
                (Holds-one (ground arith) (ltb→lt _ _ b))
          | inr b ↦
              keep _ (put_two l c s held.few code.long (ground arith)) (Holds-two (ground arith))
        ]
      ]
