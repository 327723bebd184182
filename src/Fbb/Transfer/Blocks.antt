-- ===== src/Fbb/Transfer/Blocks.antt =====
-- What the loops over the blocks do: the writer's bytes are the reader's bytes.
use wl2k_go.Prelude.{
  ℕ, zero, suc, ◌+◌, ◌%◌, ◌≤◌, ◌<◌, ◌≡◌, refl, sym, ap, ◌∙◌, [], ◌∷◌, ◌++◌, Bytes, arith, ltb,
  if◌then◌else◌, length, take, drop, append-nil, append_assoc, length-take, length-drop,
  length-append, take-append-drop,
}
use wl2k_go.Prelude.Int.{ℤ}
use wl2k_go.Go.Result.{ok}
use wl2k_go.Fbb.Error.{Result}
use wl2k_go.Fbb.Transfer.{
  sum_bytes, write_blocks, Received, take_in, read_block, read_blocks, read_end, chr_stx, chr_eot,
  max_msg_length,
}

-- The reader's state behind some bytes of data.
abbrev pub receive : Received → Bytes → Received
receive r [] = r
receive r (c ∷ s) = receive (take_in r c) s

pub receive_buf : (r : Received) (xs : Bytes) → (receive r xs).buf ≡ r.buf ++ xs
receive_buf r [] = rw append-nil
receive_buf r (c ∷ s) = receive_buf (take_in r c) s ∙ append_assoc r.buf (c ∷ []) s

receive_sum_from :
    (r : Received) (n : ℕ) (xs : Bytes)
    → n % 256 ≡ r.sum % 256
    → (receive r xs).sum % 256 ≡ sum_bytes n xs % 256
unfolding sum_bytes
receive_sum_from r n [] h = omega arith
receive_sum_from r n (c ∷ s) h = receive_sum_from (take_in r c) (n + c) s (omega arith)

pub receive_sum : (r : Received) (xs : Bytes) → (receive r xs).sum % 256 ≡ sum_bytes r.sum xs % 256
receive_sum r xs = receive_sum_from r r.sum xs refl

receive-append : (r : Received) (xs ys : Bytes) → receive (receive r xs) ys ≡ receive r (xs ++ ys)
receive-append r [] ys = refl
receive-append r (c ∷ s) ys = receive-append (take_in r c) s ys

sum_bytes-append : (n : ℕ) (xs ys : Bytes) → sum_bytes n (xs ++ ys) ≡ sum_bytes (sum_bytes n xs) ys
unfolding sum_bytes
sum_bytes-append n [] ys = refl
sum_bytes-append n (c ∷ s) ys = sum_bytes-append (n + c) s ys

-- A block is read to its end, and no further.
read_block-append :
    (xs rest : Bytes) (r : Received)
    → read_block (length xs) (xs ++ rest) r ≡ ok (receive r xs, rest)
unfolding read_block
read_block-append [] rest r = refl
read_block-append (c ∷ s) rest r = read_block-append s rest (take_in r c)

-- The length of the next block, as the writer chooses it.
abbrev next_length : Bytes → ℕ
next_length s = if ltb (length s) max_msg_length then length s else max_msg_length

next_length_bounds : (s : Bytes) → (next_length s ≤ length s) × (next_length s ≤ 125)
next_length_bounds s = ground arith

next_length_pos : (c : ℕ) (s : Bytes) → 0 < next_length (c ∷ s)
next_length_pos c s = ground arith

-- One round of the reader on a block of 1 to 255 bytes.
read_blocks_step :
    (f : ℕ) (size : ℤ) (block rest : Bytes) (r : Received)
    → 0 < length block
    → length block < 256
    → read_blocks (suc f) size (chr_stx ∷ length block % 256 ∷ (block ++ rest)) r
      ≡ read_blocks f size rest (receive r block)
unfolding read_blocks
read_blocks_step f size block rest r lo hi = ground (arith, read_block-append block rest r)

read_blocks_eot :
    (f : ℕ) (size : ℤ) (s : Bytes) (r : Received)
    → read_blocks (suc f) size (chr_eot ∷ s) r ≡ read_end size s r
unfolding read_blocks
read_blocks_eot f size s r = refl

length_block : (s : Bytes) → length (take (next_length s) s) ≡ next_length s
length_block s = omega (arith, length-take (next_length s) s, next_length_bounds s)

later_shorter :
    (f c : ℕ) (s : Bytes) → length (c ∷ s) ≤ suc f → length (drop (next_length (c ∷ s)) (c ∷ s)) ≤ f
later_shorter f c s h =
    omega (arith, length-drop (next_length (c ∷ s)) (c ∷ s), next_length_pos c s)

later_lt : (c : ℕ) (s : Bytes) → length (drop (next_length (c ∷ s)) (c ∷ s)) < length (c ∷ s)
later_lt c s = omega (arith, length-drop (next_length (c ∷ s)) (c ∷ s), next_length_pos c s)

read_blocks_round :
    (g : ℕ) (size : ℤ) (n : ℕ) (block more rest : Bytes) (r : Received)
    {out : Result (Bytes × Bytes)}
    → n ≡ length block
    → 0 < n
    → n ≤ 125
    → read_blocks g size (more ++ rest) (receive r block) ≡ out
    → read_blocks (suc g) size (chr_stx ∷ n % 256 ∷ ((block ++ more) ++ rest)) r ≡ out
read_blocks_round g size n block more rest r e lo hi h =
    rw (e, append_assoc block more rest)
      (read_blocks_step g size block (more ++ rest) r (omega arith) (omega arith) ∙ h)

-- The reader takes in all blocks of the writer, and comes to the end mark.
pub read_blocks-write_blocks :
    (f g : ℕ) (size : ℤ) (buffer : Bytes) (checksum : ℕ) (rest : Bytes) (r : Received)
    → length buffer ≤ f
    → length buffer < g
    → read_blocks g size ((write_blocks f buffer checksum).0 ++ chr_eot ∷ rest) r
      ≡ read_end size rest (receive r buffer)
unfolding write_blocks
read_blocks-write_blocks f zero size buffer checksum rest r hf hg = absurd (omega arith)
read_blocks-write_blocks zero (suc g) size [] checksum rest r hf hg = read_blocks_eot g size rest r
read_blocks-write_blocks zero (suc g) size (c ∷ s) checksum rest r hf hg = absurd (omega arith)
read_blocks-write_blocks (suc f) (suc g) size [] checksum rest r hf hg =
    read_blocks_eot g size rest r
read_blocks-write_blocks (suc f) (suc g) size (c ∷ s) checksum rest r hf hg =
    let n = next_length (c ∷ s) in
    let block = take n (c ∷ s) in
    let later = drop n (c ∷ s) in
    read_blocks_round g size n block (write_blocks f later (sum_bytes checksum block)).0
      (chr_eot ∷ rest) r (sym (length_block (c ∷ s))) (next_length_pos c s)
      (next_length_bounds (c ∷ s)).1
      (read_blocks-write_blocks f g size later (sum_bytes checksum block) rest (receive r block)
          (later_shorter f c s hf) (omega (arith, later_lt c s))
        ∙ ap (read_end size rest)
            (receive-append r block later ∙ ap (receive r) (take-append-drop n (c ∷ s))))

-- The writer's checksum is the sum of all bytes.
pub write_blocks_checksum :
    (f : ℕ) (buffer : Bytes) (checksum : ℕ)
    → length buffer ≤ f
    → (write_blocks f buffer checksum).1 ≡ sum_bytes checksum buffer
unfolding write_blocks
write_blocks_checksum zero [] k h = unfold sum_bytes in refl
write_blocks_checksum zero (c ∷ s) k h = absurd (omega arith)
write_blocks_checksum (suc f) [] k h = unfold sum_bytes in refl
write_blocks_checksum (suc f) (c ∷ s) k h =
    let n = next_length (c ∷ s) in
    let block = take n (c ∷ s) in
    write_blocks_checksum f (drop n (c ∷ s)) (sum_bytes k block) (later_shorter f c s h)
    ∙ sym (sum_bytes-append k block (drop n (c ∷ s)))
    ∙ ap (sum_bytes k) (take-append-drop n (c ∷ s))

-- The blocks take at least a byte for each byte of the buffer.
pub length-write_blocks :
    (f : ℕ) (buffer : Bytes) (checksum : ℕ)
    → length buffer ≤ f
    → length buffer ≤ length (write_blocks f buffer checksum).0
unfolding write_blocks
length-write_blocks zero [] k h = omega arith
length-write_blocks zero (c ∷ s) k h = absurd (omega arith)
length-write_blocks (suc f) [] k h = omega arith
length-write_blocks (suc f) (c ∷ s) k h =
    let n = next_length (c ∷ s) in
    let block = take n (c ∷ s) in
    let later = drop n (c ∷ s) in
    let more = (write_blocks f later (sum_bytes k block)).0 in
    omega (
      arith,
      length-append block more,
      length_block (c ∷ s),
      length-drop n (c ∷ s),
      length-write_blocks f later (sum_bytes k block) (later_shorter f c s h),
    )
