-- ===== src/Ardop/Faults.antt =====
-- Data frames that are cut short by the end of the connection.
use wl2k_go.Prelude.{
  ℕ, zero, suc, ◌+◌, ◌-◌, ◌*◌, ◌%◌, ◌≤◌, ◌<◌, ◌≡◌, refl, ap, true, [], ◌∷◌, ◌++◌, Bytes, arith,
  length, drop, take, replicate,
}
use wl2k_go.Go.Result.{ok}
use wl2k_go.Ardop.{d_frame, verify, data_frame, read_data}

take-all : (n : ℕ) (s : Bytes) → length s ≤ n → take n s ≡ s
take-all zero [] h = refl
take-all (suc n) [] h = refl
take-all zero (x ∷ s) h = absurd (omega arith)
take-all (suc n) (x ∷ s) h = ap (λ t. x ∷ t) (take-all n s (omega arith))

drop-all : (n : ℕ) (s : Bytes) → length s ≤ n → drop n s ≡ []
drop-all zero [] h = refl
drop-all (suc n) [] h = refl
drop-all zero (x ∷ s) h = absurd (omega arith)
drop-all (suc n) (x ∷ s) h = drop-all n s (omega arith)

data_frame-long :
    (x y a b c : ℕ) (q rest : Bytes)
    → data_frame (x ∷ y ∷ a ∷ b ∷ c ∷ q) rest ≡ ok (d_frame (a ∷ b ∷ c ∷ []) q, rest)
unfolding data_frame
data_frame-long x y a b c q rest = ground arith

-- On a TCP connection that ends inside of a data frame, behind its type, the frame is read with no error: its
-- data is what was there, and zeros up to the length that the frame
-- gives. The length is one of 4 to 65533: below, no byte of the data can be missing, and 65534 and 65535 wrap around.
pub read_data_truncated :
    (x y a b c k : ℕ) (p : Bytes)
    → x * 256 + y ≡ k + 3
    → k < 65531
    → length p < k
    → read_data true 2 (x ∷ y ∷ a ∷ b ∷ c ∷ p)
      ≡ ok (d_frame (a ∷ b ∷ c ∷ []) (p ++ replicate (k - length p) 0), [])
unfolding read_data verify
read_data_truncated x y a b c k p e small short =
    let n : (x * 256 + y + 2) % 65536 ≡ suc (suc (suc (suc (suc k)))) = omega arith in
    let rest : suc (suc (suc (suc (suc k)))) - suc (suc (suc (suc (suc (length p)))))
        ≡ k - length p =
      omega arith in
    rw (n, take-all k p (omega arith), drop-all k p (omega arith), rest)
      (data_frame-long x y a b c (p ++ replicate (k - length p) 0) [])
