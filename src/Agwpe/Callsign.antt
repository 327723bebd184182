-- ===== src/Agwpe/Callsign.antt =====
-- Callsigns in ten bytes.
use wl2k_go.Prelude.{
  ℕ, zero, suc, ◌≡◌, refl, none, some, [], ◌∷◌, ◌++◌, Bytes, arith, take, replicate,
}
use wl2k_go.Go.Strings.{cut_at, Free}
use wl2k_go.Agwpe.{callsign_from_string, str_from_bytes}

-- What is before the first NUL.
abbrev before_nul : Bytes → Bytes
before_nul b = elim (cut_at 0 b) [ none ↦ b | some r ↦ r.0 ]

before_nul-padded :
    (n m : ℕ) (s : Bytes) → Free 0 s → before_nul (take n (s ++ replicate m 0)) ≡ take n s
unfolding cut_at
before_nul-padded zero m s h = refl
before_nul-padded (suc n) zero [] h = refl
before_nul-padded (suc n) (suc m) [] h = refl
before_nul-padded (suc n) m (x ∷ s) h = ground (arith, h.0, before_nul-padded n m s h.1)

-- A callsign without a NUL is read back from its field, cut after ten bytes.
pub str_from_bytes-callsign_from_string :
    (s : Bytes) → Free 0 s → str_from_bytes (callsign_from_string s) ≡ take 10 s
unfolding str_from_bytes
str_from_bytes-callsign_from_string s h = before_nul-padded 10 10 s h
