-- ===== src/Fbb/Header/Keep.antt =====
-- A well-formed header stays one when a value is set or added.
use wl2k_go.Prelude.{
  ◌≡◌, sym, ap, ◌∙◌, inl, inr, false, Bool-cases, List, [], ◌∷◌, ◌++◌, Bytes, arith,
}
use wl2k_go.Go.Strings.{bytes_eq, bytes_eq_iff}
use wl2k_go.Go.Sort.{All}
use wl2k_go.Go.Textproto.{Header, lookup, assign, append_to, first}
use wl2k_go.Go.Textproto.Trim.{IsKey, IsValue}
use wl2k_go.Go.Textproto.Map.{lookup-assign}
use wl2k_go.Fbb.Address.{equal_fold}
use wl2k_go.Fbb.Header.{header_mid}
use wl2k_go.Fbb.Header.Wire.{IsNew, AreEntries, IsHeader, IsValue-lookup}

pub bytes_eq_comm : (a b : Bytes) → bytes_eq a b ≡ false → bytes_eq b a ≡ false
bytes_eq_comm a b h = ground (arith, bytes_eq_iff a b, bytes_eq_iff b a)

assign-IsNew :
    (k j : Bytes) (vs : List Bytes) (h : Header)
    → bytes_eq j k ≡ false
    → IsNew k h
    → IsNew k (assign j vs h)
unfolding assign
assign-IsNew k j vs [] e n = (e, tt)
assign-IsNew k j vs ((i, ws) ∷ h) e n = elim (Bool-cases (bytes_eq i j)) [
  | inl same ↦ rw same n
  | inr other ↦ rw other (n.0, assign-IsNew k j vs h e n.1)
]

-- A key that is no spelling of "Mid".
pub record IsOther (key : Bytes) : Type 0 where
  pub is_key : IsKey key
  pub ne_mid : bytes_eq key header_mid ≡ false
  pub no_fold : equal_fold key header_mid ≡ false

assign-AreEntries :
    (j : Bytes) (vs : List Bytes) (h : Header)
    → IsOther j
    → All IsValue vs
    → AreEntries h
    → AreEntries (assign j vs h)
unfolding assign
assign-AreEntries j vs [] o v e = (o.is_key, v, o.no_fold ∙ sym o.ne_mid, tt, tt)
assign-AreEntries j vs ((i, ws) ∷ h) o v e = elim (Bool-cases (bytes_eq i j)) [
  | inl same ↦ rw same (e.0, v, e.2, e.3, e.4)
  | inr other ↦ rw other (
    e.0,
    e.1,
    e.2,
    assign-IsNew i j vs h (bytes_eq_comm i j other) e.3,
    assign-AreEntries j vs h o v e.4,
  )
]

-- The other keys keep their values.
pub lookup-assign_other :
    (k j : Bytes) (vs : List Bytes) (h : Header)
    → bytes_eq j k ≡ false
    → lookup k (assign j vs h) ≡ lookup k h
lookup-assign_other k j vs h e = lookup-assign k j vs h ∙ rw e

pub assign-IsHeader :
    (j : Bytes) (vs : List Bytes) (h : Header)
    → IsOther j
    → All IsValue vs
    → IsHeader h
    → IsHeader (assign j vs h)
assign-IsHeader j vs h o v w =
    let mid : lookup header_mid (assign j vs h) ≡ lookup header_mid h =
      lookup-assign_other header_mid j vs h o.ne_mid in
    record {
      entries = assign-AreEntries j vs h o v w.entries;
      has_mid = λ e. w.has_mid (ap first (sym mid) ∙ e);
      one_mid = mid ∙ w.one_mid ∙ ap (λ l. first l ∷ []) (sym mid);
    }

pub All-append : (vs ws : List Bytes) → All IsValue vs → All IsValue ws → All IsValue (vs ++ ws)
All-append [] ws h k = k
All-append (v ∷ vs) ws h k = (h.0, All-append vs ws h.1 k)

pub append_to-IsHeader :
    (j v : Bytes) (h : Header) → IsOther j → IsValue v → IsHeader h → IsHeader (append_to j v h)
append_to-IsHeader j v h o k w =
    assign-IsHeader j (lookup j h ++ v ∷ []) h o
      (All-append (lookup j h) (v ∷ []) (IsValue-lookup j h w.entries) (k, tt)) w
