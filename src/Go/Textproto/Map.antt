-- ===== src/Go/Textproto/Map.antt =====
-- The laws of a header as a map, and the header that some fields make.
use wl2k_go.Prelude.{
  ◌≡◌, refl, sym, ◌∙◌, false, inl, inr, Bool-cases, List, [], ◌∷◌, ◌++◌, Bytes, arith,
  if◌then◌else◌, append-nil, append_assoc,
}
use wl2k_go.Go.Strings.{bytes_eq, bytes_eq_refl, bytes_eq_iff}
use wl2k_go.Go.Textproto.{
  Header, lookup, assign, append_to, delete, canonical_key, header_get, header_set, header_del,
}
use wl2k_go.Go.Textproto.Fields.{add_all}

-- `bytes_eq` stays shut: its laws are listed at each pair of keys that is compared.
pub lookup-assign :
    (k j : Bytes) (vs : List Bytes) (h : Header)
    → lookup k (assign j vs h) ≡ (if bytes_eq j k then vs else lookup k h)
unfolding lookup assign
lookup-assign k j vs [] = refl
lookup-assign k j vs ((i, ws) ∷ h) =
    ground (arith, bytes_eq_iff i j, bytes_eq_iff i k, bytes_eq_iff j k, lookup-assign k j vs h)

pub lookup-delete :
    (k j : Bytes) (h : Header) → lookup k (delete j h) ≡ (if bytes_eq j k then [] else lookup k h)
unfolding lookup delete
lookup-delete k j [] = ground arith
lookup-delete k j ((i, ws) ∷ h) =
    ground (arith, bytes_eq_iff i j, bytes_eq_iff i k, bytes_eq_iff j k, lookup-delete k j h)

pub header_get-header_set : (k v : Bytes) (h : Header) → header_get k (header_set k v h) ≡ v
unfolding header_get header_set
header_get-header_set k v h =
    rw (
      lookup-assign (canonical_key k) (canonical_key k) (v ∷ []) h,
      bytes_eq_refl (canonical_key k),
    )

pub header_get-header_set_any :
    (k j v : Bytes) (h : Header)
    → header_get k (header_set j v h)
      ≡ (if bytes_eq (canonical_key j) (canonical_key k) then v else header_get k h)
unfolding header_get header_set
header_get-header_set_any k j v h =
    elim (Bool-cases (bytes_eq (canonical_key j) (canonical_key k))) [
      | inl e ↦ rw (lookup-assign (canonical_key k) (canonical_key j) (v ∷ []) h, e)
      | inr e ↦ rw (lookup-assign (canonical_key k) (canonical_key j) (v ∷ []) h, e)
    ]

pub header_get-header_del : (k : Bytes) (h : Header) → header_get k (header_del k h) ≡ []
unfolding header_get header_del
header_get-header_del k h =
    rw (lookup-delete (canonical_key k) (canonical_key k) h, bytes_eq_refl (canonical_key k))

pub header_get-header_del_other :
    (k j : Bytes) (h : Header)
    → bytes_eq (canonical_key j) (canonical_key k) ≡ false
    → header_get k (header_del j h) ≡ header_get k h
unfolding header_get header_del
header_get-header_del_other k j h ne = rw (lookup-delete (canonical_key k) (canonical_key j) h, ne)

-- The values of a key among some fields.
abbrev pub values : Bytes → List (Bytes × Bytes) → List Bytes
values k [] = []
values k ((j, v) ∷ fs) = if bytes_eq j k then v ∷ values k fs else values k fs

-- A key has the values that it had, and those of its fields behind them.
pub lookup-add_all :
    (k : Bytes) (fs : List (Bytes × Bytes)) (h : Header)
    → lookup k (add_all fs h) ≡ lookup k h ++ values k fs
lookup-add_all k [] h = sym (append-nil (lookup k h))
lookup-add_all k ((j, v) ∷ fs) h =
    lookup-add_all k fs (append_to j v h)
    ∙ rw (lookup-assign k j (lookup j h ++ v ∷ []) h) (elim (Bool-cases (bytes_eq j k)) [
      | inl e ↦ rw (e, (bytes_eq_iff j k).0 e) (append_assoc (lookup k h) (v ∷ []) (values k fs))
      | inr e ↦ rw e
    ])
