-- ===== src/Fbb/Header/Wire.antt =====
-- The lines of a header, as the lines of its fields; and the conditions on a header.
use wl2k_go.Prelude.{
  ◌≡◌, ◌≢◌, refl, sym, ap, ◌∙◌, inl, inr, false, Bool-cases, List, [], ◌∷◌, ◌++◌, Bytes,
  append_assoc,
}
use wl2k_go.Go.Strings.{bytes_eq}
use wl2k_go.Go.Sort.{All}
use wl2k_go.Go.Textproto.{Header, lookup}
use wl2k_go.Go.Textproto.Trim.{IsKey, IsValue, trim_string-IsValue}
use wl2k_go.Go.Textproto.Fields.{IsField, wire}
use wl2k_go.Fbb.Address.{equal_fold}
use wl2k_go.Fbb.Header.{header_mid, get, crlf, field_line, other_keys, value_lines, key_lines}

-- No entry of the header has the key.
abbrev pub IsNew : Bytes → Header → Type 0
IsNew k [] = Unit {0}
IsNew k ((j, vs) ∷ h) = ((bytes_eq j k) ≡ false) × IsNew k h

-- Every entry has a key of its own in canonical form, which is no other spelling of "Mid", and values of
-- one line.
abbrev pub AreEntries : Header → Type 0
AreEntries [] = Unit {0}
AreEntries ((k, vs) ∷ h) =
    IsKey k
    × All IsValue vs
    × (equal_fold k header_mid ≡ bytes_eq k header_mid)
    × IsNew k h
    × AreEntries h

pub record IsHeader (h : Header) : Type 0 where
  pub entries : AreEntries h
  pub has_mid : get header_mid h ≢ []
  pub one_mid : lookup header_mid h ≡ get header_mid h ∷ []

-- The fields of a key, and of the keys in a list.
abbrev pub key_fields : Bytes → List Bytes → List (Bytes × Bytes) → List (Bytes × Bytes)
key_fields k [] rest = rest
key_fields k (v ∷ vs) rest = (k, v) ∷ key_fields k vs rest

unfoldable pub fields : Header → List Bytes → List (Bytes × Bytes)
fields h [] = []
fields h (k ∷ ks) = key_fields k (lookup k h) (fields h ks)

pub field_line-append :
    (k v rest : Bytes) → field_line k v ++ rest ≡ (k ++ b':' ∷ b' ' ∷ v) ++ 13 ∷ 10 ∷ rest
field_line-append k v rest =
    append_assoc k (b':' ∷ b' ' ∷ (v ++ crlf)) rest
    ∙ ap (λ t. k ++ b':' ∷ b' ' ∷ t) (append_assoc v crlf rest)
    ∙ sym (append_assoc k (b':' ∷ b' ' ∷ v) (13 ∷ 10 ∷ rest))

value_lines-append :
    (k : Bytes) (vs : List Bytes) (fs : List (Bytes × Bytes)) (rest : Bytes)
    → All IsValue vs
    → value_lines k vs ++ wire fs rest ≡ wire (key_fields k vs fs) rest
unfolding value_lines
value_lines-append k [] fs rest h = refl
value_lines-append k (v ∷ vs) fs rest h = rw (trim_string-IsValue h.0) (
    append_assoc (field_line k v) (value_lines k vs) (wire fs rest)
    ∙ field_line-append k v (value_lines k vs ++ wire fs rest)
    ∙ rw (value_lines-append k vs fs rest h.1))

pub IsValue-lookup : (k : Bytes) (h : Header) → AreEntries h → All IsValue (lookup k h)
unfolding lookup
IsValue-lookup k [] e = tt
IsValue-lookup k ((j, vs) ∷ h) e = elim (Bool-cases (bytes_eq j k)) [
  | inl same ↦ rw same e.1
  | inr other ↦ rw other (IsValue-lookup k h e.4)
]

pub key_lines-append :
    (h : Header) (ks : List Bytes) (rest : Bytes)
    → AreEntries h
    → key_lines h ks ++ rest ≡ wire (fields h ks) rest
unfolding key_lines fields
key_lines-append h [] rest e = refl
key_lines-append h (k ∷ ks) rest e =
    append_assoc (value_lines k (lookup k h)) (key_lines h ks) rest
    ∙ rw (key_lines-append h ks rest e)
        (value_lines-append k (lookup k h) (fields h ks) rest (IsValue-lookup k h e))

key_fields-IsField :
    (k : Bytes) (vs : List Bytes) (fs : List (Bytes × Bytes))
    → IsKey k
    → All IsValue vs
    → All IsField fs
    → All IsField (key_fields k vs fs)
key_fields-IsField k [] fs hk hv hf = hf
key_fields-IsField k (v ∷ vs) fs hk hv hf = ((hk, hv.0), key_fields-IsField k vs fs hk hv.1 hf)

pub fields-IsField :
    (h : Header) (ks : List Bytes) → AreEntries h → All IsKey ks → All IsField (fields h ks)
unfolding fields
fields-IsField h [] e k = tt
fields-IsField h (j ∷ ks) e k =
    key_fields-IsField j (lookup j h) (fields h ks) k.0 (IsValue-lookup j h e)
      (fields-IsField h ks e k.1)

pub other_keys-IsKey : (h : Header) → AreEntries h → All IsKey (other_keys h)
unfolding other_keys
other_keys-IsKey [] e = tt
other_keys-IsKey ((k, vs) ∷ h) e = elim (Bool-cases (equal_fold k header_mid)) [
  | inl same ↦ rw same (other_keys-IsKey h e.4)
  | inr other ↦ rw other (e.0, other_keys-IsKey h e.4)
]
