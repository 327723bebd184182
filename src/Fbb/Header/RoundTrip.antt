-- ===== src/Fbb/Header/RoundTrip.antt =====
-- A header that is written is read back, as a map.
use wl2k_go.Prelude.{
  ◌≡◌, refl, sym, ap, ◌∙◌, inl, inr, Bool-cases, List, [], ◌∷◌, ◌++◌, Bytes, arith, append_assoc,
}
use mathlib.Core.Path.{subst}
use wl2k_go.Go.Result.{ok}
use wl2k_go.Go.Strings.{bytes_eq, bytes_eq_iff}
use wl2k_go.Go.Sort.{All, stable_sort, All-stable_sort}
use wl2k_go.Go.Textproto.{
  Header, lookup, read_mime_header, all_tokens, is_token, canonical_key, capitals,
}
use wl2k_go.Go.Textproto.Trim.{IsKey}
use wl2k_go.Go.Textproto.Fields.{IsField, wire, add_all, read_mime_header-wire}
use wl2k_go.Go.Textproto.Map.{values, lookup-add_all}
use wl2k_go.Fbb.Header.{
  header_mid, get, bytes_less, crlf, field_line, other_keys, key_lines, header_write,
}
use wl2k_go.Fbb.Header.Wire.{
  IsHeader, fields, field_line-append, key_lines-append, fields-IsField, other_keys-IsKey,
  IsValue-lookup,
}
use wl2k_go.Fbb.Header.Counts.{
  count, repeat, values-fields, count-stable_sort, count-mid, repeat-other_keys,
}

abbrev sorted_keys : Header → List Bytes
sorted_keys h = stable_sort bytes_less (other_keys h)

-- The fields that `Header.Write` writes.
abbrev pub written : Header → List (Bytes × Bytes)
written h = (header_mid, get header_mid h) ∷ fields h (sorted_keys h)

header_mid-IsKey : IsKey header_mid
unfolding all_tokens is_token canonical_key capitals
header_mid-IsKey = record { ne_nil = cc; tokens = refl; canonical = refl }

module _ (h : Header) (w : IsHeader h) where
  written-IsField : All IsField (written h)
  written-IsField = (
    (header_mid-IsKey, (rw w.one_mid at (IsValue-lookup header_mid h w.entries)).0),
    fields-IsField h (sorted_keys h) w.entries
        (All-stable_sort bytes_less IsKey (other_keys h) (other_keys-IsKey h w.entries)),
  )

  header_write-eq :
      (header_write h).0 ≡ field_line header_mid (get header_mid h) ++ key_lines h (sorted_keys h)
  unfolding header_write
  header_write-eq = ground (arith, w.has_mid)

  pub header_write-wire : (rest : Bytes) → (header_write h).0 ++ rest ≡ wire (written h) rest
  header_write-wire rest = rw header_write-eq (
      append_assoc (field_line header_mid (get header_mid h)) (key_lines h (sorted_keys h)) rest
      ∙ field_line-append header_mid (get header_mid h) (key_lines h (sorted_keys h) ++ rest)
      ∙ rw (key_lines-append h (sorted_keys h) rest w.entries))

  values-sorted :
      (k : Bytes)
      → values k (fields h (sorted_keys h)) ≡ repeat (count k (other_keys h)) (lookup k h)
  values-sorted k =
      values-fields k h (sorted_keys h)
      ∙ ap (λ n. repeat n (lookup k h)) (count-stable_sort bytes_less k (other_keys h))

  values-mid : values header_mid (written h) ≡ lookup header_mid h
  values-mid = rw (values-sorted header_mid, count-mid h w.entries) (sym w.one_mid)

  values-written : (k : Bytes) → values k (written h) ≡ lookup k h
  values-written k = elim (Bool-cases (bytes_eq header_mid k)) [
    | inl e ↦
        subst (λ t. values t (written h) ≡ lookup t h) ((bytes_eq_iff header_mid k).0 e) values-mid
    | inr e ↦ rw e (
        values-sorted k
        ∙ repeat-other_keys k h w.entries
            (ground (arith, bytes_eq_iff header_mid k, bytes_eq_iff k header_mid)))
  ]

  -- A header whose entries have keys in canonical form and values of one line, and which has one message
  -- id, is read back from what `Header.Write` writes: every key has its values, in their order. The input
  -- behind the empty line is left.
  pub read_mime_header-header_write :
      (rest : Bytes)
      → (h' : Header) × (read_mime_header ((header_write h).0 ++ (crlf ++ rest)) ≡ ok (h', rest))
        × ((k : Bytes) → lookup k h' ≡ lookup k h)
  unfolding lookup
  read_mime_header-header_write rest = (
    add_all (written h) [],
    rw (header_write-wire (crlf ++ rest)) (read_mime_header-wire (written h) rest written-IsField),
    λ k. lookup-add_all k (written h) [] ∙ values-written k,
  )
