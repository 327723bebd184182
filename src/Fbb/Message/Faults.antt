-- ===== src/Fbb/Message/Faults.antt =====
-- Inputs on which `ReadFrom` panics, and errors that it does not return.
use wl2k_go.Prelude.{
  ℕ, ◌<◌, ◌^◌, ◌≡◌, refl, ap, ◌∙◌, true, false, none, some, List, [], ◌∷◌, ◌++◌, Bytes, arith,
  length, append_assoc, append-nil, inl, inr, Bool-cases,
}
use wl2k_go.Prelude.Int.{pos, negsuc}
use wl2k_go.Go.Result.{ok, panic}
use wl2k_go.Go.Strings.{Free, cut_at-append}
use wl2k_go.Go.Sort.{All}
use wl2k_go.Go.Strconv.{atoi, show_int}
use wl2k_go.Go.Strconv.RoundTrip.{atoi-show_int}
use wl2k_go.Go.Textproto.{
  Header, lookup, first, read_mime_header, header_get, canonical_key, capitals, all_tokens,
  is_token,
}
use wl2k_go.Go.Textproto.Trim.{IsKey}
use wl2k_go.Go.Textproto.Fields.{IsField, wire, add_all, read_mime_header-wire}
use wl2k_go.Go.Textproto.Map.{values, lookup-add_all}
use wl2k_go.Fbb.Header.{Decoder, crlf, header_body}
use wl2k_go.Fbb.Message.Date.{TimePackage}
use wl2k_go.Fbb.Message.{
  File, Message, bad_section_end, body_size, is_crlf, section_end, read_section, read_files,
  is_ascii_space, trim_left_space, read_from, file_lines,
}
use wl2k_go.Fbb.Message.RoundTrip.{
  Fits, AllFit, read_files_step, read_files-file_lines, read_file-Fits, cut-Fits, read_file-section,
}

section_end-broken :
    (junk rest : Bytes)
    → Free 10 junk
    → is_crlf junk ≡ false
    → section_end (junk ++ 10 ∷ rest) ≡ (some bad_section_end, rest)
unfolding section_end
section_end-broken junk rest h k = ground (arith, cut_at-append 10 junk rest h)

module _ (d : Decoder) where
  -- An attachment that does not end with a line break is marked, but if another attachment that is in order
  -- follows it, no error is returned: the last attachment decides.
  pub read_files_error_lost :
      (v w : Bytes) (vs : List Bytes) (f g : File) (fs : List File) (junk : Bytes)
      → Fits d v f
      → AllFit d (w ∷ vs) (g ∷ fs)
      → Free 10 junk
      → is_crlf junk ≡ false
      → read_files d (v ∷ w ∷ vs) none (f.content ++ (junk ++ 10 ∷ file_lines (g ∷ fs)))
        ≡ ok (record f { failure = some bad_section_end } ∷ g ∷ fs, none)
  read_files_error_lost v w vs f g fs junk hf hg free bad =
      let size = show_int (pos (length g.content)) in
      let broken = record f { failure = some bad_section_end } in
      let others =
        read_files_step d w size hg.0.word vs g fs (file_lines (g ∷ fs)) (file_lines fs)
          (some bad_section_end) none (cut-Fits d w g hg.0)
          (read_file-Fits d w g (file_lines fs) hg.0)
          (rw (append-nil (file_lines fs)) at (read_files-file_lines d vs fs [] hg.1)) in
      read_files_step d v (show_int (pos (length f.content))) hf.word (w ∷ vs) broken (g ∷ fs)
        (f.content ++ (junk ++ 10 ∷ file_lines (g ∷ fs))) (file_lines (g ∷ fs)) none
        (some bad_section_end) (cut-Fits d v f hf)
        (read_file-section d (show_int (pos (length f.content))) hf.word f
          (junk ++ 10 ∷ file_lines (g ∷ fs)) (file_lines (g ∷ fs)) (some bad_section_end) refl
          hf.name_eq hf.small (section_end-broken junk (file_lines (g ∷ fs)) free bad))
        others

token-ne_space : (c : ℕ) → is_token c ≡ true → is_ascii_space c ≡ false
unfolding is_token
token-ne_space c h = ground arith

trim_left_space-key : (k rest : Bytes) → IsKey k → trim_left_space (k ++ rest) ≡ k ++ rest
unfolding trim_left_space all_tokens
trim_left_space-key [] rest h = absurd (h.ne_nil refl)
trim_left_space-key (c ∷ k) rest h = elim (Bool-cases (is_token c)) [
  | inl e ↦ rw (token-ne_space c e)
  | inr e ↦ absurd (let h' = rw e at h.tokens in cc)
]

trim_left_space-wire :
    (k v : Bytes) (fs : List (Bytes × Bytes)) (rest : Bytes)
    → IsKey k
    → trim_left_space (wire ((k, v) ∷ fs) rest) ≡ wire ((k, v) ∷ fs) rest
trim_left_space-wire k v fs rest h =
    rw (append_assoc k (b':' ∷ b' ' ∷ v) (13 ∷ 10 ∷ wire fs rest))
      (trim_left_space-key k (b':' ∷ b' ' ∷ v ++ 13 ∷ 10 ∷ wire fs rest) h)

module _ (time : TimePackage) (d : Decoder) where
  negative_panics :
      (start : Message) (s : Bytes) (h : Header) (rest : Bytes) (n : ℕ)
      → read_mime_header (trim_left_space s) ≡ ok (h, rest)
      → (atoi (first (lookup header_body h))).0 ≡ negsuc n
      → read_from time d start s ≡ panic
  unfolding read_from body_size read_section header_get canonical_key capitals all_tokens is_token
  negative_panics start s h rest n e k = ground (arith, e, k)

  -- A message whose first Body header is a negative number makes `ReadFrom` panic, whatever its other
  -- headers are.
  pub read_from_negative_size :
      (start : Message) (k v rest : Bytes) (fs : List (Bytes × Bytes)) (n : ℕ) (more : List Bytes)
      → All IsField ((k, v) ∷ fs)
      → values header_body ((k, v) ∷ fs) ≡ show_int (negsuc n) ∷ more
      → n < 2 ^ 63
      → read_from time d start (wire ((k, v) ∷ fs) (crlf ++ rest)) ≡ panic
  unfolding lookup
  read_from_negative_size start k v rest fs n more h e small =
      let fields = (k, v) ∷ fs in
      let first_value : first (lookup header_body (add_all fields [])) ≡ show_int (negsuc n) =
        ap first (lookup-add_all header_body fields [] ∙ e) in
      negative_panics start (wire fields (crlf ++ rest)) (add_all fields []) rest n
        (ap read_mime_header (trim_left_space-wire k v fs (crlf ++ rest) h.0.0)
          ∙ read_mime_header-wire fields rest h)
        (ap (λ x. (atoi x).0) first_value
          ∙ ap (λ r. r.0) (atoi-show_int (negsuc n) (omega arith) (omega arith)))
