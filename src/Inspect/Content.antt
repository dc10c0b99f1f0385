-- ===== src/Inspect/Content.antt =====
-- `inspect_attachment_bytes` of src/systeme_local_gateway/providers/attachment_commit.py, with the
-- inspections of PDF, text and JSON.
use systeme_local.Prelude.{
  ℕ, ◌+◌, ◌-◌, String, ◌≡◌, ap, Bool, true, false, not, ◌&&◌, Option, none, some, List, [], ◌∷◌,
  arith, ltb, ◌==◌, if◌then◌else◌, Result, ok, err, ◌>>=◌, ◌>>◌, raise_if, raise_if-ok, length, any,
  bind-ok, then-ok, then-split,
}
use systeme_local.Attachments.{
  AttachmentMediaType, png, jpeg, pdf, text, json, AttachmentInspection,
}
use systeme_local.Attachments.Valid.{valid_inspection, max_inspection_bytes}
use systeme_local.Attachments.Valid.Equal.{unique}
use systeme_local.Inspect.Bytes.{
  empty_content, content_too_large, invalid_pdf, invalid_utf8, nul_byte, invalid_json, InspectError,
  inspection_error, invalid_result, drop, starts_with, one_of,
}
use systeme_local.Inspect.Png.{inspect_png}
use systeme_local.Inspect.Jpeg.{inspect_jpeg}

-- Checksums and digests, the two regular expressions of PDF, strict UTF-8 as code points, and
-- `JSONDecoder.raw_decode`, are not part of the program. The decoder is given the test that its hook
-- makes of the keys of an object, and yields the index after the value, unless it raises.
pub record ContentCalls : Type 0 where
  pub crc32 : List ℕ → ℕ → ℕ
  pub sha256 : List ℕ → String
  pub pdf_header : List ℕ → Bool
  pub pdf_eof : List ℕ → Bool
  pub decode_utf8 : List ℕ → Option (List ℕ)
  pub raw_decode : (List String → Bool) → List ℕ → Option ℕ

abbrev is_whitespace : ℕ → Bool
is_whitespace = one_of (32 ∷ 9 ∷ 13 ∷ 10 ∷ [])

-- `text.lstrip(json_whitespace)`, and whether nothing is left after `strip`
abbrev lstrip : List ℕ → List ℕ
lstrip [] = []
lstrip (c ∷ rest) = let more = lstrip rest in if is_whitespace c then more else c ∷ rest

abbrev is_blank : List ℕ → Bool
is_blank [] = true
is_blank (c ∷ rest) = is_whitespace c && is_blank rest

module _ (calls : ContentCalls) where
  pub inspect_pdf : List ℕ → Result InspectError (Unit {0})
  inspect_pdf content = do
    raise_if (not (calls.pdf_header content)) (inspection_error invalid_pdf)
    raise_if (not (calls.pdf_eof (drop (length content - 4096) content)))
        (inspection_error invalid_pdf)

  abbrev decoded : Option (List ℕ) → Result InspectError (List ℕ)
  decoded none = err (inspection_error invalid_utf8)
  decoded (some codes) = ok codes

  unfoldable pub inspect_text : List ℕ → Result InspectError (List ℕ)
  inspect_text content = do
    raise_if (any (λ b. b == 0) content) (inspection_error nul_byte)
    decoded (calls.decode_utf8 content)

  -- one value, and only white space after it
  abbrev complete_value : List ℕ → ℕ → Option ℕ → Result InspectError (Unit {0})
  complete_value codes leading none = err (inspection_error invalid_json)
  complete_value codes leading (some end) =
      raise_if (not (is_blank (drop (end + leading) codes))) (inspection_error invalid_json)

  -- `reject_duplicate_keys` is the test `unique` of the keys
  pub inspect_json : List ℕ → Result InspectError (Unit {0})
  inspect_json content = do
    raise_if (starts_with content (239 ∷ 187 ∷ 191 ∷ [])) (inspection_error invalid_json)
    codes ← inspect_text content
    complete_value codes (length codes - length (lstrip codes))
        (calls.raw_decode unique (lstrip codes))

  abbrev both : ℕ × ℕ → Option ℕ × Option ℕ
  both dims = (some dims.0, some dims.1)

  unfoldable pub inspect_content :
      AttachmentMediaType → List ℕ → Result InspectError (Option ℕ × Option ℕ)
  inspect_content png content = inspect_png calls.crc32 content >>= (λ dims. ok (both dims))
  inspect_content jpeg content = inspect_jpeg content >>= (λ dims. ok (both dims))
  inspect_content pdf content = inspect_pdf content >> ok (none, none)
  inspect_content text content = inspect_text content >>= (λ codes. ok (none, none))
  inspect_content json content = inspect_json content >> ok (none, none)

  abbrev pub inspection_of :
      List ℕ → AttachmentMediaType → ℕ → Option ℕ × Option ℕ → AttachmentInspection
  inspection_of content media_type inspected_at dims = record {
    media_type = media_type;
    content_sha256 = calls.sha256 content;
    byte_size = length content;
    image_width = dims.0;
    image_height = dims.1;
    inspected_at = inspected_at;
  }

  unfoldable pub inspect_attachment_bytes :
      List ℕ → AttachmentMediaType → ℕ → Result InspectError AttachmentInspection
  inspect_attachment_bytes content media_type inspected_at = do
    raise_if (length content == 0) (inspection_error empty_content)
    raise_if (ltb max_inspection_bytes (length content)) (inspection_error content_too_large)
    dims ← inspect_content media_type content
    raise_if (not (valid_inspection (inspection_of content media_type inspected_at dims)))
        invalid_result
    ok (inspection_of content media_type inspected_at dims)

  pub record IsInspected (content : List ℕ) (media_type : AttachmentMediaType) (inspected_at : ℕ)
      (i : AttachmentInspection) : Type 0 where
    pub dims : Option ℕ × Option ℕ
    pub filled : (length content == 0) ≡ false
    pub bounded : ltb max_inspection_bytes (length content) ≡ false
    pub inspected : inspect_content media_type content ≡ ok dims
    pub valid : valid_inspection (inspection_of content media_type inspected_at dims) ≡ true
    pub made : inspection_of content media_type inspected_at dims ≡ i

  pub inspect-IsInspected :
      (content : List ℕ) (media_type : AttachmentMediaType) (inspected_at : ℕ)
      (i : AttachmentInspection)
      → inspect_attachment_bytes content media_type inspected_at ≡ ok i
      → IsInspected content media_type inspected_at i
  unfolding inspect_attachment_bytes
  inspect-IsInspected content type t i h =
      let tail = λ (dims : Option ℕ × Option ℕ).
        raise_if (not (valid_inspection (inspection_of content type t dims))) invalid_result
        >> ok (inspection_of content type t dims) in
      let (a, h1) =
        then-split (raise_if (length content == 0) (inspection_error empty_content))
          (raise_if (ltb max_inspection_bytes (length content)) (inspection_error content_too_large)
            >> (inspect_content type content >>= tail))
          h in
      let (b, h2) =
        then-split
          (raise_if (ltb max_inspection_bytes (length content))
            (inspection_error content_too_large))
          (inspect_content type content >>= tail) h1 in
      let (dims, inspected, h3) = bind-ok (inspect_content type content) tail h2 in
      let (c, h4) =
        then-split
          (raise_if (not (valid_inspection (inspection_of content type t dims))) invalid_result)
          (ok (inspection_of content type t dims)) h3 in
      let valid =
        raise_if-ok (not (valid_inspection (inspection_of content type t dims))) invalid_result c in
      record {
        dims = dims;
        filled = raise_if-ok (length content == 0) (inspection_error empty_content) a;
        bounded =
            raise_if-ok (ltb max_inspection_bytes (length content))
              (inspection_error content_too_large) b;
        inspected = inspected;
        valid = ground arith;
        made = then-ok (ok tt) h4;
      }

  -- the same bytes at another time
  pub inspected_again :
      (content : List ℕ) (media_type : AttachmentMediaType) (inspected_at : ℕ)
      (i : AttachmentInspection) (t : ℕ)
      → IsInspected content media_type inspected_at i
      → inspect_attachment_bytes content media_type t ≡ ok (record i { inspected_at = t })
  unfolding inspect_attachment_bytes valid_inspection
  inspected_again content type s i t h =
      rw (h.filled, h.bounded, h.inspected, h.valid)
        (ap (λ (x : AttachmentInspection). ok (record x { inspected_at = t })) h.made)
