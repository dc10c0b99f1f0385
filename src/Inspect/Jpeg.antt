-- ===== src/Inspect/Jpeg.antt =====
-- `_inspect_jpeg` of src/systeme_local_gateway/providers/attachment_commit.py.
pub mod Total
pub mod Dimensions
use systeme_local.Prelude.{
  ℕ, zero, suc, ◌+◌, ◌-◌, ◌*◌, ◌≤◌, ◌<◌, String, ◌≡◌, refl, sym, ap, ◌∙◌, ◌≢◌, ◌↔◌, ◌⊎◌, inl, inr,
  Bool, true, false, not, ◌&&◌, ◌||◌, Option, none, some, List, [], ◌∷◌, ◌++◌, map, arith, str_eq,
  eq_iff, eq_refl, ltb, leb, ◌==◌, if◌then◌else◌, leb→le, Bool-cases, Option-cases, is_some, Result,
  ok, err, ◌>>=◌, ◌>>◌, raise_if, Method, commit_or_rollback, Post, Post-ok, Post-err, Post-bind,
  Post-then, Post-if, raise_if-ok, Post-commit, committed, length, any, find, keep, length-append,
  length-keep, All, All-append, any-append, All-keep, any-keep, keep-keep, find-all_false,
  find-true, All-find, Distinct, str_eq_comm, Distinct-keep, Distinct-append, has_key, dict_get,
  dict_set, dict_pop, has_key-dict_set, has_key-dict_pop, All-dict_set, All-dict_pop, bind-ok,
  bind-step, then-ok, then-split, find-append, find-append_none, find_last, find-any, any-find-none,
  any-find, keep-append, any-keep_and, any-or_left, any-or_right,
}
use systeme_local.Inspect.Bytes.{
  InspectError, inspection_error, unfinished, invalid_jpeg, slice, byte_at, big, starts_with,
  ends_with, one_of,
}

abbrev pub bad_jpeg : InspectError
bad_jpeg = inspection_error invalid_jpeg

-- the variables of the loop; `scan_data_start` is there exactly if `saw_sos` is set
pub record JpegState : Type 0 where
  pub offset : ℕ
  pub size : Option (ℕ × ℕ)
  pub scan_data_start : Option ℕ

abbrev pub jpeg_start : JpegState
jpeg_start = record { offset = 2; size = none; scan_data_start = none }

-- `_JPEG_SOF_MARKERS`
abbrev pub sof_markers : List ℕ
sof_markers = 192 ∷ 193 ∷ 194 ∷ 195 ∷ 197 ∷ 198 ∷ 199 ∷ 201 ∷ 202 ∷ 203 ∷ 205 ∷ 206 ∷ 207 ∷ []

-- markers without a segment
abbrev pub standalone : ℕ → Bool
standalone marker = (leb 208 marker && ltb marker 216) || marker == 1

-- `while offset < len(content) and content[offset] == 0xFF`
unfoldable pub skip_fill : ℕ → List ℕ → ℕ → Result InspectError ℕ
skip_fill zero content offset = if ltb offset (length content) then err unfinished else ok offset
skip_fill (suc fuel) content offset =
    let rest = skip_fill fuel content (offset + 1) in
    let more = byte_at content offset >>= (λ b. if b == 255 then rest else ok offset) in
    if ltb offset (length content) then more else ok offset

-- a marker, and the offset after it
unfoldable pub read_marker : List ℕ → ℕ → Result InspectError (ℕ × ℕ)
read_marker content offset = do
  prefix ← byte_at content offset
  raise_if (not (prefix == 255)) bad_jpeg
  place ← skip_fill (length content) content offset
  raise_if (leb (length content) place) bad_jpeg
  marker ← byte_at content place
  raise_if (marker == 0) bad_jpeg
  ok (marker, place + 1)

-- the dimensions of a start of frame, as width and height
unfoldable pub read_sof : Option (ℕ × ℕ) → List ℕ → ℕ → Result InspectError (Option (ℕ × ℕ))
read_sof size payload segment_length = do
  raise_if (is_some size) bad_jpeg
  raise_if (ltb (length payload) 6) bad_jpeg
  precision ← byte_at payload 0
  components ← byte_at payload 5
  raise_if
      (not (one_of (8 ∷ 12 ∷ 16 ∷ []) precision)
        || big (slice payload 3 5) == 0
        || big (slice payload 1 3) == 0
        || components == 0
        || not (segment_length == 8 + 3 * components))
      bad_jpeg
  ok (some (big (slice payload 3 5), big (slice payload 1 3)))

-- after the segment; at the start of the scan the loop is left
abbrev pub after_segment : ℕ → JpegState → ℕ → Option (ℕ × ℕ) → JpegState
after_segment marker s end size =
    if marker == 218
    then record s { size = size; scan_data_start = some end }
    else record s { offset = end; size = size }

unfoldable pub read_segment : List ℕ → JpegState → ℕ → ℕ → Result InspectError JpegState
read_segment content s marker offset =
    let segment_length = big (slice content offset (offset + 2)) in
    let segment_end = offset + segment_length in
    raise_if (ltb (length content) (offset + 2)) bad_jpeg
    >> (raise_if (ltb segment_length 2) bad_jpeg
        >> (raise_if (ltb (length content) segment_end) bad_jpeg
            >> ((if one_of sof_markers marker
                  then read_sof s.size (slice content (offset + 2) segment_end) segment_length
                  else ok s.size)
                >>= (λ size. ok (after_segment marker s segment_end size)))))

-- one turn of the loop after the marker
unfoldable pub read_part : List ℕ → JpegState → ℕ → ℕ → Result InspectError JpegState
read_part content s marker offset =
    if standalone marker
    then ok (record s { offset = offset })
    else (raise_if (marker == 216 || marker == 217) bad_jpeg
        >> read_segment content s marker offset)

-- `while offset < len(content) - 2`, for at most `fuel` turns
unfoldable pub read_parts : ℕ → List ℕ → JpegState → Result InspectError JpegState
read_parts zero content s = if ltb s.offset (length content - 2) then err unfinished else ok s
read_parts (suc fuel) content s =
    let turn = read_marker content s.offset >>= (λ m. read_part content s m.0 m.1) in
    let more = turn >>= (λ t.
      let rest = read_parts fuel content t in if is_some t.scan_data_start then ok t else rest) in
    if ltb s.offset (length content - 2) then more else ok s

-- what is there when the loop has ended
abbrev pub jpeg_size : List ℕ → Option (ℕ × ℕ) → Option ℕ → Result InspectError (ℕ × ℕ)
jpeg_size content none scan = err bad_jpeg
jpeg_size content (some dims) none = err bad_jpeg
jpeg_size content (some dims) (some start) =
    if leb (length content - 2) start then err bad_jpeg else ok dims

-- a turn takes at least one byte, so the length of the content is enough fuel
unfoldable pub inspect_jpeg : List ℕ → Result InspectError (ℕ × ℕ)
inspect_jpeg content = do
  raise_if
      (ltb (length content) 8
        || not (starts_with content (255 ∷ 216 ∷ []))
        || not (ends_with content (255 ∷ 217 ∷ [])))
      bad_jpeg
  s ← read_parts (length content) content jpeg_start
  jpeg_size content s.size s.scan_data_start
