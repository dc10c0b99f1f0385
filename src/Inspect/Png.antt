-- ===== src/Inspect/Png.antt =====
-- `_inspect_png` of src/systeme_local_gateway/providers/attachment_commit.py.
pub mod Total
pub mod Dimensions
use systeme_local.Prelude.{
  ℕ, zero, suc, ◌+◌, ◌-◌, ◌*◌, ◌≤◌, ◌<◌, String, ◌≡◌, refl, sym, ap, ◌∙◌, ◌≢◌, ◌↔◌, ◌⊎◌, inl, inr,
  Bool, true, false, not, ◌&&◌, ◌||◌, Option, none, some, List, [], ◌∷◌, ◌++◌, map, arith, str_eq,
  eq_iff, eq_refl, ltb, leb, ◌==◌, if◌then◌else◌, leb→le, Bool-cases, Option-cases, is_some, Result,
  ok, err, ◌>>=◌, ◌>>◌, raise_if, Method, commit_or_rollback, Post, Post-ok, Post-err, Post-bind,
  Post-then, Post-if, raise_if-ok, Post-commit, committed, length, any, find, keep, length-append,
  length-keep, All, All-append, any-append, All-keep, any-keep, keep-keep, find-all_false,
  find-true, All-find, Distinct, str_eq_comm, Distinct-keep, Distinct-append, has_key, dict_get,
  dict_set, dict_pop, has_key-dict_set, has_key-dict_pop, All-dict_set, All-dict_pop, bind-ok,
  bind-step, then-ok, then-split, find-append, find-append_none, find_last, find-any, any-find-none,
  any-find, keep-append, any-keep_and, any-or_left, any-or_right,
}
use Prim.Native.Nat.{◌%◌}
use systeme_local.Inspect.Bytes.{
  InspectError, inspection_error, unfinished, invalid_png, slice, byte_at, big, bytes_eq,
  starts_with, one_of,
}

abbrev pub bad_png : InspectError
bad_png = inspection_error invalid_png

-- the variables of the loop
pub record PngState : Type 0 where
  pub offset : ℕ
  pub chunk_index : ℕ
  pub size : Option (ℕ × ℕ)
  pub saw_idat : Bool
  pub saw_iend : Bool

abbrev pub png_signature : List ℕ
png_signature = 137 ∷ 80 ∷ 78 ∷ 71 ∷ 13 ∷ 10 ∷ 26 ∷ 10 ∷ []

abbrev pub ihdr : List ℕ
ihdr = 73 ∷ 72 ∷ 68 ∷ 82 ∷ []

abbrev pub idat : List ℕ
idat = 73 ∷ 68 ∷ 65 ∷ 84 ∷ []

abbrev pub iend : List ℕ
iend = 73 ∷ 69 ∷ 78 ∷ 68 ∷ []

abbrev pub png_start : PngState
png_start = record { offset = 8; chunk_index = 0; size = none; saw_idat = false; saw_iend = false }

abbrev is_letter : ℕ → Bool
is_letter v = (leb 65 v && leb v 90) || (leb 97 v && leb v 122)

-- `valid_depths`: the depths of a colour type
unfoldable pub valid_depth : ℕ → ℕ → Bool
valid_depth color depth =
    (color == 0 && one_of (1 ∷ 2 ∷ 4 ∷ 8 ∷ 16 ∷ []) depth)
    || (color == 2 && one_of (8 ∷ 16 ∷ []) depth)
    || (color == 3 && one_of (1 ∷ 2 ∷ 4 ∷ 8 ∷ []) depth)
    || (color == 4 && one_of (8 ∷ 16 ∷ []) depth)
    || (color == 6 && one_of (8 ∷ 16 ∷ []) depth)

-- the IHDR chunk: its data start at `start`
unfoldable pub read_ihdr : List ℕ → List ℕ → ℕ → ℕ → Result InspectError (ℕ × ℕ)
read_ihdr content type size start = do
  raise_if (not (bytes_eq type ihdr) || not (size == 13)) bad_png
  depth ← byte_at content (start + 8)
  color ← byte_at content (start + 9)
  compression ← byte_at content (start + 10)
  filter_method ← byte_at content (start + 11)
  interlace ← byte_at content (start + 12)
  raise_if
      (big (slice content start (start + 4)) == 0
        || big (slice content (start + 4) (start + 8)) == 0
        || not (valid_depth color depth)
        || not (compression == 0)
        || not (filter_method == 0)
        || not (one_of (0 ∷ 1 ∷ []) interlace))
      bad_png
  ok (big (slice content start (start + 4)), big (slice content (start + 4) (start + 8)))

-- the first chunk is IHDR, and no other is
unfoldable pub chunk_size : List ℕ → PngState → List ℕ → ℕ → Result InspectError (Option (ℕ × ℕ))
chunk_size content s type size =
    let first = read_ihdr content type size (s.offset + 8) in
    if s.chunk_index == 0
    then (first >>= (λ dims. ok (some dims)))
    else (raise_if (bytes_eq type ihdr) bad_png >> ok s.size)

unfoldable pub after_chunk :
    List ℕ → PngState → List ℕ → ℕ → Option (ℕ × ℕ) → Result InspectError PngState
after_chunk content s type size dims =
    let end = s.offset + 8 + size + 4 in
    let idat_seen = s.saw_idat || bytes_eq type idat in
    if bytes_eq type iend
    then (raise_if (not (size == 0) || not idat_seen) bad_png
        >> (raise_if (not (end == length content)) bad_png
            >> ok (record s { size = dims; saw_idat = idat_seen; saw_iend = true })))
    else ok (record s {
      offset = end;
      chunk_index = s.chunk_index + 1;
      size = dims;
      saw_idat = idat_seen;
    })

-- what is there when the loop has ended
abbrev pub png_size : Option (ℕ × ℕ) → Bool → Result InspectError (ℕ × ℕ)
png_size none saw_iend = err bad_png
png_size (some dims) saw_iend = if saw_iend then ok dims else err bad_png

-- `zlib.crc32` of bytes from a start value is not part of the program.
module _ (crc32 : List ℕ → ℕ → ℕ) where
  -- one turn of the loop
  unfoldable pub read_chunk : List ℕ → PngState → Result InspectError PngState
  read_chunk content s =
      let size = big (slice content s.offset (s.offset + 4)) in
      let type = slice content (s.offset + 4) (s.offset + 8) in
      let data_start = s.offset + 8 in
      let data_end = data_start + size in
      raise_if (ltb (length content - s.offset) 12) bad_png
      >> (raise_if (not (length type == 4) || any (λ v. not (is_letter v)) type) bad_png
          >> (raise_if (ltb data_end data_start || ltb (length content) (data_end + 4)) bad_png
              >> (raise_if
                    (not (
                      big (slice content data_end (data_end + 4))
                      == crc32 (slice content data_start data_end) (crc32 type 0) % 4_294_967_296))
                    bad_png
                  >> (chunk_size content s type size >>= after_chunk content s type size))))

  -- `while offset < len(content)`, for at most `fuel` turns
  unfoldable pub read_chunks : ℕ → List ℕ → PngState → Result InspectError PngState
  read_chunks zero content s = if ltb s.offset (length content) then err unfinished else ok s
  read_chunks (suc fuel) content s =
      let more =
        read_chunk content s
        >>= (λ t. let rest = read_chunks fuel content t in if t.saw_iend then ok t else rest) in
      if ltb s.offset (length content) then more else ok s

  -- a turn takes at least twelve bytes, so the length of the content is enough fuel
  unfoldable pub inspect_png : List ℕ → Result InspectError (ℕ × ℕ)
  inspect_png content = do
    raise_if (ltb (length content) 20 || not (starts_with content png_signature)) bad_png
    s ← read_chunks (length content) content png_start
    png_size s.size s.saw_iend
