-- ===== src/Inspect/Jpeg/Total.antt =====
-- The inspection of a JPEG returns or raises `INVALID_JPEG`, for any bytes.
use systeme_local.Prelude.{
  ℕ, zero, suc, ◌+◌, ◌-◌, ◌*◌, ◌≤◌, ◌<◌, ◌≡◌, inl, inr, false, not, ◌||◌, Option, none, some, List,
  [], ◌∷◌, arith, ltb, leb, ◌==◌, if◌then◌else◌, Bool-cases, is_some, ok, ◌>>=◌, raise_if, Post,
  Post-ok, Post-bind, Post-then, Post-if, length, bind-ok,
}
use systeme_local.Inspect.Bytes.{slice, byte_at, big, starts_with, ends_with, one_of}
use systeme_local.Inspect.Settled.{
  Settled, Settled-ok, Settled-err, Settled-check, Settled-bind, Settled-byte, Settled-if,
}
use systeme_local.Inspect.Jpeg.{
  bad_jpeg, JpegState, jpeg_start, sof_markers, standalone, skip_fill, read_marker, read_sof,
  after_segment, read_segment, read_part, read_parts, jpeg_size, inspect_jpeg,
}

skip_fill-Settled :
    (fuel : ℕ) (content : List ℕ) (offset : ℕ)
    → length content ≤ fuel + offset
    → Settled bad_jpeg (skip_fill fuel content offset)
unfolding skip_fill
skip_fill-Settled zero content offset enough =
    let over : ltb offset (length content) ≡ false = ground arith in
    rw over (Settled-ok bad_jpeg offset)
skip_fill-Settled (suc fuel) content offset enough =
    elim (Bool-cases (ltb offset (length content))) [
      | inl e ↦ rw e (
          Settled-byte bad_jpeg content offset _ (ground arith) (λ b.
            Settled-if bad_jpeg (b == 255) _ _
              (λ f. skip_fill-Settled fuel content (offset + 1) (omega arith))
              (λ f. Settled-ok bad_jpeg offset)))
      | inr e ↦ rw e (Settled-ok bad_jpeg offset)
    ]

skip_fill-Forward :
    (fuel : ℕ) (content : List ℕ) (offset : ℕ)
    → Post (λ place. offset ≤ place) (skip_fill fuel content offset)
unfolding skip_fill
skip_fill-Forward zero content offset = record { at = λ place q. ground arith }
skip_fill-Forward (suc fuel) content offset = elim (Bool-cases (ltb offset (length content))) [
  | inl e ↦ rw e (
      Post-bind (byte_at content offset) _ (λ b read.
        Post-if (b == 255) _ _
          (λ f. record {
            at = λ place q.
                let k = (skip_fill-Forward fuel content (offset + 1)).at place q in omega arith;
          })
          (λ f. Post-ok (omega arith))))
  | inr e ↦ rw e (Post-ok (omega arith))
]

read_marker-Settled :
    (content : List ℕ) (offset : ℕ)
    → offset < length content
    → Settled bad_jpeg (read_marker content offset)
unfolding read_marker
read_marker-Settled content offset inside = Settled-byte bad_jpeg content offset _ inside (λ prefix.
    Settled-check bad_jpeg (not (prefix == 255)) _ (λ a.
      Settled-bind bad_jpeg (skip_fill (length content) content offset) _
        (skip_fill-Settled (length content) content offset (omega arith))
        (λ place skipped. Settled-check bad_jpeg (leb (length content) place) _ (λ b.
          Settled-byte bad_jpeg content place _ (ground arith) (λ marker.
            Settled-check bad_jpeg (marker == 0) _
              (λ c. Settled-ok bad_jpeg (marker, place + 1)))))))

read_marker-Forward :
    (content : List ℕ) (offset : ℕ)
    → Post (λ (m : ℕ × ℕ). offset < m.1) (read_marker content offset)
unfolding read_marker
read_marker-Forward content offset = Post-bind (byte_at content offset) _ (λ prefix read.
    Post-then (raise_if (not (prefix == 255)) bad_jpeg) _ (λ a.
      Post-bind (skip_fill (length content) content offset) _ (λ place skipped.
        Post-then (raise_if (leb (length content) place) bad_jpeg) _ (λ b.
          Post-bind (byte_at content place) _ (λ marker read'.
            Post-then (raise_if (marker == 0) bad_jpeg) _ (λ c.
              let k = (skip_fill-Forward (length content) content offset).at place skipped in
              Post-ok (omega arith)))))))

read_sof-Settled :
    (size : Option (ℕ × ℕ)) (payload : List ℕ) (n : ℕ) → Settled bad_jpeg (read_sof size payload n)
unfolding read_sof
read_sof-Settled size payload n = Settled-check bad_jpeg (is_some size) _ (λ a.
    Settled-check bad_jpeg (ltb (length payload) 6) _ (λ b.
      Settled-byte bad_jpeg payload 0 _ (ground arith) (λ precision.
        Settled-byte bad_jpeg payload 5 _ (ground arith) (λ components.
          Settled-check bad_jpeg
            (not (one_of (8 ∷ 12 ∷ 16 ∷ []) precision)
              || big (slice payload 3 5) == 0
              || big (slice payload 1 3) == 0
              || components == 0
              || not (n == 8 + 3 * components))
            _ (λ c. Settled-ok bad_jpeg _)))))

read_segment-Settled :
    (content : List ℕ) (s : JpegState) (marker offset : ℕ)
    → Settled bad_jpeg (read_segment content s marker offset)
unfolding read_segment
read_segment-Settled content s marker offset =
    let n = big (slice content offset (offset + 2)) in
    Settled-check bad_jpeg (ltb (length content) (offset + 2)) _ (λ a.
      Settled-check bad_jpeg (ltb n 2) _ (λ b.
        Settled-check bad_jpeg (ltb (length content) (offset + n)) _ (λ c.
          Settled-bind bad_jpeg
            (if one_of sof_markers marker
              then read_sof s.size (slice content (offset + 2) (offset + n)) n
              else ok s.size)
            _
            (Settled-if bad_jpeg (one_of sof_markers marker) _ _
              (λ d. read_sof-Settled s.size (slice content (offset + 2) (offset + n)) n)
              (λ d. Settled-ok bad_jpeg s.size))
            (λ size read. Settled-ok bad_jpeg (after_segment marker s (offset + n) size)))))

abbrev Onward : ℕ → JpegState → Type 0
Onward offset t = is_some t.scan_data_start ≡ false → offset ≤ t.offset

read_segment-Onward :
    (content : List ℕ) (s : JpegState) (marker offset : ℕ)
    → Post (Onward offset) (read_segment content s marker offset)
unfolding read_segment
read_segment-Onward content s marker offset =
    let n = big (slice content offset (offset + 2)) in
    Post-then (raise_if (ltb (length content) (offset + 2)) bad_jpeg) _ (λ a.
      Post-then (raise_if (ltb n 2) bad_jpeg) _ (λ b.
        Post-then (raise_if (ltb (length content) (offset + n)) bad_jpeg) _ (λ c.
          Post-bind
            (if one_of sof_markers marker
              then read_sof s.size (slice content (offset + 2) (offset + n)) n
              else ok s.size)
            _ (λ size read. Post-ok (λ open_. ground arith)))))

read_part-Settled :
    (content : List ℕ) (s : JpegState) (marker offset : ℕ)
    → Settled bad_jpeg (read_part content s marker offset)
unfolding read_part
read_part-Settled content s marker offset =
    Settled-if bad_jpeg (standalone marker) _ _ (λ a. Settled-ok bad_jpeg _)
      (λ a.
        Settled-check bad_jpeg (marker == 216 || marker == 217) _
          (λ b. read_segment-Settled content s marker offset))

read_part-Onward :
    (content : List ℕ) (s : JpegState) (marker offset : ℕ)
    → Post (Onward offset) (read_part content s marker offset)
unfolding read_part
read_part-Onward content s marker offset =
    Post-if (standalone marker) _ _ (λ a. Post-ok (λ open_. omega arith))
      (λ a.
        Post-then (raise_if (marker == 216 || marker == 217) bad_jpeg) _
          (λ b. read_segment-Onward content s marker offset))

read_parts-Settled :
    (fuel : ℕ) (content : List ℕ) (s : JpegState)
    → length content ≤ fuel + s.offset
    → Settled bad_jpeg (read_parts fuel content s)
unfolding read_parts
read_parts-Settled zero content s enough =
    let over : ltb s.offset (length content - 2) ≡ false = ground arith in
    rw over (Settled-ok bad_jpeg s)
read_parts-Settled (suc fuel) content s enough =
    Settled-if bad_jpeg (ltb s.offset (length content - 2)) _ _
      (λ inside.
        Settled-bind bad_jpeg (read_marker content s.offset >>= (λ m. read_part content s m.0 m.1))
          _
          (Settled-bind bad_jpeg (read_marker content s.offset) _
            (read_marker-Settled content s.offset (ground arith))
            (λ m read. read_part-Settled content s m.0 m.1))
          (λ t turn.
            Settled-if bad_jpeg (is_some t.scan_data_start) _ _ (λ e. Settled-ok bad_jpeg t)
              (λ open_.
                let (m, marked, parted) =
                  bind-ok (read_marker content s.offset) (λ m. read_part content s m.0 m.1) turn in
                let a = (read_marker-Forward content s.offset).at m marked in
                let b = (read_part-Onward content s m.0 m.1).at t parted open_ in
                read_parts-Settled fuel content t (omega arith))))
      (λ over. Settled-ok bad_jpeg s)

jpeg_size-Settled :
    (content : List ℕ) (o : Option (ℕ × ℕ)) (scan : Option ℕ)
    → Settled bad_jpeg (jpeg_size content o scan)
jpeg_size-Settled content none scan = Settled-err bad_jpeg (ℕ × ℕ)
jpeg_size-Settled content (some dims) none = Settled-err bad_jpeg (ℕ × ℕ)
jpeg_size-Settled content (some dims) (some start) =
    Settled-if bad_jpeg (leb (length content - 2) start) _ _ (λ a. Settled-err bad_jpeg (ℕ × ℕ))
      (λ a. Settled-ok bad_jpeg dims)

-- For any bytes, the inspection of a JPEG ends within the fuel that its two loops have, never reads
-- a byte out of range, and either returns a width and a height or raises `INVALID_JPEG`.
pub inspect_jpeg-Settled : (content : List ℕ) → Settled bad_jpeg (inspect_jpeg content)
unfolding inspect_jpeg
inspect_jpeg-Settled content =
    Settled-check bad_jpeg
      (ltb (length content) 8
        || not (starts_with content (255 ∷ 216 ∷ []))
        || not (ends_with content (255 ∷ 217 ∷ [])))
      _
      (λ long.
        Settled-bind bad_jpeg (read_parts (length content) content jpeg_start) _
          (read_parts-Settled (length content) content jpeg_start (omega arith))
          (λ s read. jpeg_size-Settled content s.size s.scan_data_start))
