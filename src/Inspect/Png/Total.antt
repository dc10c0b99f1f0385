-- ===== src/Inspect/Png/Total.antt =====
-- The inspection of a PNG returns or raises `INVALID_PNG`, for any bytes.
use systeme_local.Prelude.{
  ℕ, zero, suc, ◌+◌, ◌-◌, ◌≤◌, ◌<◌, ◌≡◌, Bool, false, not, ◌||◌, Option, none, some, List, [], ◌∷◌,
  arith, ltb, ◌==◌, ok, raise_if, Post, Post-bind, Post-then, length, any,
}
use systeme_local.Inspect.Bytes.{slice, big, bytes_eq, starts_with, one_of}
use systeme_local.Inspect.Settled.{
  Settled, Settled-ok, Settled-err, Settled-check, Settled-bind, Settled-byte, Settled-if,
}
use systeme_local.Inspect.Png.{
  bad_png, PngState, png_signature, ihdr, idat, iend, png_start, valid_depth, read_ihdr, chunk_size,
  after_chunk, read_chunk, read_chunks, png_size, inspect_png, is_letter,
}
use Prim.Native.Nat.{◌%◌}

read_ihdr-Settled :
    (content type : List ℕ) (size start : ℕ)
    → start + size + 4 ≤ length content
    → Settled bad_png (read_ihdr content type size start)
unfolding read_ihdr
read_ihdr-Settled content type size start room =
    Settled-check bad_png (not (bytes_eq type ihdr) || not (size == 13)) _ (λ q.
      let sized : size ≡ 13 = ground arith in
      Settled-byte bad_png content (start + 8) _ (omega arith) (λ depth.
        Settled-byte bad_png content (start + 9) _ (omega arith) (λ color.
          Settled-byte bad_png content (start + 10) _ (omega arith) (λ compression.
            Settled-byte bad_png content (start + 11) _ (omega arith) (λ filter_method.
              Settled-byte bad_png content (start + 12) _ (omega arith) (λ interlace.
                Settled-check bad_png
                  (big (slice content start (start + 4)) == 0
                    || big (slice content (start + 4) (start + 8)) == 0
                    || not (valid_depth color depth)
                    || not (compression == 0)
                    || not (filter_method == 0)
                    || not (one_of (0 ∷ 1 ∷ []) interlace))
                  _ (λ valid. Settled-ok bad_png _)))))))

chunk_size-Settled :
    (content : List ℕ) (s : PngState) (type : List ℕ) (size : ℕ)
    → s.offset + 8 + size + 4 ≤ length content
    → Settled bad_png (chunk_size content s type size)
unfolding chunk_size
chunk_size-Settled content s type size room =
    Settled-if bad_png (s.chunk_index == 0) _ _
      (λ first.
        Settled-bind bad_png (read_ihdr content type size (s.offset + 8)) _
          (read_ihdr-Settled content type size (s.offset + 8) room)
          (λ dims read. Settled-ok bad_png (some dims)))
      (λ later. Settled-check bad_png (bytes_eq type ihdr) _ (λ other. Settled-ok bad_png s.size))

after_chunk-Settled :
    (content : List ℕ) (s : PngState) (type : List ℕ) (size : ℕ) (dims : Option (ℕ × ℕ))
    → Settled bad_png (after_chunk content s type size dims)
unfolding after_chunk
after_chunk-Settled content s type size dims =
    Settled-if bad_png (bytes_eq type iend) _ _
      (λ end.
        Settled-check bad_png (not (size == 0) || not (s.saw_idat || bytes_eq type idat)) _ (λ a.
          Settled-check bad_png (not (s.offset + 8 + size + 4 == length content)) _
            (λ b. Settled-ok bad_png _)))
      (λ other. Settled-ok bad_png _)

after_chunk-offset :
    (content : List ℕ) (s : PngState) (type : List ℕ) (size : ℕ) (dims : Option (ℕ × ℕ))
    (t : PngState)
    → after_chunk content s type size dims ≡ ok t
    → t.saw_iend ≡ false
    → s.offset < t.offset
unfolding after_chunk
after_chunk-offset content s type size dims t h open_ = ground arith

png_size-Settled : (o : Option (ℕ × ℕ)) (saw : Bool) → Settled bad_png (png_size o saw)
png_size-Settled none saw = Settled-err bad_png (ℕ × ℕ)
png_size-Settled (some dims) saw =
    Settled-if bad_png saw _ _ (λ a. Settled-ok bad_png dims) (λ b. Settled-err bad_png (ℕ × ℕ))

module _ (crc32 : List ℕ → ℕ → ℕ) where
  abbrev Forward : PngState → PngState → Type 0
  Forward s t = t.saw_iend ≡ false → s.offset < t.offset

  checks : List ℕ → PngState → Bool × Bool × Bool × Bool
  checks content s =
      let size = big (slice content s.offset (s.offset + 4)) in
      let type = slice content (s.offset + 4) (s.offset + 8) in
      let data_start = s.offset + 8 in
      let data_end = data_start + size in
      (
        ltb (length content - s.offset) 12,
        not (length type == 4) || any (λ v. not (is_letter v)) type,
        ltb data_end data_start || ltb (length content) (data_end + 4),
        not (
            big (slice content data_end (data_end + 4))
            == crc32 (slice content data_start data_end) (crc32 type 0) % 4_294_967_296),
      )

  read_chunk-Settled :
      (content : List ℕ) (s : PngState) → Settled bad_png (read_chunk crc32 content s)
  unfolding read_chunk checks
  read_chunk-Settled content s =
      let size = big (slice content s.offset (s.offset + 4)) in
      let type = slice content (s.offset + 4) (s.offset + 8) in
      Settled-check bad_png (checks content s).0 _ (λ a.
        Settled-check bad_png (checks content s).1 _ (λ b.
          Settled-check bad_png (checks content s).2 _ (λ c.
            Settled-check bad_png (checks content s).3 _ (λ d.
              Settled-bind bad_png (chunk_size content s type size) _
                (chunk_size-Settled content s type size (ground arith))
                (λ dims read. after_chunk-Settled content s type size dims)))))

  read_chunk-Forward :
      (content : List ℕ) (s : PngState) → Post (Forward s) (read_chunk crc32 content s)
  unfolding read_chunk checks
  read_chunk-Forward content s =
      let size = big (slice content s.offset (s.offset + 4)) in
      let type = slice content (s.offset + 4) (s.offset + 8) in
      Post-then (raise_if (checks content s).0 bad_png) _ (λ a.
        Post-then (raise_if (checks content s).1 bad_png) _ (λ b.
          Post-then (raise_if (checks content s).2 bad_png) _ (λ c.
            Post-then (raise_if (checks content s).3 bad_png) _ (λ d.
              Post-bind (chunk_size content s type size) _ (λ dims read. record {
                at = λ t q open_. after_chunk-offset content s type size dims t q open_;
              })))))

  read_chunks-Settled :
      (fuel : ℕ) (content : List ℕ) (s : PngState)
      → length content ≤ fuel + s.offset
      → Settled bad_png (read_chunks crc32 fuel content s)
  unfolding read_chunks
  read_chunks-Settled zero content s enough =
      let over : ltb s.offset (length content) ≡ false = ground arith in
      rw over (Settled-ok bad_png s)
  read_chunks-Settled (suc fuel) content s enough =
      Settled-if bad_png (ltb s.offset (length content)) _ _
        (λ inside.
          Settled-bind bad_png (read_chunk crc32 content s) _ (read_chunk-Settled content s)
            (λ t read.
              Settled-if bad_png t.saw_iend _ _ (λ e. Settled-ok bad_png t)
                (λ open_.
                  let forward = (read_chunk-Forward content s).at t read open_ in
                  read_chunks-Settled fuel content t (omega arith))))
        (λ over. Settled-ok bad_png s)

  -- For any bytes, and whatever the checksums are, the inspection of a PNG ends within the fuel that
  -- it has, never reads a byte out of range, and either returns a width and a height or raises
  -- `INVALID_PNG`.
  pub inspect_png-Settled : (content : List ℕ) → Settled bad_png (inspect_png crc32 content)
  unfolding inspect_png
  inspect_png-Settled content =
      Settled-check bad_png (ltb (length content) 20 || not (starts_with content png_signature)) _
        (λ long.
          Settled-bind bad_png (read_chunks crc32 (length content) content png_start) _
            (read_chunks-Settled (length content) content png_start (omega arith))
            (λ s read. png_size-Settled s.size s.saw_iend))
