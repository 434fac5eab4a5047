-- ===== src/Recorder/Format/RoundTrip.antt =====
-- Whole files: what `collect_all` makes of them, written by a `ShowWriter` or not.
use mathlib.Core.List.{append-nil, append_assoc}
use led_platform.Prelude.{
  ap, length-append, sym, true, ◌++◌, ◌==◌, ◌∙◌, ◌≤◌, ◌>>=◌, Result-cases, [], inl, inr, length,
  none, refl, some, suc, u32, zero, ◌+◌, ◌<◌, ◌∷◌, Option, List, ℕ, arith, ◌≡◌, ok, err,
}
use led_platform.Color.{PixelColor}
use led_platform.Recorder.Format.{
  AudioSnapshot, ShowRecord, u32_le, record_bytes, ShowWriter, writer_new, write_frame,
  write_frames, finalise, file_of, header_bytes, pixels_bytes, flag_bytes, audio_bytes,
}
use led_platform.Recorder.Format.Reader.{
  ReadError, io, read_u32, read_u64, ShowReader, next_frame, reader_new, collect_from, collect_all,
}
use led_platform.Recorder.Format.Bytes.{
  read_u32-u32_le_any, IsRecord, next_frame-record_bytes, read_u32-u32_le,
}

abbrev pub AllRecords : ℕ → List ShowRecord → Type 0
AllRecords n [] = Unit {0}
AllRecords n (r ∷ rs) = IsRecord n r × AllRecords n rs

unfoldable pub records_bytes : List ShowRecord → List ℕ → List ℕ
records_bytes [] rest = rest
records_bytes (r ∷ rs) rest = record_bytes r (records_bytes rs rest)

read_u32-short : (bs : List ℕ) → length bs < 4 → read_u32 bs ≡ err io
unfolding read_u32
read_u32-short [] h = refl
read_u32-short (a ∷ []) h = refl
read_u32-short (a ∷ b ∷ []) h = refl
read_u32-short (a ∷ b ∷ c ∷ []) h = refl
read_u32-short (a ∷ b ∷ c ∷ d ∷ bs) h = absurd (omega (arith, h))

pub read_u32_takes :
    (bs : List ℕ) (n : ℕ) (rest : List ℕ) → read_u32 bs ≡ ok (n, rest) → length bs ≡ 4 + length rest
unfolding read_u32
read_u32_takes [] n rest e = absurd (ground arith)
read_u32_takes (a ∷ []) n rest e = absurd (ground arith)
read_u32_takes (a ∷ b ∷ []) n rest e = absurd (ground arith)
read_u32_takes (a ∷ b ∷ c ∷ []) n rest e = absurd (ground arith)
read_u32_takes (a ∷ b ∷ c ∷ d ∷ bs) n rest e = ground arith

read_u32-err : (bs : List ℕ) (x : ReadError) → read_u32 bs ≡ err x → x ≡ io
unfolding read_u32
read_u32-err [] x e = ground arith
read_u32-err (a ∷ []) x e = ground arith
read_u32-err (a ∷ b ∷ []) x e = ground arith
read_u32-err (a ∷ b ∷ c ∷ []) x e = ground arith
read_u32-err (a ∷ b ∷ c ∷ d ∷ bs) x e = absurd (ground arith)

-- Fewer than eight bytes are no frame.
read_u64-short : (bs : List ℕ) → length bs < 8 → read_u64 bs ≡ err io
unfolding read_u64
read_u64-short bs h = elim (Result-cases (read_u32 bs)) [
  | inr (x, e) ↦ rw (e, ◌>>=◌) (ground (arith, read_u32-err bs x e))
  | inl ((n, rest), e) ↦
      rw (e, ◌>>=◌) (rw (read_u32-short rest (omega (arith, read_u32_takes bs n rest e))))
]

collect_from-records_bytes :
    (rs : List ShowRecord) (tail : List ℕ) (fuel pixel_count hint n : ℕ)
    → AllRecords pixel_count rs
    → length tail < 8
    → length rs < fuel
    → collect_from fuel (record {
      inner = records_bytes rs tail;
      pixel_count = pixel_count;
      frame_count_hint = hint;
      frames_read = n;
    })
      ≡ some (ok rs)
unfolding collect_from records_bytes
collect_from-records_bytes rs tail zero pixel_count hint n a s f = absurd (omega arith)
collect_from-records_bytes [] tail (suc fuel) pixel_count hint n a s f =
    let z : next_frame (record {
      inner = tail;
      pixel_count = pixel_count;
      frame_count_hint = hint;
      frames_read = n;
    })
        ≡ ok none =
      unfold next_frame in rw (read_u64-short tail s, next_frame) in
    rw (z, collect_from)
collect_from-records_bytes (r ∷ rs) tail (suc fuel) pixel_count hint n (h, a) s f =
    rw (next_frame-record_bytes pixel_count hint n r (records_bytes rs tail) h, collect_from)
      (rw
        (collect_from-records_bytes rs tail fuel pixel_count hint (u32 (n + 1)) a s (omega arith)))

-- A record's bytes stand before whatever follows.
pixels_bytes-append :
    (pixels : List PixelColor) (xs ys : List ℕ)
    → pixels_bytes pixels (xs ++ ys) ≡ pixels_bytes pixels xs ++ ys
unfolding pixels_bytes
pixels_bytes-append [] xs ys = refl
pixels_bytes-append (px ∷ pixels) xs ys = rw (pixels_bytes-append pixels xs ys)

flag_bytes-append :
    (audio : Option AudioSnapshot) (xs ys : List ℕ)
    → flag_bytes audio (xs ++ ys) ≡ flag_bytes audio xs ++ ys
unfolding flag_bytes audio_bytes
flag_bytes-append none xs ys = refl
flag_bytes-append (some a) xs ys = refl

record_bytes-append :
    (r : ShowRecord) (xs ys : List ℕ) → record_bytes r (xs ++ ys) ≡ record_bytes r xs ++ ys
unfolding record_bytes
record_bytes-append r xs ys =
    rw (flag_bytes-append r.audio xs ys, pixels_bytes-append r.pixels (flag_bytes r.audio xs) ys)

records_bytes-append :
    (rs : List ShowRecord) (xs ys : List ℕ)
    → records_bytes rs (xs ++ ys) ≡ records_bytes rs xs ++ ys
unfolding records_bytes
records_bytes-append [] xs ys = refl
records_bytes-append (r ∷ rs) xs ys =
    rw (records_bytes-append rs xs ys, record_bytes-append r (records_bytes rs xs) ys)

length-records_bytes :
    (rs : List ShowRecord) (xs : List ℕ) → length rs ≤ length (records_bytes rs xs)
unfolding records_bytes
length-records_bytes [] xs = omega arith
length-records_bytes (r ∷ rs) xs =
    let e = record_bytes-append r [] (records_bytes rs xs) in
    omega (
      arith,
      ap length e,
      length-append (record_bytes r []) (records_bytes rs xs),
      record_bytes_pos r,
      length-records_bytes rs xs,
    )
  where
    record_bytes_pos : (r : ShowRecord) → 1 ≤ length (record_bytes r [])
    record_bytes_pos r = unfold record_bytes in omega arith

-- What a run of `write_frame` adds to the writer.
write_frames-records_bytes :
    (rs : List ShowRecord) (w : ShowWriter)
    → w.pixel_count < 4294967296
    → AllRecords w.pixel_count rs
    → (w' : ShowWriter) × (write_frames w rs ≡ some w')
      × (w'.header ≡ w.header)
      × (w'.body ≡ w.body ++ records_bytes rs [])
      × (w'.pixel_count ≡ w.pixel_count)
      × (u32 w'.frame_count ≡ u32 (w.frame_count + length rs))
unfolding write_frames records_bytes
write_frames-records_bytes [] w small a =
    (w, refl, refl, sym (append-nil w.body), refl, ap u32 (omega arith))
write_frames-records_bytes (r ∷ rs) w small (h, a) =
    let next : ShowWriter = record w {
      body = w.body ++ record_bytes r [];
      frame_count = u32 (w.frame_count + 1);
    } in
    let fits : (u32 (length r.pixels) == w.pixel_count) ≡ true = ground (arith, h.pixels) in
    let one : write_frame w r ≡ some next = unfold write_frame in rw fits in
    let (w', e, eh, eb, ep, ec) = write_frames-records_bytes rs next small a in
    (
      w',
      rw (one, write_frames) e,
      eh,
      eb
          ∙ append_assoc w.body (record_bytes r []) (records_bytes rs [])
          ∙ ap (λ (xs : List ℕ). w.body ++ xs)
              (sym (record_bytes-append r [] (records_bytes rs []))),
      ep,
      omega (arith, ec),
    )

reader_new-header_bytes :
    (pixel_count frame_count : ℕ) (rest : List ℕ)
    → pixel_count < 4294967296
    → reader_new (header_bytes pixel_count frame_count ++ rest)
      ≡ ok (record {
        inner = rest;
        pixel_count = pixel_count;
        frame_count_hint = u32 frame_count;
        frames_read = 0;
      })
unfolding reader_new header_bytes
reader_new-header_bytes pixel_count frame_count rest small = rw (
  read_u32-u32_le 1 (u32_le pixel_count (u32_le frame_count rest)) (omega arith),
  read_u32-u32_le pixel_count (u32_le frame_count rest) small,
  read_u32-u32_le_any frame_count rest,
)

finalised :
    (w : ShowWriter) (pixel_count : ℕ)
    → w.header ≡ header_bytes pixel_count 0
    → (finalise w).header ≡ header_bytes pixel_count w.frame_count
unfolding finalise header_bytes
finalised w pixel_count e = rw e

-- For a pixel count below 2^32, frames of that many pixels whose bytes and numbers fit their
-- fields, with any 32 bits for an `f32` of the audio, a NaN or an infinity too, are written
-- without an error, and reading the finished file, with up to seven bytes after it, gives them
-- back, and their number modulo 2^32 as the count of the header.
pub collect_all-write_frames :
    (pixel_count : ℕ) (rs : List ShowRecord) (tail : List ℕ)
    → pixel_count < 4294967296
    → AllRecords pixel_count rs
    → length tail < 8
    → (w : ShowWriter) × (r : ShowReader) × (write_frames (writer_new pixel_count) rs ≡ some w)
      × (reader_new (file_of (finalise w) ++ tail) ≡ ok r)
      × (r.frame_count_hint ≡ u32 (length rs))
      × (collect_all r ≡ some (ok rs))
unfolding writer_new collect_all
collect_all-write_frames pixel_count rs tail small a s =
    let (w, e, eh, eb, ep, ec) = write_frames-records_bytes rs (writer_new pixel_count) small a in
    let body : (finalise w).body ++ tail ≡ records_bytes rs tail =
      unfold finalise in
      ap (λ (xs : List ℕ). xs ++ tail) eb ∙ sym (records_bytes-append rs [] tail) in
    let file : file_of (finalise w) ++ tail
        ≡ header_bytes pixel_count w.frame_count ++ records_bytes rs tail =
      append_assoc (finalise w).header (finalise w).body tail
      ∙ ap (λ (xs : List ℕ). (finalise w).header ++ xs) body
      ∙ ap (λ (xs : List ℕ). xs ++ records_bytes rs tail) (finalised w pixel_count eh) in
    (
      w,
      record {
        inner = records_bytes rs tail;
        pixel_count = pixel_count;
        frame_count_hint = u32 w.frame_count;
        frames_read = 0;
      },
      e,
      ap reader_new file
          ∙ reader_new-header_bytes pixel_count w.frame_count (records_bytes rs tail) small,
      omega (arith, ec),
      collect_from-records_bytes rs tail (suc (length (records_bytes rs tail))) pixel_count
          (u32 w.frame_count) 0 a s (omega (arith, length-records_bytes rs tail)),
    )
