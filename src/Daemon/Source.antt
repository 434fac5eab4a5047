-- ===== src/Daemon/Source.antt =====
-- crates/led-daemon-bin/src/source.rs: `FrameSource`, a cursor over a show's file. `file` has the bytes
-- of the file at `path`, and the frame is the record. The loop of `frame_at` has fuel, one more than
-- the bytes left and the frame that is held, and `none` where that runs out. The pixel count is
-- the reader's.
pub mod Cursor
mod Tests
use led_platform.Prelude.{
  ◌>>=◌, List, Option, Result, err, false, if◌then◌else◌, length, ltb, none, ok, some, suc, true,
  zero, ℕ,
}
use led_platform.Recorder.Format.{ShowRecord}
use led_platform.Recorder.Format.Reader.{ReadError, ShowReader, reader_new, next_frame}

pub record FrameSource : Type 0 where
  pub file : List ℕ
  pub reader : ShowReader
  pub current : Option ShowRecord
  pub next : Option ShowRecord

abbrev pub pulled :
    ShowReader
    → Result ReadError (Option (ShowRecord × ShowReader))
    → Result ReadError (Option ShowRecord × ShowReader)
pulled r (err e) = err e
pulled r (ok none) = ok (none, r)
pulled r (ok (some (rec, r'))) = ok (some rec, r')

-- `next_frame` with the reader that it leaves; a reader stays at its end.
unfoldable pub pull : ShowReader → Result ReadError (Option ShowRecord × ShowReader)
pull r = pulled r (next_frame r)

-- `FrameSource::open`.
unfoldable pub open_source : List ℕ → Result ReadError FrameSource
unfolding pull
open_source file = do
  r ← reader_new file
  (current, r) ← pull r
  (next, r) ← pull r
  ok (record { file = file; reader = r; current = current; next = next })

-- After the first frame of `reopen`, which is kept also where the second cannot be read.
abbrev pub reopened :
    FrameSource
    → Option ShowRecord
    → Result ReadError (Option ShowRecord × ShowReader)
    → FrameSource × Option ReadError
reopened s current (err e) = (record s { current = current }, some e)
reopened s current (ok (next, r)) = (record s { current = current; next = next; reader = r }, none)

abbrev pub first_pulled :
    FrameSource → Result ReadError (Option ShowRecord × ShowReader) → FrameSource × Option ReadError
first_pulled s (err e) = (s, some e)
first_pulled s (ok (current, r)) = reopened s current (pull r)

abbrev pub reader_opened :
    FrameSource → Result ReadError ShowReader → FrameSource × Option ReadError
reader_opened s (err e) = (s, some e)
reader_opened s (ok r) = first_pulled s (pull r)

unfoldable pub reopen : FrameSource → FrameSource × Option ReadError
unfolding pull
reopen s = reader_opened s (reader_new s.file)

-- Only a position before the held frame goes back.
abbrev pub rewound : FrameSource → ℕ → Option ShowRecord → FrameSource × Option ReadError
rewound s position_ms none = (s, none)
rewound s position_ms (some c) = if ltb position_ms c.timestamp_ms then reopen s else (s, none)

unfoldable pub advance : ℕ → ℕ → FrameSource → Option (FrameSource × Option ReadError)
unfolding pull
advance zero position_ms s = none
advance (suc fuel) position_ms s = elim (s.next) [
  | none ↦ some (s, none)
  | some n ↦ elim (ltb position_ms n.timestamp_ms) [
    | true ↦ some (s, none)
    | false ↦ elim (pull s.reader) [
      | err e ↦ some (record s { current = some n; next = none }, some e)
      | ok (next, r) ↦
          advance fuel position_ms (record s { current = some n; next = next; reader = r })
    ]
  ]
]

abbrev pub held_frame :
    Option (FrameSource × Option ReadError)
    → Option (FrameSource × Result ReadError (Option ShowRecord))
held_frame none = none
held_frame (some (s, some e)) = some (s, err e)
held_frame (some (s, none)) = some (s, ok s.current)

abbrev pub after_rewind :
    ℕ → FrameSource × Option ReadError → Option (FrameSource × Result ReadError (Option ShowRecord))
after_rewind position_ms (s, some e) = some (s, err e)
after_rewind position_ms (s, none) =
    held_frame (advance (suc (suc (length s.reader.inner))) position_ms s)

unfoldable pub frame_at :
    FrameSource → ℕ → Option (FrameSource × Result ReadError (Option ShowRecord))
unfolding reopen advance
frame_at s position_ms = after_rewind position_ms (rewound s position_ms s.current)
