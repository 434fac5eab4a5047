-- ===== src/Daemon/Proto/RoundTrip.antt =====
-- A client's request, written as JSON, is read back.
use led_platform.Daemon.Json.Parser.RoundTrip.{parse-display}
use led_platform.Daemon.Json.Parser.{max_depth}
use led_platform.Daemon.Json.Text.{is_scalar}
use led_platform.Daemon.Json.Parser.Total.{Within}
use led_platform.Prelude.{
  Bool, Bool-cases, [], ap, arith, inl, inr, suc, true, ◌&&◌, ◌>>=◌, ◌∙◌, ◌∷◌, Option, none, ok,
  refl, some, ℕ, ◌≡◌,
}
use led_platform.Daemon.Json.Value.{
  display, Chars, Json, Fields, Bytes, get, as_str, find, compare_keys, num, bool, str, obj, done,
  field,
}
use led_platform.Daemon.Json.Scan.RoundTrip.{AllScalar}
use led_platform.Daemon.Json.Parser.Written.{Proper, Finite}
use led_platform.Daemon.Proto.{
  parsed, from_line, Cmd, hello, ping, version, status, load, unload, play, pause, stop, seek,
  subscribe, shutdown, Request, cmd_of, from_json,
}
use led_platform.Daemon.Proto.Word
use led_platform.Daemon.Proto.Key

abbrev all_scalar : Chars → Bool
all_scalar [] = true
all_scalar (c ∷ cs) = is_scalar c && all_scalar cs

scalar : (s : Chars) → all_scalar s ≡ true → AllScalar s
scalar [] e = tt
scalar (c ∷ cs) e = elim (Bool-cases (is_scalar c)) [
  | inl y ↦ (y, scalar cs (rw y at e))
  | inr n ↦ absurd (ground arith)
]

module _ {F : Type 0} (of_u64 : ℕ → F) where
  -- The fields of a command, in the order of their keys.
  abbrev cmd_fields : Cmd → Fields F → Fields F
  cmd_fields (hello client) rest =
      field Key.client (str client) (field Key.cmd (str Word.hello) rest)
  cmd_fields (load path assume) rest =
      field Key.args
        (obj (field Key.assume_integrity (bool assume) (field Key.path (str path) done)))
        (field Key.cmd (str Word.load) rest)
  cmd_fields (seek to_ms) rest =
      field Key.args (obj (field Key.to_ms (num (of_u64 to_ms)) done))
        (field Key.cmd (str Word.seek) rest)
  cmd_fields (shutdown (some confirm)) rest =
      field Key.cmd (str Word.shutdown) (field Key.confirm (str confirm) rest)
  cmd_fields (shutdown none) rest = field Key.cmd (str Word.shutdown) rest
  cmd_fields ping rest = field Key.cmd (str Word.ping) rest
  cmd_fields version rest = field Key.cmd (str Word.version) rest
  cmd_fields status rest = field Key.cmd (str Word.status) rest
  cmd_fields unload rest = field Key.cmd (str Word.unload) rest
  cmd_fields play rest = field Key.cmd (str Word.play) rest
  cmd_fields pause rest = field Key.cmd (str Word.pause) rest
  cmd_fields stop rest = field Key.cmd (str Word.stop) rest
  cmd_fields subscribe rest = field Key.cmd (str Word.subscribe) rest

  abbrev pub request_json : Request → Json F
  request_json r =
      obj
        (cmd_fields r.cmd (field Key.id (num (of_u64 r.id)) (field Key.v (num (of_u64 r.v)) done)))

  module _ (show_f64 : F → Bytes) (parse_f64 : Bytes → Option F) (to_u64 : F → Option ℕ) where
    -- A number that is written, read and converted back.
    abbrev pub Carries : ℕ → Type 0
    Carries n = Finite show_f64 parse_f64 (of_u64 n) × (to_u64 (of_u64 n) ≡ some n)

    -- The texts of a command are of characters, and its numbers are carried.
    abbrev pub CarriesCmd : Cmd → Type 0
    CarriesCmd (hello client) = AllScalar client
    CarriesCmd (load path assume) = AllScalar path
    CarriesCmd (seek to_ms) = Carries to_ms
    CarriesCmd (shutdown (some confirm)) = AllScalar confirm
    CarriesCmd _ = Unit {0}

    from_json-request_json :
        (id : ℕ) (cmd : Cmd)
        → Carries id
        → Carries 1
        → CarriesCmd cmd
        → from_json to_u64 (request_json (record { v = 1; id = id; cmd = cmd }))
          ≡ ok (record { v = 1; id = id; cmd = cmd })
    unfolding from_json cmd_of get find compare_keys as_str
    from_json-request_json id (hello client) (p, q) (r, s) c = rw (q, s) refl
    from_json-request_json id ping (p, q) (r, s) c = rw (q, s) refl
    from_json-request_json id version (p, q) (r, s) c = rw (q, s) refl
    from_json-request_json id status (p, q) (r, s) c = rw (q, s) refl
    from_json-request_json id (load path assume) (p, q) (r, s) c = rw (q, s) refl
    from_json-request_json id unload (p, q) (r, s) c = rw (q, s) refl
    from_json-request_json id play (p, q) (r, s) c = rw (q, s) refl
    from_json-request_json id pause (p, q) (r, s) c = rw (q, s) refl
    from_json-request_json id stop (p, q) (r, s) c = rw (q, s) refl
    from_json-request_json id (seek to_ms) (p, q) (r, s) (t, u) = rw (q, s, u) refl
    from_json-request_json id subscribe (p, q) (r, s) c = rw (q, s) refl
    from_json-request_json id (shutdown none) (p, q) (r, s) c = rw (q, s) refl
    from_json-request_json id (shutdown (some confirm)) (p, q) (r, s) c = rw (q, s) refl

    request_json-Proper :
        (id : ℕ) (cmd : Cmd)
        → Carries id
        → Carries 1
        → CarriesCmd cmd
        → Proper show_f64 parse_f64 (request_json (record { v = 1; id = id; cmd = cmd }))
    unfolding compare_keys is_scalar
    request_json-Proper id (hello client) (p, q) (r, s) c = (
      ((refl, (refl, (refl, tt))), ((refl, (refl, tt)), ((refl, tt), (tt, tt)))),
      (
        scalar Key.client refl,
        c,
        (
          scalar Key.cmd refl,
          scalar Word.hello refl,
          (scalar Key.id refl, p, (scalar Key.v refl, r, tt)),
        ),
      ),
    )
    request_json-Proper id ping (p, q) (r, s) c = (
      ((refl, (refl, tt)), ((refl, tt), (tt, tt))),
      (
        scalar Key.cmd refl,
        scalar Word.ping refl,
        (scalar Key.id refl, p, (scalar Key.v refl, r, tt)),
      ),
    )
    request_json-Proper id version (p, q) (r, s) c = (
      ((refl, (refl, tt)), ((refl, tt), (tt, tt))),
      (
        scalar Key.cmd refl,
        scalar Word.version refl,
        (scalar Key.id refl, p, (scalar Key.v refl, r, tt)),
      ),
    )
    request_json-Proper id status (p, q) (r, s) c = (
      ((refl, (refl, tt)), ((refl, tt), (tt, tt))),
      (
        scalar Key.cmd refl,
        scalar Word.status refl,
        (scalar Key.id refl, p, (scalar Key.v refl, r, tt)),
      ),
    )
    request_json-Proper id unload (p, q) (r, s) c = (
      ((refl, (refl, tt)), ((refl, tt), (tt, tt))),
      (
        scalar Key.cmd refl,
        scalar Word.unload refl,
        (scalar Key.id refl, p, (scalar Key.v refl, r, tt)),
      ),
    )
    request_json-Proper id play (p, q) (r, s) c = (
      ((refl, (refl, tt)), ((refl, tt), (tt, tt))),
      (
        scalar Key.cmd refl,
        scalar Word.play refl,
        (scalar Key.id refl, p, (scalar Key.v refl, r, tt)),
      ),
    )
    request_json-Proper id pause (p, q) (r, s) c = (
      ((refl, (refl, tt)), ((refl, tt), (tt, tt))),
      (
        scalar Key.cmd refl,
        scalar Word.pause refl,
        (scalar Key.id refl, p, (scalar Key.v refl, r, tt)),
      ),
    )
    request_json-Proper id stop (p, q) (r, s) c = (
      ((refl, (refl, tt)), ((refl, tt), (tt, tt))),
      (
        scalar Key.cmd refl,
        scalar Word.stop refl,
        (scalar Key.id refl, p, (scalar Key.v refl, r, tt)),
      ),
    )
    request_json-Proper id subscribe (p, q) (r, s) c = (
      ((refl, (refl, tt)), ((refl, tt), (tt, tt))),
      (
        scalar Key.cmd refl,
        scalar Word.subscribe refl,
        (scalar Key.id refl, p, (scalar Key.v refl, r, tt)),
      ),
    )
    request_json-Proper id (load path assume) (p, q) (r, s) c = (
      ((refl, (refl, (refl, tt))), ((refl, (refl, tt)), ((refl, tt), (tt, tt)))),
      (
        scalar Key.args refl,
        (
          ((refl, tt), (tt, tt)),
          (scalar Key.assume_integrity refl, tt, (scalar Key.path refl, c, tt)),
        ),
        (
          scalar Key.cmd refl,
          scalar Word.load refl,
          (scalar Key.id refl, p, (scalar Key.v refl, r, tt)),
        ),
      ),
    )
    request_json-Proper id (seek to_ms) (p, q) (r, s) (t, u) = (
      ((refl, (refl, (refl, tt))), ((refl, (refl, tt)), ((refl, tt), (tt, tt)))),
      (
        scalar Key.args refl,
        ((tt, tt), (scalar Key.to_ms refl, t, tt)),
        (
          scalar Key.cmd refl,
          scalar Word.seek refl,
          (scalar Key.id refl, p, (scalar Key.v refl, r, tt)),
        ),
      ),
    )
    request_json-Proper id (shutdown none) (p, q) (r, s) c = (
      ((refl, (refl, tt)), ((refl, tt), (tt, tt))),
      (
        scalar Key.cmd refl,
        scalar Word.shutdown refl,
        (scalar Key.id refl, p, (scalar Key.v refl, r, tt)),
      ),
    )
    request_json-Proper id (shutdown (some confirm)) (p, q) (r, s) c = (
      ((refl, (refl, (refl, tt))), ((refl, (refl, tt)), ((refl, tt), (tt, tt)))),
      (
        scalar Key.cmd refl,
        scalar Word.shutdown refl,
        (scalar Key.confirm refl, c, (scalar Key.id refl, p, (scalar Key.v refl, r, tt))),
      ),
    )

    request_json-Within :
        (id : ℕ) (cmd : Cmd)
        → Within (suc max_depth) (request_json (record { v = 1; id = id; cmd = cmd }))
    request_json-Within id (hello client) = (tt, (tt, (tt, (tt, tt))))
    request_json-Within id ping = (tt, (tt, (tt, tt)))
    request_json-Within id version = (tt, (tt, (tt, tt)))
    request_json-Within id status = (tt, (tt, (tt, tt)))
    request_json-Within id unload = (tt, (tt, (tt, tt)))
    request_json-Within id play = (tt, (tt, (tt, tt)))
    request_json-Within id pause = (tt, (tt, (tt, tt)))
    request_json-Within id stop = (tt, (tt, (tt, tt)))
    request_json-Within id subscribe = (tt, (tt, (tt, tt)))
    request_json-Within id (load path assume) = ((tt, (tt, tt)), (tt, (tt, (tt, tt))))
    request_json-Within id (seek to_ms) = ((tt, tt), (tt, (tt, (tt, tt))))
    request_json-Within id (shutdown none) = (tt, (tt, (tt, tt)))
    request_json-Within id (shutdown (some confirm)) = (tt, (tt, (tt, (tt, tt))))

    -- Every command of a client, written as a JSON object with its number and version 1, is read
    -- back as itself by `from_line`, if its texts are of Unicode scalar values and its numbers
    -- print as number text that parses and converts back to them.
    pub from_line-request_json :
        (id : ℕ) (cmd : Cmd)
        → Carries id
        → Carries 1
        → CarriesCmd cmd
        → from_line parse_f64 to_u64
            (display show_f64 (request_json (record { v = 1; id = id; cmd = cmd })))
          ≡ ok (record { v = 1; id = id; cmd = cmd })
    unfolding from_line
    from_line-request_json id cmd p one c =
        let j = request_json (record { v = 1; id = id; cmd = cmd }) in
        ap (λ r. parsed r >>= from_json to_u64)
          (parse-display show_f64 parse_f64 j (request_json-Within id cmd)
            (request_json-Proper id cmd p one c))
        ∙ from_json-request_json id cmd p one c
