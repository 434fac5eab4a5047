-- ===== src/Daemon/Proto.antt =====
-- crates/led-daemon-bin/src/proto.rs: the requests of the socket. `as_u64`
-- is the number's part of `Json::as_u64`, floating-point arithmetic; the texts of errors are their
-- characters where they are written out, and are left out where they are made.
pub mod Word
pub mod Key
pub mod RoundTrip
pub mod Correlated
mod Tests
use led_platform.Prelude.{
  Bool, List, Option, Result, [], err, false, get_or, if◌then◌else◌, none, ok, some, true, ℕ, ◌==◌,
  ◌∷◌,
}
use led_platform.Prelude.{◌>>=◌}
use led_platform.Protocols.Sacn.{bytes_equal}
use led_platform.Daemon.Json.Value.{Json, Chars, Bytes, get, as_str, escape, num, bool, quoted}
use led_platform.Daemon.Json.Scan.{ParseError}
use led_platform.Daemon.Json.Parser.{parse}
use led_platform.Daemon.Proto.Word
use led_platform.Daemon.Proto.Key

-- `PROTOCOL_V`, the first of `SUPORTADAS`.
abbrev pub suportadas : List ℕ
suportadas = 1 ∷ []

abbrev pub protocol_v : ℕ
protocol_v = get_or suportadas 0 0

pub data Code : Type 0 where
  unsupported_version unknown_command invalid_args bad_request : Code

pub data Cmd : Type 0 where
  hello : Chars → Cmd
  ping version status : Cmd
  load : Chars → Bool → Cmd
  unload play pause stop : Cmd
  seek : ℕ → Cmd
  subscribe : Cmd
  shutdown : Option Chars → Cmd

-- `Cmd::name`.
unfoldable pub cmd_name : Cmd → Chars
cmd_name (hello client) = Word.hello
cmd_name ping = Word.ping
cmd_name version = Word.version
cmd_name status = Word.status
cmd_name (load path assume) = Word.load
cmd_name unload = Word.unload
cmd_name play = Word.play
cmd_name pause = Word.pause
cmd_name stop = Word.stop
cmd_name (seek to_ms) = Word.seek
cmd_name subscribe = Word.subscribe
cmd_name (shutdown confirm) = Word.shutdown

unfoldable pub touches_runtime : Cmd → Bool
touches_runtime (load path assume) = true
touches_runtime unload = true
touches_runtime play = true
touches_runtime pause = true
touches_runtime stop = true
touches_runtime (seek to_ms) = true
touches_runtime _ = false

pub record Request : Type 0 where
  pub v : ℕ
  pub id : ℕ
  pub cmd : Cmd

pub record RequestError : Type 0 where
  pub id : Option ℕ
  pub code : Code

abbrev pub bad : Option ℕ → Code → RequestError
bad id code = record { id = id; code = code }

-- `ok_or_else`.
abbrev pub ok_or : {A : Type 0} → Option A → RequestError → Result RequestError A
ok_or none e = err e
ok_or (some a) e = ok a

abbrev pub and_then : {A B : Type 0} → Option A → (A → Option B) → Option B
and_then none f = none
and_then (some a) f = f a

abbrev pub unwrap_or : {A : Type 0} → Option A → A → A
unwrap_or none d = d
unwrap_or (some a) d = a

abbrev pub as_bool : {F : Type 0} → Json F → Option Bool
as_bool (bool b) = some b
as_bool _ = none

abbrev pub parsed : {F : Type 0} → Result ParseError (Json F) → Result RequestError (Json F)
parsed (err e) = err (bad none bad_request)
parsed (ok j) = ok j

abbrev pub check_version : Option ℕ → ℕ → Result RequestError (Unit {0})
check_version id v = if v == protocol_v then ok tt else err (bad id unsupported_version)

module _ {F : Type 0} (to_u64 : F → Option ℕ) where
  abbrev pub as_u64 : Json F → Option ℕ
  as_u64 (num n) = to_u64 n
  as_u64 _ = none

  abbrev pub number_at : Json F → Chars → Option ℕ
  unfolding get
  number_at j k = and_then (get j k) as_u64

  abbrev pub text_at : Json F → Chars → Option Chars
  unfolding get as_str
  text_at j k = and_then (get j k) as_str

  -- `arg_str`, `arg_u64` and `arg_bool`.
  abbrev pub arg_str : Json F → Chars → Option Chars
  arg_str j k = and_then (get j Key.args) (λ a. text_at a k)

  abbrev pub arg_u64 : Json F → Chars → Option ℕ
  arg_u64 j k = and_then (get j Key.args) (λ a. number_at a k)

  abbrev pub arg_bool : Json F → Chars → Option Bool
  arg_bool j k = and_then (get j Key.args) (λ a. and_then (get a k) as_bool)

  -- The `match` on the name.
  unfoldable pub cmd_of : ℕ → Json F → Chars → Result RequestError Cmd
  unfolding get as_str
  cmd_of id j name =
      if bytes_equal name Word.hello
      then ok (hello (unwrap_or (text_at j Key.client) Key.desconhecido))
      else if bytes_equal name Word.ping
      then ok ping
      else if bytes_equal name Word.version
      then ok version
      else if bytes_equal name Word.status
      then ok status
      else if bytes_equal name Word.unload
      then ok unload
      else if bytes_equal name Word.play
      then ok play
      else if bytes_equal name Word.pause
      then ok pause
      else if bytes_equal name Word.stop
      then ok stop
      else if bytes_equal name Word.subscribe
      then ok subscribe
      else if bytes_equal name Word.load
      then (ok_or (arg_str j Key.path) (bad (some id) invalid_args) >>= λ path.
          ok (load path (unwrap_or (arg_bool j Key.assume_integrity) false)))
      else if bytes_equal name Word.seek
      then (ok_or (arg_u64 j Key.to_ms) (bad (some id) invalid_args) >>= λ to_ms. ok (seek to_ms))
      else if bytes_equal name Word.shutdown
      then ok (shutdown (text_at j Key.confirm))
      else err (bad (some id) unknown_command)

  -- What follows the parsing.
  unfoldable pub from_json : Json F → Result RequestError Request
  unfolding cmd_of get as_str
  from_json j =
      let known = number_at j Key.id in
      do
        v ← ok_or (number_at j Key.v) (bad known bad_request)
        supported ← check_version known v
        id ← ok_or known (bad none bad_request)
        name ← ok_or (text_at j Key.cmd) (bad (some id) bad_request)
        cmd ← cmd_of id j name
        ok (record { v = v; id = id; cmd = cmd })

module _ {F : Type 0} (parse_f64 : Bytes → Option F) (to_u64 : F → Option ℕ) where
  unfoldable pub from_line : Bytes → Result RequestError Request
  unfolding from_json parse
  from_line line = parsed (parse parse_f64 line) >>= from_json to_u64
