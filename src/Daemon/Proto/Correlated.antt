-- ===== src/Daemon/Proto/Correlated.antt =====
-- The errors of a request: which version is spoken, and whose request is refused.
use led_platform.Prelude.{
  refl, Bool, Option, Result, err, false, if◌then◌else◌, none, ok, some, subst, sym, true, ℕ, ◌==◌,
  ◌>>=◌, ◌≡◌,
}
use led_platform.Daemon.Json.Value.{Json, Chars, Bytes}
use led_platform.Daemon.Json.Parser.{parse}
use led_platform.Daemon.Proto.{
  unknown_command, invalid_args, invalid_args, Code, Request, RequestError, bad, ok_or, from_json,
  from_line, cmd_of, number_at, check_version, protocol_v, text_at, parsed, unsupported_version,
  bad_request, arg_str, arg_u64,
}
use led_platform.Daemon.Proto.Key
use led_platform.Daemon.Proto.Word
use led_platform.Protocols.Sacn.{bytes_equal}

-- An error carries the number `o`, and what is accepted is as `P` says.
pub data Names {A : Type 0} (P : A → Type 0) (o : Option ℕ) : Result RequestError A → Type 0 where
  granted : (a : A) → P a → Names P o (ok a)
  refused : (code : Code) → Names P o (err (bad o code))

-- Where nothing is said of what is accepted.
abbrev Any : {A : Type 0} → A → Type 0
Any a = Unit {0}

-- A request has the number that is read.
abbrev pub Answers : Option ℕ → Result RequestError Request → Type 0
Answers o r = Names (λ q. o ≡ some q.id) o r

Names-bind :
    {A B : Type 0} (P : B → Type 0) (o : Option ℕ) (r : Result RequestError A)
    (f : A → Result RequestError B)
    → Names Any o r
    → ((a : A) → Names P o (f a))
    → Names P o (r >>= f)
Names-bind P o r f (granted a t) k = k a
Names-bind P o r f (refused code) k = refused code

Names-ok_or :
    {A : Type 0} (o : Option ℕ) (x : Option A) (code : Code) → Names Any o (ok_or x (bad o code))
Names-ok_or o none code = refused code
Names-ok_or o (some a) code = granted a tt

Names-if :
    {A : Type 0} (o : Option ℕ) (b : Bool) (x y : Result RequestError A)
    → Names Any o x
    → Names Any o y
    → Names Any o (if b then x else y)
Names-if o true x y h k = h
Names-if o false x y h k = k

module _ {F : Type 0} (to_u64 : F → Option ℕ) where
  cmd_of-Names : (n : ℕ) (j : Json F) (name : Chars) → Names Any (some n) (cmd_of to_u64 n j name)
  unfolding cmd_of
  cmd_of-Names n j name = Names-if (some n) (bytes_equal name Word.hello) _ _ (granted _ tt) (
      Names-if (some n) (bytes_equal name Word.ping) _ _ (granted _ tt) (
        Names-if (some n) (bytes_equal name Word.version) _ _ (granted _ tt) (
          Names-if (some n) (bytes_equal name Word.status) _ _ (granted _ tt) (
            Names-if (some n) (bytes_equal name Word.unload) _ _ (granted _ tt) (
              Names-if (some n) (bytes_equal name Word.play) _ _ (granted _ tt) (
                Names-if (some n) (bytes_equal name Word.pause) _ _ (granted _ tt) (
                  Names-if (some n) (bytes_equal name Word.stop) _ _ (granted _ tt) (
                    Names-if (some n) (bytes_equal name Word.subscribe) _ _ (granted _ tt) (
                      Names-if (some n) (bytes_equal name Word.load) _ _
                        (Names-bind Any (some n)
                          (ok_or (arg_str to_u64 j Key.path) (bad (some n) invalid_args)) _
                          (Names-ok_or (some n) (arg_str to_u64 j Key.path) invalid_args)
                          (λ path. granted _ tt))
                        (Names-if (some n) (bytes_equal name Word.seek) _ _
                          (Names-bind Any (some n)
                            (ok_or (arg_u64 to_u64 j Key.to_ms) (bad (some n) invalid_args)) _
                            (Names-ok_or (some n) (arg_u64 to_u64 j Key.to_ms) invalid_args)
                            (λ to_ms. granted _ tt))
                          (Names-if (some n) (bytes_equal name Word.shutdown) _ _ (granted _ tt)
                            (refused unknown_command))))))))))))

  -- The steps after the version.
  abbrev named : Json F → ℕ → Option ℕ → Result RequestError Request
  named j v o = do
    id ← ok_or o (bad none bad_request)
    name ← ok_or (text_at to_u64 j Key.cmd) (bad (some id) bad_request)
    cmd ← cmd_of to_u64 id j name
    ok (record { v = v; id = id; cmd = cmd })

  named-Answers : (j : Json F) (v : ℕ) (o : Option ℕ) → Answers o (named j v o)
  named-Answers j v none = refused bad_request
  named-Answers j v (some n) =
      let P : Request → Type 0 = λ q. some n ≡ some q.id in
      Names-bind P (some n) (ok_or (text_at to_u64 j Key.cmd) (bad (some n) bad_request)) _
        (Names-ok_or (some n) (text_at to_u64 j Key.cmd) bad_request)
        (λ name.
          Names-bind P (some n) (cmd_of to_u64 n j name) _ (cmd_of-Names n j name)
            (λ cmd. granted _ refl))

  -- A request, with its number or without one.
  from_json-Answers : (j : Json F) → Answers (number_at to_u64 j Key.id) (from_json to_u64 j)
  unfolding from_json
  from_json-Answers j =
      let o = number_at to_u64 j Key.id in
      let P : Request → Type 0 = λ q. o ≡ some q.id in
      Names-bind P o (ok_or (number_at to_u64 j Key.v) (bad o bad_request)) _
        (Names-ok_or o (number_at to_u64 j Key.v) bad_request)
        (λ v.
          Names-bind P o (check_version o v) _
            (Names-if o (v == protocol_v) _ _ (granted tt tt) (refused unsupported_version))
            (λ supported. named-Answers j v o))

  -- Where a line is a JSON value, `from_line` accepts it only with a number in `id` that `as_u64`
  -- reads, and as a request of that number; it refuses it with an error that carries the number
  -- that `as_u64` reads in `id`, and no number exactly where there is none to read.
  pub from_line-Names :
      (parse_f64 : Bytes → Option F) (line : Bytes) (j : Json F)
      → parse parse_f64 line ≡ ok j
      → Answers (number_at to_u64 j Key.id) (from_line parse_f64 to_u64 line)
  unfolding from_line
  from_line-Names parse_f64 line j e =
      subst (λ r. Answers (number_at to_u64 j Key.id) (parsed r >>= from_json to_u64)) (sym e)
        (from_json-Answers j)
