-- ===== src/Log.antt =====
-- internal/log: the handlers that the program puts in front of the one that prints. A handler of the
-- library package is a parameter; what it is given is recorded, in order. Resolved values are texts or
-- groups; the text of a group is the library's.
pub mod Loggers
pub mod Values
pub mod Attributes
use keenetic_dns.Prelude.{
  ℕ, ◌≡◌, Option, none, some, Bool, true, false, ◌||◌, List, [], ◌∷◌, ◌++◌, if◌then◌else◌, Bytes,
  bytes_eq, ◌=?◌,
}
use keenetic_dns.GoMap
use keenetic_dns.GoMap.{Map}
use keenetic_dns.Text.{is_empty}
use keenetic_dns.Stream.Cursor.{Cursor}

-- `slog.Attr` and its value.
mutual
  pub data Value : Type 0 where
    text : Bytes → Value
    group : Attrs → Value

  pub data Attrs : Type 0 where
    no_attrs : Attrs
    attr : Bytes → Value → Attrs → Attrs

-- `slog.Record`, with the text of its level.
pub record LogRecord : Type 0 where
  pub time : ℕ
  pub level : Bytes
  pub message : Bytes
  pub attrs : Attrs

-- `Entry`
pub record Entry : Type 0 where
  pub cursor : Cursor
  pub time : ℕ
  pub level : Bytes
  pub msg : Bytes
  pub attrs : Map Bytes Bytes

-- `addAttr` and `addAttrs`: the attributes of a group are added under their own keys.
unfoldable mutual
  pub add_attr : Bytes → Value → Map Bytes Bytes → Map Bytes Bytes
  add_attr key (text t) m = GoMap.put key t m
  add_attr key (group attrs) m = add_attrs attrs m

  pub add_attrs : Attrs → Map Bytes Bytes → Map Bytes Bytes
  add_attrs no_attrs m = m
  add_attrs (attr key value rest) m = add_attrs rest (add_attr key value m)

-- `NewEntry`
unfoldable pub new_entry : LogRecord → Entry
new_entry rec = record {
  cursor = 0;
  time = rec.time;
  level = rec.level;
  msg = rec.message;
  attrs = add_attrs rec.attrs [];
}

abbrev pub set_cursor : Cursor → Entry → Entry
set_cursor k e = record e { cursor = k }

-- The handlers over a library's handler: `prefixHandler`, `Recorder`, `TeeHandler`.
mutual
  pub data Handler (H : Type 0) : Type 0 where
    sink : H → Handler H
    prefixed : Handler H → Bytes → Handler H
    recorder : Handler H → Handler H
    tee : Handlers H → Handler H

  pub data Handlers (H : Type 0) : Type 0 where
    no_handlers : Handlers H
    handler_and : Handler H → Handlers H → Handlers H

-- `slog.Handler`, as far as it is called; `handle` gives the error, if any.
pub record Sink (H : Type 0) : Type 0 where
  pub enabled : H → ℕ → Bool
  pub with_attrs : H → Attrs → H
  pub with_group : H → Bytes → H
  pub handle : H → LogRecord → Option Bytes
  pub group_text : Attrs → Bytes

-- What was appended to the stream of the recorders, and what the library's handlers were given.
pub record Logged (H : Type 0) : Type 0 where
  pub recorded : List Entry
  pub written : List (H × LogRecord)

-- `prefixKey`
abbrev pub prefix_key : Bytes
prefix_key = b'_' ∷ b'p' ∷ b'r' ∷ b'e' ∷ b'f' ∷ b'i' ∷ b'x' ∷ b'_' ∷ []

-- What `prefixHandler.Handle` does to the message.
unfoldable pub add_prefix : Bytes → LogRecord → LogRecord
add_prefix prefix rec =
    if is_empty prefix then rec else record rec { message = prefix ++ b':' ∷ b' ' ∷ rec.message }

abbrev pub errors_of_sink : Option Bytes → List Bytes
errors_of_sink none = []
errors_of_sink (some e) = e ∷ []

module _ {H : Type 0} (lib : Sink H) where
  -- `Enabled`
  unfoldable mutual
    pub enabled : Handler H → ℕ → Bool
    enabled (sink h) level = lib.enabled h level
    enabled (prefixed h prefix) level = enabled h level
    enabled (recorder h) level = enabled h level
    enabled (tee hs) level = any_enabled hs level

    pub any_enabled : Handlers H → ℕ → Bool
    any_enabled no_handlers level = false
    any_enabled (handler_and h hs) level = enabled h level || any_enabled hs level

  -- `Handle`, with streams of a positive capacity: the errors, which `errors.Join` puts together (none
  -- is nil), and what was logged.
  unfoldable mutual
    pub handle : Handler H → LogRecord → Logged H → List Bytes × Logged H
    handle (sink h) rec s =
        (errors_of_sink (lib.handle h rec), record s { written = s.written ++ (h, rec) ∷ [] })
    handle (prefixed h prefix) rec s = handle h (add_prefix prefix rec) s
    handle (recorder h) rec s =
        handle h rec (record s { recorded = s.recorded ++ new_entry rec ∷ [] })
    handle (tee hs) rec s = handle_all hs rec s

    pub handle_all : Handlers H → LogRecord → Logged H → List Bytes × Logged H
    handle_all no_handlers rec s = ([], s)
    handle_all (handler_and h hs) rec s =
        let (errs, s1) = handle h rec s in
        let (more, s2) = handle_all hs rec s1 in (errs ++ more, s2)

  -- The prefix of attributes that are `prefixKey` alone.
  unfoldable pub single_prefix : Attrs → Option Bytes
  single_prefix (attr key (text t) no_attrs) = if key =? prefix_key then some t else none
  single_prefix (attr key (group g) no_attrs) =
      if key =? prefix_key then some (lib.group_text g) else none
  single_prefix _ = none

  -- The prefix of `prefixHandler` after `WithAttrs`.
  unfoldable pub new_prefix : Bytes → Option Bytes → Bytes
  new_prefix old none = old
  new_prefix old (some prefix) = if is_empty old then prefix else old ++ b'.' ∷ prefix

  -- `WithAttrs`
  unfoldable mutual
    pub with_attrs : Handler H → Attrs → Handler H
    with_attrs (sink h) attrs = sink (lib.with_attrs h attrs)
    with_attrs (prefixed h old) attrs = prefixed h (new_prefix old (single_prefix attrs))
    with_attrs (recorder h) attrs = recorder (with_attrs h attrs)
    with_attrs (tee hs) attrs = tee (all_with_attrs hs attrs)

    pub all_with_attrs : Handlers H → Attrs → Handlers H
    all_with_attrs no_handlers attrs = no_handlers
    all_with_attrs (handler_and h hs) attrs =
        handler_and (with_attrs h attrs) (all_with_attrs hs attrs)

  -- `WithGroup`
  unfoldable mutual
    pub with_group : Handler H → Bytes → Handler H
    with_group (sink h) name = sink (lib.with_group h name)
    with_group (prefixed h prefix) name = prefixed (with_group h name) prefix
    with_group (recorder h) name = recorder (with_group h name)
    with_group (tee hs) name = tee (all_with_group hs name)

    pub all_with_group : Handlers H → Bytes → Handlers H
    all_with_group no_handlers name = no_handlers
    all_with_group (handler_and h hs) name =
        handler_and (with_group h name) (all_with_group hs name)

  -- `WithPrefix`
  unfoldable pub with_prefix : Handler H → Bytes → Handler H
  with_prefix h prefix = with_attrs h (attr prefix_key (text prefix) no_attrs)

-- `NewPrefixHandler`
abbrev pub new_prefix_handler : {H : Type 0} → Handler H → Handler H
new_prefix_handler h = prefixed h []

-- The program's logger over the handler that prints: `Logger` of internal/setup/logger.go with
-- `setupLogger` of dns-server/cmd/main.go.
abbrev pub logger : {H : Type 0} → H → Handler H
logger h = recorder (new_prefix_handler (sink h))
