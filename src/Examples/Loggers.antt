-- ===== src/Examples/Loggers.antt =====
-- Loggers over handlers that are numbers: 1 prints, 2 always fails.
use keenetic_dns.Prelude.{ℕ, ◌≡◌, refl, none, some, true, [], ◌∷◌, ◌++◌, Bytes, ◌==◌, if◌then◌else◌}
use keenetic_dns.Log.{
  text, Attrs, no_attrs, attr, LogRecord, Handler, sink, prefixed, tee, no_handlers, handler_and,
  Sink, Logged, handle, single_prefix, logger,
}
use keenetic_dns.Log.Loggers.{
  with_prefixes, with_all_attrs, attributes_lost, outputs, errors_of, every_output,
}

abbrev lib : Sink ℕ
lib = record {
  enabled = λ h level. true;
  with_attrs = λ h attrs. h;
  with_group = λ h name. h;
  handle = λ h rec. if h == 2 then some (b'!' ∷ []) else none;
  group_text = λ g. [];
}

abbrev rec : LogRecord
rec = record { time = 0; level = b'I' ∷ []; message = b'm' ∷ []; attrs = no_attrs }

abbrev nothing_logged : Logged ℕ
nothing_logged = record { recorded = []; written = [] }

abbrev http : Bytes
http = b'h' ∷ b't' ∷ b't' ∷ b'p' ∷ []

abbrev ws : Bytes
ws = b'w' ∷ b's' ∷ []

-- `logger.With("file", file)`
abbrev file_attrs : Attrs
file_attrs = attr (b'f' ∷ []) (text (b'x' ∷ [])) no_attrs

file_attrs_other : single_prefix lib file_attrs ≡ none
unfolding single_prefix
file_attrs_other = refl

attributes_lost_example :
    handle lib
      (with_all_attrs lib (with_prefixes lib (logger 1) (http ∷ ws ∷ [])) (file_attrs ∷ []))
      rec
      nothing_logged
    ≡ handle lib (with_prefixes lib (logger 1) (http ∷ ws ∷ [])) rec nothing_logged
attributes_lost_example =
    attributes_lost lib 1 (http ∷ ws ∷ []) (file_attrs ∷ []) rec nothing_logged
      (file_attrs_other, tt)

abbrev forked : Handler ℕ
forked = tee (handler_and (sink 2) (handler_and (prefixed (sink 1) ws) no_handlers))

every_output_example :
    ((handle lib forked rec nothing_logged).0 ≡ errors_of lib (outputs lib forked rec))
    × ((handle lib forked rec nothing_logged).1.written ≡ [] ++ outputs lib forked rec)
every_output_example = every_output lib forked rec nothing_logged
