-- ===== src/Producer/Vk/Setup.antt =====
-- producer/vk/vkcom.go: `New`.
use ttobserver_v.Base.{String, Bool, Option, none, some, if◌then◌else◌, ◌==◌, string_eq}
use ttobserver_v.Shared.Errors.{Fault, required_parameters}
use ttobserver_v.Producer.Indexes.{Template}
use ttobserver_v.Producer.Values.{Value, Format}
use ttobserver_v.Producer.Vk.{Messages, Settings, Templates, Client, Texts, Notifier}

-- Outside: the compiler of patterns and the parser of templates, whose errors are only logged, and
-- the client for a token and a proxy.
pub record Setup (W U P : Type 0) : Type 0 where
  pub compile : String → (String → Bool) × Fault
  pub parse : String → String → Option (Template Value)
  pub client : String → String → Client W U P

module _ {W U P : Type 0} (setup : Setup W U P) (texts : Texts W) (format : Format) where
  -- The pattern that stands for no pattern, `^$`, matches the empty text.
  pattern_of : String → (String → Bool) × Fault
  pattern_of pattern =
      if pattern == "" then (λ (s : String). s == "", none) else setup.compile pattern

  parsed : Messages → Templates
  parsed m = record {
    announce = setup.parse "announce" m.announce;
    nx = setup.parse "n1000" m.nx;
    single_index = setup.parse "singleIndex" m.single_index;
    multiple_indexes = setup.parse "multipleIndexes" m.multiple_indexes;
  }

  with_pattern : Settings → (String → Bool) × Fault → Option (Notifier W U P) × Fault
  unfolding parsed
  with_pattern s (ignored, some e) = (none, some e)
  with_pattern s (ignored, none) = (
    some (record {
      settings = s;
      templates = parsed s.messages;
      client = some (setup.client s.token s.proxy);
      ignored = ignored;
      texts = texts;
      format = format;
    }),
    none,
  )

  -- `New`, with the configuration as it was read, or its error. A producer that comes with an error
  -- is not looked at.
  unfoldable pub new : Settings → Fault → Option (Notifier W U P) × Fault
  unfolding with_pattern pattern_of
  new s (some e) = (none, some e)
  new s none =
      if s.token == ""
      then (none, some required_parameters)
      else with_pattern s (pattern_of s.ignore_regexp)
