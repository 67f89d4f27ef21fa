-- ===== src/Conversion/Faults.antt =====
-- The conversion of fault injections (pkg/apis/ctrlmesh/utils/conv/faultconv.go).
use controller_mesh.Prelude.{ℕ, ◌%◌, String, List, map, Option, none, some, ◌>>=◌}
use controller_mesh.FaultInjection.Config.{
  MatchContent, HttpHeader, HttpMatch, ResourceMatch, Match, EffectiveTimeRange, Delay, Abort,
  HttpFaultInjection,
}

pub record ApiDelay : Type 0 where
  pub fixed_delay : String
  pub percent : String

-- The status is an int, by its bit pattern.
pub record ApiAbort : Type 0 where
  pub http_status : ℕ
  pub percent : String

pub record ApiHttpFaultInjection : Type 0 where
  pub name : String
  pub delay : Option ApiDelay
  pub abort : Option ApiAbort
  pub match : Option Match
  pub effective_time : Option EffectiveTimeRange

pub record ApiFaultInjection : Type 0 where
  pub name : String
  pub http_fault_injections : List ApiHttpFaultInjection

-- An entry that is `none` is a nil pointer in the list.
pub record ConvertedFaults (F : Type 0) : Type 0 where
  pub name : String
  pub http_fault_injections : List (Option (HttpFaultInjection F))
  pub config_hash : String

unfoldable pub convert_match_content : Option MatchContent → Option MatchContent
convert_match_content none = none
convert_match_content (some content) =
    some (record { exact = content.exact; regex = content.regex })

-- The value of a header becomes its name.
unfoldable pub convert_header : HttpHeader → HttpHeader
convert_header header = record { name = header.name; value = header.name }

unfoldable pub convert_http_match : HttpMatch → HttpMatch
unfolding convert_match_content convert_header
convert_http_match m = record {
  host = convert_match_content m.host;
  path = convert_match_content m.path;
  method = m.method;
  headers = map convert_header m.headers;
}

unfoldable pub convert_related_resources : ResourceMatch → ResourceMatch
convert_related_resources r = record {
  api_groups = r.api_groups;
  resources = r.resources;
  verbs = r.verbs;
  namespaces = r.namespaces;
}

unfoldable pub convert_match : Match → Match
unfolding convert_http_match convert_related_resources
convert_match m = record {
  resources = map convert_related_resources m.resources;
  http_match = map convert_http_match m.http_match;
}

-- The conversion of an int to an int32, on bit patterns.
abbrev pub int32 : ℕ → ℕ
int32 n = n % 4294967296

unfoldable pub convert_effective_time : Option EffectiveTimeRange → Option EffectiveTimeRange
convert_effective_time none = none
convert_effective_time (some r) = some (record {
  start_time = r.start_time;
  end_time = r.end_time;
  days_of_week = map int32 r.days_of_week;
  days_of_month = map int32 r.days_of_month;
  months = map int32 r.months;
})

-- `time.ParseDuration` and `strconv.ParseFloat`, and the hash of the message without it.
pub record Parsers (F : Type 0) : Type 0 where
  pub parse_duration : String → Option ℕ
  pub parse_float : String → Option F
  pub hash : ConvertedFaults F → String

module _ {F : Type 0} (parsers : Parsers F) where
  unfoldable pub convert_delay : Option ApiDelay → Option (Option (Delay F))
  convert_delay none = some none
  convert_delay (some d) = do
    fixed ← parsers.parse_duration d.fixed_delay
    percent ← parsers.parse_float d.percent
    some (some (record { percent = percent; fixed_delay = fixed }))

  unfoldable pub convert_abort : Option ApiAbort → Option (Option (Abort F))
  convert_abort none = some none
  convert_abort (some a) = do
    percent ← parsers.parse_float a.percent
    some (some (record { percent = percent; http_status = int32 a.http_status }))

  unfoldable pub convert_http_fault_injection :
      ApiHttpFaultInjection → Option (HttpFaultInjection F)
  unfolding convert_delay convert_abort convert_match convert_effective_time
  convert_http_fault_injection f = do
    delay ← convert_delay f.delay
    abort ← convert_abort f.abort
    some (record {
      delay = delay;
      abort = abort;
      match = elim (f.match) [ none ↦ none | some m ↦ some (convert_match m) ];
      name = f.name;
      effective_time = convert_effective_time f.effective_time;
    })

  unfoldable pub convert_fault_injection : ApiFaultInjection → ConvertedFaults F
  unfolding convert_http_fault_injection
  convert_fault_injection f =
      let message : ConvertedFaults F = record {
        name = f.name;
        http_fault_injections = map convert_http_fault_injection f.http_fault_injections;
        config_hash = "";
      } in
      record message { config_hash = parsers.hash message }
