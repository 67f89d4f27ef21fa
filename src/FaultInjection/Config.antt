-- ===== src/FaultInjection/Config.antt =====
-- The configuration that the proxy receives (pkg/apis/ctrlmesh/proto/faultinjection.pb.go), and what
-- the fault injection takes from other libraries.
use controller_mesh.Prelude.{ℕ, String, Bool, Option, List}

pub data SyncOption : Type 0 where
  update delete check recover : SyncOption
  unknown : String → SyncOption

pub record MatchContent : Type 0 where
  pub exact : String
  pub regex : String

pub record HttpHeader : Type 0 where
  pub name : String
  pub value : String

pub record HttpMatch : Type 0 where
  pub host : Option MatchContent
  pub path : Option MatchContent
  pub method : String
  pub headers : List HttpHeader

pub record ResourceMatch : Type 0 where
  pub api_groups : List String
  pub resources : List String
  pub verbs : List String
  pub namespaces : List String

pub record Match : Type 0 where
  pub resources : List ResourceMatch
  pub http_match : List HttpMatch

-- The days and the months are int32 numbers, by their bit patterns.
pub record EffectiveTimeRange : Type 0 where
  pub start_time : String
  pub end_time : String
  pub days_of_week : List ℕ
  pub days_of_month : List ℕ
  pub months : List ℕ

-- A percentage is a float64. A delay and a status are what `GetFixedDelay().AsDuration()` and
-- `GetHttpStatus()` return, an int64 and an int32 by their bit patterns.
pub record Delay (F : Type 0) : Type 0 where
  pub percent : F
  pub fixed_delay : ℕ

pub record Abort (F : Type 0) : Type 0 where
  pub percent : F
  pub http_status : ℕ

-- A field that is `none` is a nil pointer.
pub record HttpFaultInjection (F : Type 0) : Type 0 where
  pub delay : Option (Delay F)
  pub abort : Option (Abort F)
  pub match : Option Match
  pub name : String
  pub effective_time : Option EffectiveTimeRange

pub record FaultInjection (F : Type 0) : Type 0 where
  pub http_fault_injections : List (HttpFaultInjection F)
  pub option : SyncOption
  pub config_hash : String
  pub name : String

-- A moment in UTC, as the methods of `time.Time` show it.
pub record Moment : Type 0 where
  pub hour : ℕ
  pub minute : ℕ
  pub second : ℕ
  pub weekday : ℕ
  pub day : ℕ
  pub month : ℕ

-- What other libraries provide: floating-point numbers, regular expressions and the reading of a
-- time of the form 15:04:05, of which the hour, the minute and the second are used.
pub record Platform : Type 1 where
  pub Float : Type 0
  pub zero : Float
  pub hundred : Float
  pub less : Float → Float → Bool
  pub equal : Float → Float → Bool
  pub times : Float → Float → Float
  pub Regexp : Type 0
  pub compile : String → Option Regexp
  pub match_string : Regexp → String → Bool
  pub parse_time : String → Option (ℕ × ℕ × ℕ)
