-- ===== src/CircuitBreaker/Config.antt =====
-- The configuration that the proxy receives (pkg/apis/ctrlmesh/proto/throttling.pb.go), and what
-- the circuit breaker takes from other libraries.
use controller_mesh.Prelude.{ℕ, ◌+◌, ◌-◌, ◌/◌, suc, String, Bool, Option, List, Map}

-- `negsuc n` is -(n + 1).
pub data ℤ : Type 0 where
  pos : ℕ → ℤ
  negsuc : ℕ → ℤ

pub data BreakerState : Type 0 where
  opened closed : BreakerState

pub data TriggerPolicy : Type 0 where
  normal limiter_only force_opened force_closed : TriggerPolicy

pub data RecoverType : Type 0 where
  manual sleeping_window : RecoverType

pub record RecoverPolicy : Type 0 where
  pub recover_type : RecoverType
  pub sleeping_window_size : String

pub record ResourceRule : Type 0 where
  pub api_groups : List String
  pub resources : List String
  pub verbs : List String
  pub namespaces : List String

pub record RestRules : Type 0 where
  pub url : String
  pub method : String

-- `burst` and `limit` are uint32.
pub record Bucket : Type 0 where
  pub burst : ℕ
  pub interval : String
  pub limit : ℕ

-- `none` is a nil `RecoverPolicy`. `Bucket` is never nil: ConvertLimiting always sets it.
pub record RateLimiting : Type 0 where
  pub name : String
  pub resource_rules : List ResourceRule
  pub rest_rules : List RestRules
  pub bucket : Bucket
  pub trigger_policy : TriggerPolicy
  pub recover_policy : Option RecoverPolicy
  pub properties : Map String

pub data InterceptType : Type 0 where
  whitelist blacklist : InterceptType

pub data ContentType : Type 0 where
  plain regexp : ContentType

pub record TrafficInterceptRule : Type 0 where
  pub name : String
  pub intercept_type : InterceptType
  pub content_type : ContentType
  pub contents : List String
  pub methods : List String

-- `illegal` stands for the numbers that no option has, with the text that `%s` prints for it.
pub data SyncOption : Type 0 where
  delete update check recover : SyncOption
  illegal : String → SyncOption

pub record CircuitBreaker : Type 0 where
  pub option : SyncOption
  pub traffic_intercept_rules : List TrafficInterceptRule
  pub rate_limitings : List RateLimiting
  pub config_hash : String
  pub name : String

-- Times are nanoseconds, and `last_transition_time` is `none` where the pointer is nil.
pub record LimitingSnapshot : Type 0 where
  pub limiting_name : String
  pub state : BreakerState
  pub recover_time : Option ℕ
  pub last_transition_time : Option ℕ

-- `time.Time.Add`.
abbrev pub add_duration : ℕ → ℤ → ℕ
add_duration t (pos d) = t + d
add_duration t (negsuc d) = t - suc d

-- The division of a `time.Duration` by an unsigned number, which rounds towards zero.
abbrev pub div_duration : ℤ → ℕ → ℤ
div_duration (pos d) n = pos (d / n)
div_duration (negsuc d) n = negate (suc d / n)
  where
    negate : ℕ → ℤ
    negate k = elim k [ ℕ.zero ↦ pos 0 | ℕ.suc m ↦ negsuc m ]

-- What other libraries provide: the token bucket of golang.org/x/time/rate, the regular
-- expressions of `regexp`, and the reading of a duration (with the value that the code uses when
-- it ignores the error).
pub record Platform : Type 1 where
  pub Rate : Type 0
  pub every : ℤ → Rate
  pub Limiter : Type 0
  pub new_limiter : Rate → ℕ → Limiter
  -- `AllowN` at a time and for a number of tokens: whether they are there, and the limiter after.
  pub allow_n : ℕ → ℕ → Limiter → Bool × Limiter
  pub Regexp : Type 0
  pub compile : String → Option Regexp
  pub match_string : Regexp → String → Bool
  pub parse_duration : String → ℤ
