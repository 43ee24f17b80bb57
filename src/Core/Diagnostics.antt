-- ===== src/Core/Diagnostics.antt =====
-- src/core/diagnostics.hpp: events and their sink, the counters of a core, and the registry of counters. A cell
-- of counters and a sink are named by numbers; the world of a sink is a parameter.
use rain.Base.{
  ℕ, ◌+◌, ◌-◌, ◌%◌, ◌^◌, ◌≡◌, ℤ, pos, negsuc, String, Bool, List, [], ◌∷◌, ◌++◌, Option, none, some,
  is_some, ltb, ◌==◌, if◌then◌else◌, update, count, arith,
}
use rain.Core.{SystemError}

pub data Severity : Type 0 where
  trace debug informative warn error : Severity

pub data Kind : Type 0 where
  i64 u64 str : Kind

pub record Field : Type 0 where
  pub key : String
  pub kind : Kind
  pub ival : ℤ
  pub sval : String

unfoldable pub field_i : String → ℤ → Field
field_i k v = record { key = k; kind = Kind.i64; ival = v; sval = "" }

-- `static_cast<i64>` of a number of 64 bits.
unfoldable pub field_u : String → ℕ → Field
field_u k v = record {
  key = k;
  kind = Kind.u64;
  ival = if ltb v (2 ^ 63) then pos v else negsuc (2 ^ 64 - 1 - v);
  sval = "";
}

unfoldable pub field_s : String → String → Field
field_s k v = record { key = k; kind = Kind.str; ival = pos 0; sval = v }

-- An event without its source location.
pub record Event : Type 0 where
  pub event_code : String
  pub severity : Severity
  pub error : Option SystemError
  pub fields : List Field

-- `g_sink`, with what each sink does to the world.
pub record Sinks (K : Type 0) : Type 0 where
  pub g_sink : Option ℕ
  pub sink_of : ℕ → Event → K → K

module _ {K : Type 0} where
  unfoldable pub install_sink : ℕ → Sinks K → Sinks K
  install_sink s d = record d { g_sink = some s }

  unfoldable pub reset_sink : Sinks K → Sinks K
  reset_sink d = record d { g_sink = none }

  unfoldable pub enabled : Sinks K → Bool
  enabled d = is_some d.g_sink

  unfoldable pub emit : Sinks K → Event → K → K
  emit d e k = elim d.g_sink [ none ↦ k | some s ↦ d.sink_of s e k ]

-- CoreMetrics: counters of 64 bits.
pub record CoreMetrics : Type 0 where
  pub accept_failed : ℕ
  pub inflight_connections : ℕ
  pub coroutine_exceptions : ℕ
  pub blocking_exceptions : ℕ
  pub reactor_rearm_failed : ℕ
  pub loop_run_errors : ℕ

abbrev pub fresh_metrics : CoreMetrics
fresh_metrics = record {
  accept_failed = 0;
  inflight_connections = 0;
  coroutine_exceptions = 0;
  blocking_exceptions = 0;
  reactor_rearm_failed = 0;
  loop_run_errors = 0;
}

-- The cells of counters, by address; `g_metrics` of a thread is an address, or none.
abbrev pub Metrics : Type 0
Metrics = ℕ → CoreMetrics

abbrev pub add_u64 : ℕ → ℕ → ℕ
add_u64 a n = (a + n) % 2 ^ 64

abbrev pub sub_u64 : ℕ → ℕ → ℕ
sub_u64 a n = (a + 2 ^ 64 - n) % 2 ^ 64

-- A pointer to a member of CoreMetrics.
pub data Counter : Type 0 where
  accept_failures inflight coroutine_throws blocking_throws rearm_failures run_errors : Counter

unfoldable pub fetch_add : Counter → ℕ → CoreMetrics → CoreMetrics
fetch_add accept_failures n m = record m { accept_failed = add_u64 m.accept_failed n }
fetch_add inflight n m = record m { inflight_connections = add_u64 m.inflight_connections n }
fetch_add coroutine_throws n m = record m {
  coroutine_exceptions = add_u64 m.coroutine_exceptions n;
}
fetch_add blocking_throws n m = record m { blocking_exceptions = add_u64 m.blocking_exceptions n }
fetch_add rearm_failures n m = record m { reactor_rearm_failed = add_u64 m.reactor_rearm_failed n }
fetch_add run_errors n m = record m { loop_run_errors = add_u64 m.loop_run_errors n }

-- `count`, on a thread with the given `g_metrics`.
unfoldable pub count_metric : Option ℕ → Counter → ℕ → Metrics → Metrics
count_metric none c n ms = ms
count_metric (some a) c n ms = update ms a (fetch_add c n (ms a))

-- InflightGuard: its constructor and its destructor, each with the `g_metrics` of the time.
unfoldable pub guard_enter : Option ℕ → Metrics → Metrics
guard_enter g ms = count_metric g inflight 1 ms

unfoldable pub guard_leave : Option ℕ → Metrics → Metrics
guard_leave none ms = ms
guard_leave (some a) ms =
    let m = ms a in
    update ms a (record m { inflight_connections = sub_u64 m.inflight_connections 1 })

-- MetricsRegistry: the addresses that are registered.
unfoldable pub registry_add : ℕ → List ℕ → List ℕ
registry_add m cores = cores ++ (m ∷ [])

unfoldable pub registry_remove : ℕ → List ℕ → List ℕ
registry_remove m [] = []
registry_remove m (c ∷ cs) = if c == m then registry_remove m cs else c ∷ registry_remove m cs

unfoldable pub for_each {ℓ} : {S : Type ℓ} → (CoreMetrics → S → S) → Metrics → List ℕ → S → S
for_each f ms [] s = s
for_each f ms (c ∷ cs) s = for_each f ms cs (f (ms c) s)

-- What is removed is registered no more, and all else as before.
pub count-registry_remove :
    (i m : ℕ) (cores : List ℕ)
    → count i (registry_remove m cores) ≡ (if i == m then 0 else count i cores)
unfolding registry_remove
count-registry_remove i m [] = ground arith
count-registry_remove i m (c ∷ cs) = ground (arith, count-registry_remove i m cs)
