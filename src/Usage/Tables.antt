-- ===== src/Usage/Tables.antt =====
-- runtime/src/usage.ts: the rows and the tables of the usage database, as lists of rows in the order
-- of their insertion. The rows' automatic numbers, which no statement reads, are left out.
use open_agent_hub.Prelude.{String, Option, List, [], ℕ, ℤ, Object}

-- A REAL column: `units / 10 ^ scale`.
pub record Real : Type 0 where
  pub units : ℤ
  pub scale : ℕ

pub data UsageProvider : Type 0 where
  claude codex opencode : UsageProvider

pub record ExternalUsageRow : Type 0 where
  pub provider : UsageProvider
  pub source : String
  pub session_id : Option String
  pub model : Option String
  pub tokens_in : ℤ
  pub tokens_out : ℤ
  pub cache_read : Option ℤ
  pub cache_write : Option ℤ
  pub cost_exact : Option Real
  pub cost_estimated : Option Real
  pub occurred_at : String
  pub event_key : String

pub data LimitSource : Type 0 where
  local live manual : LimitSource

pub record LimitRow : Type 0 where
  pub provider : UsageProvider
  pub window : String
  pub plan : Option String
  pub used_percent : Option Real
  pub units : Option String
  pub credits_used : Option Real
  pub credits_total : Option Real
  pub reset_at : Option String
  pub observed_at : String
  pub source : LimitSource

pub record SourceCursor : Type 0 where
  pub size : ℕ
  pub mtime_ms : ℕ
  pub offset : ℕ
  pub seen_at : String

pub record RunFacts : Type 0 where
  pub run_id : String
  pub agent_key : String
  pub version : String
  pub interface_name : String
  pub sandbox : String
  pub state : String
  pub health : String
  pub exit_code : Option ℕ
  pub exit_reason : Option String
  pub model_provider : Option String
  pub model_name : Option String
  pub container_id : Option String
  pub created_at : String
  pub started_at : String
  pub ended_at : Option String

-- `tokensReasoning ?? 0` and `tokensCache ?? 0` are what the table holds.
pub record UsageSample : Type 0 where
  pub run_id : String
  pub model_provider : String
  pub model_name : String
  pub tokens_in : ℕ
  pub tokens_out : ℕ
  pub tokens_reasoning : Option ℕ
  pub tokens_cache : Option ℕ
  pub cost_exact : Option Real
  pub cost_estimated : Option Real
  pub recorded_at : Option String

pub record ResourceSample : Type 0 where
  pub run_id : String
  pub mem_bytes : Option ℕ
  pub cpu_percent : Option Real
  pub container_id : Option String
  pub sampled_at : Option String

pub record CodexTotal : Type 0 where
  pub last_input : ℤ
  pub last_output : ℤ

-- The tables.
pub record UsageStore : Type 0 where
  pub runs : List RunFacts
  pub token_usage : List UsageSample
  pub resource_samples : List ResourceSample
  pub settings : Object String
  pub external_usage : List ExternalUsageRow
  pub limits : List LimitRow
  pub source_cursors : Object SourceCursor
  pub codex_totals : List ((String × String) × CodexTotal)

abbrev pub empty_store : UsageStore
empty_store = record {
  runs = [];
  token_usage = [];
  resource_samples = [];
  settings = [];
  external_usage = [];
  limits = [];
  source_cursors = [];
  codex_totals = [];
}
