-- ===== src/World.antt =====
-- The state that the services share about one job: its rows of Postgres (prisma/schema.prisma), its
-- keys of Redis (libs/common/src/constants/redis.constants.ts, each of which holds the job's id),
-- and what was published about it. An operation of a service is an action on this state, in which
-- each await of Postgres, Redis or the broker may reject, as the list of outages says.
pub mod Action
pub mod Triple
use codemind_backend.Common.{
  ℕ, suc, ◌+◌, Bool, true, false, ◌||◌, ◌&&◌, not, String, Option, none, some, List, ◌==◌,
  if◌then◌else◌,
}
use codemind_backend.Tokens.{TokenUsage, or_zero}
use codemind_backend.Json.{Value}

pub data AgentType : Type 0 where
  architecture security dependency quality docs : AgentType

-- The place of an agent in `AgentConsumer.ORDER`; no two agents have the same.
abbrev pub order_index : AgentType → ℕ
order_index architecture = 0
order_index security = 1
order_index dependency = 2
order_index quality = 3
order_index docs = 4

abbrev pub agent_eq : AgentType → AgentType → Bool
agent_eq a b = order_index a == order_index b

-- A Redis set of agent types (SADD, SREM, SCARD, DEL), as its characteristic function.
abbrev pub AgentSet : Type 0
AgentSet = AgentType → Bool

abbrev pub no_agents : AgentSet
no_agents a = false

abbrev pub sadd : AgentType → AgentSet → AgentSet
sadd a s b = agent_eq a b || s b

abbrev pub srem : AgentType → AgentSet → AgentSet
srem a s b = not (agent_eq a b) && s b

abbrev pub bit : Bool → ℕ
bit true = 1
bit false = 0

unfoldable pub scard : AgentSet → ℕ
scard s =
    bit (s architecture) + bit (s security) + bit (s dependency) + bit (s quality) + bit (s docs)

pub data JobStatus : Type 0 where
  pending running done failed cancelled : JobStatus

-- `Job`, without its id and creation time.
pub record JobRow : Type 0 where
  pub user_id : String
  pub repo_full_name : String
  pub status : JobStatus
  pub completed_at : Option ℕ
  pub error : Option String
  pub created_at : ℕ

-- `AgentResult`; `success` is the `status` column.
pub record ResultRow : Type 0 where
  pub agent_type : AgentType
  pub raw_output : Value
  pub tokens_used : TokenUsage
  pub success : Bool
  pub duration_ms : Option ℕ
  pub error : Option String

pub record Report : Type 0 where
  pub markdown : String
  pub total_tokens : ℕ

-- The message on `analysis.requested`.
pub record AnalysisMessage : Type 0 where
  pub user_id : String
  pub repo_full_name : String
  pub retry_agent_types : Option (List AgentType)
  pub epoch : Option ℕ

pub record Manifest : Type 0 where
  pub has_dockerfile : Bool
  pub dominant_language : Option String
  pub language_supported : Bool
  pub files_found : List String

-- `AgentDispatchMessage`, the `AgentJobMessage` of the worker.
pub record AgentMessage : Type 0 where
  pub repo_path : String
  pub agent_type : AgentType
  pub total_agents : ℕ
  pub epoch : Option ℕ
  pub has_dockerfile : Bool

pub data Event : Type 0 where
  job_status : JobStatus → Event
  job_progress : AgentType → ℕ → ℕ → Event
  job_complete : Event
  job_failed : String → Event
  ready_for_synthesis : Event

-- `outages` says of each coming await whether it rejects; past its end none does. The lists of
-- published messages and of result rows have the newest first.
pub record World : Type 0 where
  pub row : Option JobRow
  pub results : List ResultRow
  pub report : Option Report
  pub cached_status : Option JobStatus
  pub agents_done : AgentSet
  pub agents_expected : AgentSet
  pub epoch : Option ℕ
  pub tokens_used : Option ℕ
  pub graph_path : Option String
  pub synthesizing : Bool
  pub repo_facts : ℕ → Option String
  pub analysis_queue : List AnalysisMessage
  pub agent_queue : List AgentMessage
  pub events : List Event
  pub acked : ℕ
  pub nacked : ℕ
  pub outages : List Bool

-- `Number((await redis.get(jobEpochKey(jobId))) ?? 0)`
abbrev pub epoch_of : World → ℕ
epoch_of w = or_zero w.epoch
