-- ===== src/Lib.antt =====
-- A verification library for the CodeMind backend: a gateway takes a request to analyse a
-- repository, an orchestrator checks the repository out, indexes it and sends for agents, agent
-- workers run language-model loops over the code graph, and a synthesizer writes the report. The
-- services meet in Postgres, Redis and RabbitMQ.
--
-- The state of one job that they share is the record `World` of World.antt: the job's row, its result
-- rows and its report (prisma/schema.prisma), its Redis keys, the queues of the messages published
-- about it, its events, and counts of acks and nacks. An operation of a service is an `Action`
-- (World/Action.antt), a function of that state that resolves or rejects. Each await of a store takes
-- one entry of the list `outages`, which says whether it rejects, so a theorem for every list covers
-- every failure of the infrastructure; World/Triple.antt has the rules by which such theorems are
-- proved. Reads that the source makes in parallel are made one after the other.
--
-- Common: tests on numbers, list helpers, names of the libraries.
-- Tokens: libs/common/src/types/token-usage.types.ts.
-- Json, Schema: the values that are validated, and libs/common/src/schema/schema.ts. `Spec` is the
-- combinators `str`, `num`, `bool`, `enumOf`, `arr`, `nullable`, `optional` and `obj`; `validate` is
-- the method of that name. Schema/Conforms says which values fit a spec without mentioning it.
-- AgentSchemas: libs/common/src/schema/agent-output.schemas.ts.
-- Jobs: apps/api-gateway/src/jobs/jobs.service.ts (`createAnalysisJob`, `getJob`, `retryJob`,
-- `forceStopAndRetry`, `cancelJob`, `getLatestAgentResults`, `getReportForExport`).
-- Share: apps/api-gateway/src/jobs/share.service.ts, on the rows of jobs and of shares.
-- RateLimit: apps/api-gateway/src/jobs/job-rate-limit.guard.ts, on one user's counter.
-- Orchestrator: apps/orchestrator/src/jobs (`onAnalysisRequested`, `markRunning`, `markFailed`, the
-- dead-letter handler) and apps/orchestrator/src/dispatch/agent-dispatch.service.ts.
-- Worker: apps/agent-worker/src/jobs (`AgentConsumer.handle`, `assertNotFenced`, `loadFacts`,
-- `recordInfraFailure`, `AgentDlqConsumer.handle`).
-- Slots: the execution gate of apps/agent-worker/src/jobs/agent.consumer.ts (`acquireSlot`,
-- `grantNext`, `releaseSlot`), as a step relation.
-- Agent: the evidence loop of apps/agent-worker/src/agents/base.agent.ts (`run`, `runTools`,
-- `finish`), for any model, tools and fence. Agent/Induction is the induction on its turns.
-- Agent/Input is `assembleUserMessage` of the same file.
-- Synthesizer: apps/synthesizer/src/synthesis/synthesizer.service.ts (`synthesize`, `failJob`,
-- `loadFacts`, `sweepStalledJobs`).
-- Retry: libs/common/src/util/retry.ts.
-- Schema/Published: the `jsonSchema` of each combinator; Schema/Refines says what satisfies one.
-- Dialect: libs/common/src/llm/llm-client.service.ts (`toMistralMessages`, `toolResultText`,
-- `parseToolArgs` and the reading of an answer in `converseOpenAiDialect`), over the messages of Agent.
-- Providers: libs/common/src/llm/pricing.ts, with rates and costs as natural numbers;
-- Providers/Clients is the constructor of `LlmClient` and what `complete` and `converse` choose.
-- Handles: libs/common/src/codegraph/codegraph.service.ts (`initAndIndex`, `openReadOnly`, `close`,
-- `onModuleDestroy`), as a step relation on the Map and the promises in it; a step of the
-- environment settles a promise. A graph that `init` opened before `indexAll` rejected is not in it.
-- Tools: libs/common/src/codegraph/graph-tools.ts (`resolveInside` on paths of code units, the walk of
-- `search_text` through a tree of files, and the tools that list what the graph library answers).
-- Facts: apps/orchestrator/src/facts/repo-facts.service.ts (`callChainFacts`, `chainSeeds`,
-- `moduleEdges`, `externalImportFacts`, `hotspots`, `moduleOf`, `packageOf`), over the record `Graph` of the
-- library's answers.
-- Chat: apps/api-gateway/src/jobs/chat.service.ts (`ask`, `isOffTopic`, `ensureGraph`, `doReindex`,
-- `answerWithLoop`, `answerFromReport`, `runTool`); the loop's requests are part of its result.
-- Download: libs/common/src/github/github-tarball.service.ts (`downloadAndExtract`, `countFiles`); what
-- GitHub answers and what `tar` extracts are its record `Remote`.
-- Diagrams: apps/synthesizer/src/diagrams/d2-source.builder.ts on code units: a builder gives items,
-- `render` their text. Diagrams/Names is `IdAllocator`, Diagrams/Labels is `label`, Diagrams/Graphs the
-- builders, Diagrams/Counting `countNodes`; Diagrams/Service is the choice of diagrams in
-- diagrams.service.ts and `render` of d2-renderer.service.ts beside it.
-- Accounts: apps/api-gateway/src/auth (`getOrCreateUser`, `createUserSafely`, `withDbRetry`,
-- `syncFromWebhook`, `deleteByClerkId`, `ensureGithubToken`, the guard) and the Clerk webhook of
-- apps/api-gateway/src/webhooks, on the rows of `users`. A call of the database meets an `Await`: what
-- others write before it, and whether it rejects, carried out or not.
-- Repos: apps/api-gateway/src/repos/repos.service.ts, with GitHub's answers as a parameter.
-- Text: `trim`, `join` and the splitting at a slash, on the characters of a string.
-- Pipeline: the services together, each handler a step on the state of a job, in any order.
-- Tests: the theorems at concrete inputs, and runs of the model.
--
-- Bounds: the evidence loop runs on `maxTurns + 2` rounds of fuel, since at most one repair turn is
-- granted; the retry loop on `retries - 1` further attempts, since none is made beyond `retries`;
-- the loop of `grantNext` on the number of free slots, of which each round takes one; the chat's loop on
-- its 6 turns; a call chain on the 7 steps that it may still get; the search for an identifier that is
-- free on the number of those taken, one more than which are tried; the pages of repositories on 20; the
-- digits of a number on its value, plus one; a retried call of the database on its two delays. All
-- other loops are structural recursion. Counters, epochs and times are natural numbers.
--
-- Not modelled: what is only shown (logs, the texts of the prompts, error texts joined from parts, the
-- heartbeat event); the language model, the code graph library, GitHub and `tar`, which are
-- parameters, as are Clerk and Svix; the pruning of old checkouts; the facts about modules,
-- dependencies and entry points; the report's text and its charts; what the D2 library draws, its lock
-- and its restarts; the calls of the provider SDKs; the gateway's controllers and sockets; the set-up
-- of broker, database and logger.
pub mod Common
pub mod Tokens
pub mod Json
pub mod Schema
pub mod AgentSchemas
pub mod World
pub mod Tools
pub mod Worker
pub mod Download
pub mod Facts
pub mod Handles
pub mod Jobs
pub mod Synthesizer
pub mod Orchestrator
pub mod Pipeline
pub mod Slots
pub mod Agent
pub mod Share
pub mod Providers
pub mod RateLimit
pub mod Retry
pub mod Chat
pub mod Dialect
pub mod Tests
pub mod Text
pub mod Diagrams
pub mod Accounts
pub mod Repos
