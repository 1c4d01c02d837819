-- ===== src/Handles.antt =====
-- The cache of graph handles in libs/common/src/codegraph/codegraph.service.ts: `initAndIndex`,
-- `openReadOnly`, `close` and `onModuleDestroy`.
-- A promise is a number, its ticket. The library that opens a graph is the environment: a step
-- of it settles a promise that is pending. An opening is one step from pending to open or failed: a
-- failed one stands for no handle, so the graph that `init` of `initAndIndex` has opened when
-- `indexAll` then rejects, which nothing closes, is not in the model.
pub mod Safety
pub mod Maps
pub mod Leaks
use codemind_backend.Common.{
  ℕ, suc, Bool, true, false, ◌||◌, String, Option, none, some, ◌==◌, str_eq, if◌then◌else◌, ◌≡◌,
  ◌≢◌, ◌⊎◌,
}

-- `ended` is a handle that was closed.
pub data Status : Type 0 where
  unborn pending opened failed ended : Status

-- `graphs` is the Map; `path_of` is the path that a promise was made for, `closing` the promises
-- to which `cg.close()` is chained.
pub record Handles : Type 0 where
  pub graphs : String → Option ℕ
  pub status : ℕ → Status
  pub path_of : ℕ → String
  pub closing : ℕ → Bool
  pub fresh : ℕ

abbrev pub set_path {ℓ} : {A : Type ℓ} → String → A → (String → A) → String → A
set_path p v f q = if str_eq q p then v else f q

abbrev pub set_ticket {ℓ} : {A : Type ℓ} → ℕ → A → (ℕ → A) → ℕ → A
set_ticket t v f s = if s == t then v else f s

unfoldable pub empty : Handles
empty = record {
  graphs = λ p. none;
  status = λ t. unborn;
  path_of = λ t. "";
  closing = λ t. false;
  fresh = 0;
}

-- A miss of `openReadOnly` and of `initAndIndex`: the promise is stored before it settles.
unfoldable pub open_new : String → Handles → Handles
open_new p h = record {
  graphs = set_path p (some h.fresh) h.graphs;
  status = set_ticket h.fresh pending h.status;
  path_of = set_ticket h.fresh p h.path_of;
  closing = h.closing;
  fresh = suc h.fresh;
}

-- `openReadOnly` and `initAndIndex`: the promise they return, and the cache after them.
unfoldable pub open_graph : String → Handles → ℕ × Handles
unfolding open_new
open_graph p h = elim (h.graphs p) [ none ↦ (h.fresh, open_new p h) | some t ↦ (t, h) ]

unfoldable pub resolve : ℕ → Handles → Handles
resolve t h = record h { status = set_ticket t opened h.status }

-- The `.catch` of an opening deletes by the path.
unfoldable pub reject : ℕ → Handles → Handles
reject t h = record h {
  status = set_ticket t failed h.status;
  graphs = set_path (h.path_of t) none h.graphs;
}

unfoldable pub evict : String → ℕ → Handles → Handles
evict p t h = record h { graphs = set_path p none h.graphs; closing = set_ticket t true h.closing }

unfoldable pub close : String → Handles → Handles
unfolding evict
close p h = elim (h.graphs p) [ none ↦ h | some t ↦ evict p t h ]

-- The handle of a promise to which `cg.close()` is chained is closed.
unfoldable pub land : ℕ → Handles → Handles
land t h = record h { status = set_ticket t ended h.status }

unfoldable pub holds : Option ℕ → ℕ → Bool
holds none t = false
holds (some s) t = t == s

-- `onModuleDestroy`; what a value of the Map is cached under is the path it was opened for.
unfoldable pub on_module_destroy : Handles → Handles
unfolding holds
on_module_destroy h = record h {
  graphs = λ p. none;
  closing = λ t. h.closing t || holds (h.graphs (h.path_of t)) t;
}

-- The events in which no opening fails.
pub data Step (h : Handles) : Handles → Type 0 where
  opens : (p : String) → Step h ((open_graph p h).1)
  resolves : (t : ℕ) → h.status t ≡ pending → Step h (resolve t h)
  closes : (p : String) → Step h (close p h)
  lands : (t : ℕ) → h.status t ≡ opened → h.closing t ≡ true → Step h (land t h)
  destroys : Step h (on_module_destroy h)

-- Any events, an opening that fails (early or late) among them; and those in which none fails.
pub data Reach (h : Handles) : Handles → Type 0 where
  here : Reach h h
  next : {k l : Handles} → Reach h k → Step k l → Reach h l
  fails : {k : Handles} (t : ℕ) → Reach h k → k.status t ≡ pending → Reach h (reject t k)

pub data Calm (h : Handles) : Handles → Type 0 where
  still : Calm h h
  more : {k l : Handles} → Calm h k → Step k l → Calm h l
