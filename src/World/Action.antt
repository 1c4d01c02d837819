-- ===== src/World/Action.antt =====
-- Actions on the state of a job: promises that resolve or reject, `try` and `catch`.
use codemind_backend.Common.{
  ℕ, suc, Bool, true, false, String, Option, none, some, List, [], ◌∷◌, ◌≡◌, refl,
}
use codemind_backend.World.{World, Event, JobRow}

pub data Error : Type 0 where
  fenced : (message_epoch current : ℕ) → Error
  not_found : String → Error
  bad_request : String → Error
  rejected : String → Error

pub data Outcome {ℓ} (A : Type ℓ) : Type ℓ where
  ok : A → World → Outcome A
  thrown : Error → World → Outcome A

abbrev pub Action : Type 0 → Type 0
Action A = World → Outcome A

infixl 5 ◌>>=◌ ◌>>◌
abbrev pub ◌>>=◌ : {A B : Type 0} → Action A → (A → Action B) → Action B
◌>>=◌ m f w = elim (m w) [ ok a w' ↦ f a w' | thrown e w' ↦ thrown e w' ]

abbrev pub ◌>>◌ : {B : Type 0} → Action (Unit {0}) → Action B → Action B
m >> k = m >>= λ _. k

abbrev pub pure : {A : Type 0} → A → Action A
pure a w = ok a w

abbrev pub throw : {A : Type 0} → Error → Action A
throw e w = thrown e w

abbrev pub catch : {A : Type 0} → Action A → (Error → Action A) → Action A
catch m h w = elim (m w) [ ok a w' ↦ ok a w' | thrown e w' ↦ h e w' ]

abbrev pub outage : Error
outage = rejected "outage"

-- One await of a store: a read and a write of the state that either happen or reject.
abbrev pub after_outage : {A : Type 0} → List Bool → (World → A) → (World → World) → Action A
after_outage [] read write w = ok (read w) (write w)
after_outage (true ∷ rest) read write w = thrown outage (record w { outages = rest })
after_outage (false ∷ rest) read write w =
    let w' = record w { outages = rest } in ok (read w') (write w')

unfoldable pub call : {A : Type 0} → (World → A) → (World → World) → Action A
call read write w = after_outage w.outages read write w

abbrev pub get : {A : Type 0} → (World → A) → Action A
get read = call read (λ w. w)

-- What an earlier query has read along.
abbrev pub peek : {A : Type 0} → (World → A) → Action A
peek read w = ok (read w) w

abbrev pub put : (World → World) → Action (Unit {0})
put write = call (λ _. tt) write

-- Work that cannot reject: a local step.
abbrev pub local : (World → World) → Action (Unit {0})
local write w = ok tt (write w)

abbrev pub publish : Event → Action (Unit {0})
publish e = put (λ w. record w { events = e ∷ w.events })

abbrev pub ack : Action (Unit {0})
ack = local (λ w. record w { acked = suc w.acked })

abbrev pub nack : Action (Unit {0})
nack = local (λ w. record w { nacked = suc w.nacked })

-- `prisma.job.update`: rejects where the row is missing.
abbrev pub with_row : (JobRow → JobRow) → Option JobRow → Action (Unit {0})
with_row f none w = thrown (rejected "record to update not found") w
with_row f (some r) w = ok tt (record w { row = some (f r) })

unfoldable pub update_job : (JobRow → JobRow) → Action (Unit {0})
update_job f = do put (λ w. w); λ w. with_row f w.row w

abbrev pub state_of : {A : Type 0} → Outcome A → World
state_of (ok a w) = w
state_of (thrown e w) = w

-- Without an outage an await does its read and its write.
pub call_calm :
    {A : Type 0} (read : World → A) (write : World → World) (w : World)
    → w.outages ≡ []
    → call read write w ≡ ok (read w) (write w)
unfolding call
call_calm read write w h = rw (h, after_outage)

pub update_job_calm :
    (f : JobRow → JobRow) (r : JobRow) (w : World)
    → w.outages ≡ []
    → w.row ≡ some r
    → update_job f w ≡ ok tt (record w { row = some (f r) })
unfolding update_job
update_job_calm f r w h e = rw (call_calm _ _ w h, ◌>>=◌, ◌>>◌) (rw (e, with_row) refl)
