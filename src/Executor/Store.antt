-- ===== src/Executor/Store.antt =====
-- What the executor calls: the repository's writer, the adapters and the derived tasks.
use efloud.Prelude.{String, Bool, List, Option, ◌≡◌, refl}
use efloud.Errors.{Result, ok, raise, Fault}
use efloud.Json.{JsonObject}
use efloud.Models.{RunId, OperationId, ObservationId, ProducerRef}
use efloud.Planning.{PlannedOperation}

-- A call that changes the state `S` of the repository, and may raise.
abbrev pub Exec : Type 0 → Type 0 → Type 0
Exec S A = S → Result A × S

module _ {S : Type 0} where
  abbrev pub after : {A B : Type 0} → Result A × S → (A → Exec S B) → Result B × S
  after (ok a, t) f = f a t
  after (raise e, t) f = (raise e, t)

  infixl 5 ◌>>=◌
  abbrev pub ◌>>=◌ : {A B : Type 0} → Exec S A → (A → Exec S B) → Exec S B
  (m >>= f) s = after (m s) f

  abbrev pub return : {A : Type 0} → A → Exec S A
  return a s = (ok a, s)

  abbrev pub throw : {A : Type 0} → Fault → Exec S A
  throw f s = (raise f, s)

  -- What a sequence of two calls that succeeds went through.
  pub after-eq-ok :
      {A B : Type 0} (p : Result A × S) (f : A → Exec S B) (t : S) {b : B}
      → after p f ≡ (ok b, t)
      → (a : A) × (u : S) × (p ≡ (ok a, u)) × (f a u ≡ (ok b, t))
  after-eq-ok (ok a, u) f t h = (a, u, refl, h)
  after-eq-ok (raise e, u) f t h = cc

pub data RecordedStatus : Type 0 where
  succeeded failed : RecordedStatus

-- What the work of an operation comes to: a record of it, an exception with its text, or
-- `asyncio.CancelledError`.
pub data Attempt : Type 0 where
  recorded : RecordedStatus → List ObservationId → JsonObject → Attempt
  raised : String → Attempt
  interrupted : Attempt

-- The arguments of `start_operation`.
pub record StartArguments : Type 0 where
  pub run_id : RunId
  pub source_id : Option String
  pub kind : String
  pub subject : String
  pub producer : ProducerRef
  pub parameters : JsonObject

-- The repository's methods, the acquisition of a source by its adapter, and the derived tasks.
pub record Services (S : Type 0) : Type 0 where
  pub register_source : String → JsonObject → Exec S (Unit {0})
  pub start_run : List String → JsonObject → Exec S RunId
  pub finish_run : RunId → String → Exec S (Unit {0})
  pub running_operations : RunId → S → List OperationId
  pub start_operation : StartArguments → Exec S OperationId
  pub finish_operation : OperationId → String → JsonObject → Exec S (Unit {0})
  pub has_adapter : String → Bool
  pub has_task : String → Bool
  pub acquire : PlannedOperation → OperationId → S → Attempt × S
  pub derive : PlannedOperation → OperationId → S → Attempt × S
