-- ===== src/Repository/Lifecycle.antt =====
-- When the methods of `Repository` on runs and operations return, and what they then change.
use mathlib.Core.Path.{subst}
use mathlib.Core.Logic.{◌↔◌}
use efloud.Prelude.{ℕ, String, true, false, ◌≡◌, refl, sym, ap, ◌∙◌, not, arith, inl, inr}
use efloud.Prelude.{
  if◌then◌else◌, ◌==◌, string_eq, contains, any, any-false_iff, Member-filter, filter, Bool-cases,
}
use efloud.Prelude.Sort.{Member-sort}
use efloud.Prelude.Dict.{lookup, values}
use efloud.Errors.{ok, raise, Fault, ok_injective}
use efloud.Json.{Json}
use efloud.Models.{RunId}
use efloud.Records.{RunRecord, OperationRecord}
use efloud.Catalog.State.{MemoryCatalog, done}
use efloud.Catalog.Runs.{finish_run, runs_in, operations_for_run, operation_leb, run_terminal}
use efloud.Catalog.Cases.{CanFinish, close_run, finish_run_cases}
use efloud.Repository
use efloud.Repository.State.{
  RepositoryState, ◌>>=◌, lift, read, demand, raise_if, catalog_call, require_active,
}
use efloud.Repository.Steps.{
  after-eq, after-ok, require_active-eq, require_active-ok, demand-eq, demand-ok, raise_if-eq,
  raise_if-ok, unless-eq, unless-ok, catalog_call-eq, catalog_call-ok, not_raised, lift-eq, lift-ok,
}
use efloud.Repository.Runs
use efloud.Repository.Runs.{is_running, canonical_terminal_status}

abbrev pub with_catalog :
    {Blobs : Type 0} → RepositoryState Blobs → MemoryCatalog → RepositoryState Blobs
with_catalog s c = record s { catalog = c }

-- No operation of the run is running, as the repository and as the catalog look for one.
idle_of_catalog :
    (id : RunId) (c : MemoryCatalog)
    → any (runs_in id) (values c.operations) ≡ false
    → any is_running (operations_for_run id c) ≡ false
unfolding operations_for_run
idle_of_catalog id c h =
    let mine = filter (λ (o : OperationRecord). o.run_id == id) (values c.operations) in
    (any-false_iff is_running (operations_for_run id c)).1 (λ o m.
      let (n, e) =
        (Member-filter (λ (o : OperationRecord). o.run_id == id) o (values c.operations)).0
          ((Member-sort operation_leb o mine).0 m) in
      ground (arith, (any-false_iff (runs_in id) (values c.operations)).0 h o n))

finish_run-done :
    (id : RunId) (t : ℕ) (status : String) (c : MemoryCatalog) (run : RunRecord)
    → CanFinish c id status run
    → finish_run id t status c ≡ done (close_run id t status run c)
unfolding finish_run
finish_run-done id t status c run can =
    let found = can.found in
    let running = (string_eq.beq_iff run.status "running").1 can.running in
    ground (arith, can.terminal, can.idle)

canonical-eq :
    (status : String)
    → contains run_terminal status ≡ true
    → canonical_terminal_status status false ≡ ok status
unfolding canonical_terminal_status
canonical-eq status h = rw h refl

canonical-ok :
    (status final : String)
    → canonical_terminal_status status false ≡ ok final
    → (contains run_terminal status ≡ true) × (final ≡ status)
unfolding canonical_terminal_status
canonical-ok status final h = elim (Bool-cases (contains run_terminal status)) [
  | inl e ↦ (e, ok_injective (sym (rw (e, canonical_terminal_status) at h)))
  | inr e ↦ absurd (ground (arith, rw (e, canonical_terminal_status) at h))
]

module _ {Blobs : Type 0} (digest : Json → String) (s : RepositoryState Blobs) where
  finish_run-returns :
      (id : RunId) (status : String) (t : ℕ) (run : RunRecord)
      → s.active ≡ true
      → CanFinish s.catalog id status run
      → Repository.Runs.finish_run digest id status t s
        ≡ (ok tt, with_catalog s (close_run id t status run s.catalog))
  unfolding Repository.Runs.finish_run ◌>>=◌
  finish_run-returns id status t run active can =
      after-eq (require_active s) _ (require_active-eq s active) (
        after-eq _ _ (demand-eq Fault.unknown_run (λ s. lookup id s.catalog.runs) s can.found) (
          after-eq _ _
            (raise_if-eq (not (run.status == "running")) Fault.run_not_running s
              (ap not ((string_eq.beq_iff run.status "running").1 can.running)))
            (after-eq _ _
              (unless-eq (λ s. any is_running (operations_for_run id s.catalog))
                Fault.operations_still_running s (idle_of_catalog id s.catalog can.idle))
              (after-eq _ _
                (lift-eq (canonical_terminal_status status false) s
                  (canonical-eq status can.terminal))
                (catalog_call-eq (finish_run id t status) s _
                  (finish_run-done id t status s.catalog run can))))))

  finish_run-only :
      (id : RunId) (status : String) (t : ℕ) (u : RepositoryState Blobs)
      → Repository.Runs.finish_run digest id status t s ≡ (ok tt, u)
      → (s.active ≡ true)
        × (run : RunRecord) × CanFinish s.catalog id status run
        × (u ≡ with_catalog s (close_run id t status run s.catalog))
  unfolding Repository.Runs.finish_run ◌>>=◌
  finish_run-only id status t u h =
      let (w, a, e, h1) = after-ok (require_active s) _ u h in
      let (active, ea) = require_active-ok s a e in
      let (run, b, f, h2) =
        after-ok (read (λ s. demand Fault.unknown_run (lookup id s.catalog.runs)) a) _ u h1 in
      let (found, eb) = demand-ok Fault.unknown_run (λ s. lookup id s.catalog.runs) a b run f in
      let (x, c, g, h3) =
        after-ok (raise_if (not (run.status == "running")) Fault.run_not_running b) _ u h2 in
      let (going, ec) = raise_if-ok (not (run.status == "running")) Fault.run_not_running b c g in
      let (y, d, k, h4) =
        after-ok
          (read
            (λ s.
              if any is_running (operations_for_run id s.catalog)
              then raise Fault.operations_still_running
              else ok tt)
            c)
          _ u h3 in
      let (idle, ed) =
        unless-ok (λ s. any is_running (operations_for_run id s.catalog))
          Fault.operations_still_running c d k in
      let (final, v, l, h5) = after-ok (lift (canonical_terminal_status status false) d) _ u h4 in
      let (canonical, ev) = lift-ok (canonical_terminal_status status false) d v l in
      let called =
        subst (λ z. catalog_call (finish_run id t final) z ≡ (ok tt, u)) (ev ∙ ed ∙ ec ∙ eb ∙ ea)
          h5 in
      let named =
        subst (λ z. catalog_call (finish_run id t z) s ≡ (ok tt, u))
          (canonical-ok status final canonical).1 called in
      elim (finish_run_cases id t status s.catalog) [
        | inl (fault, bad) ↦ absurd (not_raised (finish_run id t status) s u fault bad named)
        | inr (run, can, good) ↦
            (active, run, can, catalog_call-ok (finish_run id t status) s u _ good named)
      ]

  -- `finish_run` returns exactly if the writer lease is held, the run is known and running, none of
  -- its operations is running and the status is one of a run that has ended; it then ends the run
  -- with that status and time, and changes nothing else.
  pub finish_run-returns_iff :
      (id : RunId) (status : String) (t : ℕ) (u : RepositoryState Blobs)
      → (Repository.Runs.finish_run digest id status t s ≡ (ok tt, u)) ↔ (
          (s.active ≡ true)
          × (run : RunRecord) × CanFinish s.catalog id status run
          × (u ≡ with_catalog s (close_run id t status run s.catalog)))
  finish_run-returns_iff id status t u = (
    finish_run-only id status t u,
    λ h.
        let (active, run, can, e) = h in
        finish_run-returns id status t run active can ∙ ap (λ z. (ok tt, z)) (sym e),
  )
