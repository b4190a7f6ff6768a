-- ===== src/Repository/Steps.antt =====
-- A method of the repository that returns, step by step.
use efloud.Prelude.{Bool, true, false, Option, none, some, ◌≡◌, refl, sym, ap, ◌∙◌, arith}
use efloud.Prelude.{if◌then◌else◌}
use efloud.Errors.{Result, ok, raise, Fault, ok_injective}
use efloud.Repository.State.{
  RepositoryState, Method, after, lift, read, demand, raise_if, catalog_call, require_active,
}
use efloud.Catalog.State.{MemoryCatalog, Outcome, done, fail}

module _ {Blobs : Type 0} where
  pub after-eq :
      {A B : Type 0} (p : Result A × RepositoryState Blobs) (f : A → Method Blobs B) {a : A}
      {t : RepositoryState Blobs} {r : Result B × RepositoryState Blobs}
      → p ≡ (ok a, t)
      → f a t ≡ r
      → after p f ≡ r
  after-eq p f e d = ap (λ z. after z f) e ∙ d

  pub after-ok :
      {A B : Type 0} (p : Result A × RepositoryState Blobs) (f : A → Method Blobs B)
      (t : RepositoryState Blobs) {b : B}
      → after p f ≡ (ok b, t)
      → (a : A) × (u : RepositoryState Blobs) × (p ≡ (ok a, u)) × (f a u ≡ (ok b, t))
  after-ok (ok a, u) f t h = (a, u, refl, h)
  after-ok (raise e, u) f t h = cc

  pub require_active-eq :
      (s : RepositoryState Blobs) → s.active ≡ true → require_active s ≡ (ok tt, s)
  unfolding require_active read
  require_active-eq s h = rw h refl

  pub require_active-ok :
      (s u : RepositoryState Blobs) {a : Unit {0}}
      → require_active s ≡ (ok a, u)
      → (s.active ≡ true) × (u ≡ s)
  unfolding require_active read
  require_active-ok s u h = ground arith

  pub demand-eq :
      {A : Type 0} (fault : Fault) (f : RepositoryState Blobs → Option A)
      (s : RepositoryState Blobs) {a : A}
      → f s ≡ some a
      → read (λ s. demand fault (f s)) s ≡ (ok a, s)
  unfolding read
  demand-eq fault f s e = ap (λ z. (demand fault z, s)) e

  pub raise_if-eq :
      (b : Bool) (fault : Fault) (s : RepositoryState Blobs)
      → b ≡ false
      → raise_if b fault s ≡ (ok tt, s)
  unfolding lift
  raise_if-eq true fault s h = cc
  raise_if-eq false fault s h = refl

  pub unless-eq :
      (f : RepositoryState Blobs → Bool) (fault : Fault) (s : RepositoryState Blobs)
      → f s ≡ false
      → read (λ s. if f s then raise fault else ok tt) s ≡ (ok tt, s)
  unfolding read
  unless-eq f fault s h = rw h refl

  pub catalog_call-eq :
      (method : MemoryCatalog → Outcome) (s : RepositoryState Blobs) (c : MemoryCatalog)
      → method s.catalog ≡ done c
      → catalog_call method s ≡ (ok tt, record s { catalog = c })
  unfolding catalog_call
  catalog_call-eq method s c e = ap (λ z. (z.0, record s { catalog = z.1 })) e

  demand_value :
      {A : Type 0} (fault : Fault) (x : Option A) (s u : RepositoryState Blobs) (a : A)
      → ◌≡◌ {A = Result A × RepositoryState Blobs} (demand fault x, s) (ok a, u)
      → (x ≡ some a) × (u ≡ s)
  demand_value fault none s u a h = cc
  demand_value fault (some x) s u a h =
      (ap some (ok_injective (ap (λ z. z.0) h)), ap (λ z. z.1) (sym h))

  pub demand-ok :
      {A : Type 0} (fault : Fault) (f : RepositoryState Blobs → Option A)
      (s u : RepositoryState Blobs) (a : A)
      → read (λ s. demand fault (f s)) s ≡ (ok a, u)
      → (f s ≡ some a) × (u ≡ s)
  unfolding read
  demand-ok fault f s u a h = demand_value fault (f s) s u a h

  raise_if_value :
      (b : Bool) (fault : Fault) (s u : RepositoryState Blobs) {a : Unit {0}}
      → ◌≡◌ {A = Result (Unit {0}) × RepositoryState Blobs}
          (if b then raise fault else ok tt, s)
          (ok a, u)
      → (b ≡ false) × (u ≡ s)
  raise_if_value true fault s u h = cc
  raise_if_value false fault s u h = (refl, ap (λ z. z.1) (sym h))

  pub raise_if-ok :
      (b : Bool) (fault : Fault) (s u : RepositoryState Blobs) {a : Unit {0}}
      → raise_if b fault s ≡ (ok a, u)
      → (b ≡ false) × (u ≡ s)
  unfolding lift
  raise_if-ok b fault s u h = raise_if_value b fault s u h

  pub unless-ok :
      (f : RepositoryState Blobs → Bool) (fault : Fault) (s u : RepositoryState Blobs)
      {a : Unit {0}}
      → read (λ s. if f s then raise fault else ok tt) s ≡ (ok a, u)
      → (f s ≡ false) × (u ≡ s)
  unfolding read
  unless-ok f fault s u h = raise_if_value (f s) fault s u h

  pub lift-eq :
      {A : Type 0} (x : Result A) (s : RepositoryState Blobs) {a : A}
      → x ≡ ok a
      → lift x s ≡ (ok a, s)
  unfolding lift
  lift-eq x s e = ap (λ z. (z, s)) e

  pub lift-ok :
      {A : Type 0} (x : Result A) (s u : RepositoryState Blobs) {a : A}
      → lift x s ≡ (ok a, u)
      → (x ≡ ok a) × (u ≡ s)
  unfolding lift
  lift-ok x s u h = (ap (λ z. z.0) h, ap (λ z. z.1) (sym h))

  pub catalog_call-ok :
      (method : MemoryCatalog → Outcome) (s u : RepositoryState Blobs) (c : MemoryCatalog)
      {a : Unit {0}}
      → method s.catalog ≡ done c
      → catalog_call method s ≡ (ok a, u)
      → u ≡ record s { catalog = c }
  unfolding catalog_call
  catalog_call-ok method s u c e h = ap (λ z. z.1) (sym h) ∙ ap (λ z. record s { catalog = z.1 }) e

  pub not_raised :
      (method : MemoryCatalog → Outcome) (s u : RepositoryState Blobs) (fault : Fault)
      {a : Unit {0}}
      → method s.catalog ≡ fail fault s.catalog
      → catalog_call method s ≡ (ok a, u)
      → ⊥
  unfolding catalog_call
  not_raised method s u fault e h = cc
