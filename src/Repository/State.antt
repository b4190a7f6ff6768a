-- ===== src/Repository/State.antt =====
-- The state of `Repository`: its catalog, here the one in memory, its blob store, and whether the
-- writer lease is held. `Blobs` stands for the state of the blob store.
use efloud.Prelude.{String, Bool, false, if◌then◌else◌, Option, none, some}
use efloud.Errors.{Result, ok, raise, Fault}
use efloud.Models.{ContentId, ContentRef}
use efloud.Catalog.State.{MemoryCatalog, Outcome}

-- `BlobStore`, as the repository calls it on data of a type.
pub record BlobStore (Blobs Data : Type 0) : Type 0 where
  pub put_bytes : Data → Option String → Blobs → ContentRef × Blobs
  pub contains : ContentId → Blobs → Bool

pub record RepositoryState (Blobs : Type 0) : Type 0 where
  pub catalog : MemoryCatalog
  pub blobs : Blobs
  pub active : Bool

-- A method of the repository, from the state to what it returns or raises and the state it leaves.
abbrev pub Method : Type 0 → Type 0 → Type 0
Method Blobs A = RepositoryState Blobs → Result A × RepositoryState Blobs

abbrev pub demand : {A : Type 0} → Fault → Option A → Result A
demand fault none = raise fault
demand fault (some a) = ok a

module _ {Blobs : Type 0} where
  abbrev pub after :
      {A B : Type 0}
      → Result A × RepositoryState Blobs
      → (A → Method Blobs B)
      → Result B × RepositoryState Blobs
  after (ok a, t) f = f a t
  after (raise fault, t) f = (raise fault, t)

  infixl 5 ◌>>=◌
  unfoldable pub ◌>>=◌ : {A B : Type 0} → Method Blobs A → (A → Method Blobs B) → Method Blobs B
  (m >>= f) s = after (m s) f

  -- A value or a fault that does not depend on the state.
  unfoldable pub lift : {A : Type 0} → Result A → Method Blobs A
  lift r s = (r, s)

  -- What is read of the state.
  unfoldable pub read : {A : Type 0} → (RepositoryState Blobs → Result A) → Method Blobs A
  read f s = (f s, s)

  -- A call of a method of the catalog.
  unfoldable pub catalog_call : (MemoryCatalog → Outcome) → Method Blobs (Unit {0})
  catalog_call method s = let (r, c) = method s.catalog in (r, record s { catalog = c })

  abbrev pub raise_if : Bool → Fault → Method Blobs (Unit {0})
  raise_if b fault = lift (if b then raise fault else ok tt)

  -- `_writer_lease.require_active()`
  unfoldable pub require_active : Method Blobs (Unit {0})
  unfolding read
  require_active = read (λ s. if s.active then ok tt else raise Fault.writer_closed)

  -- `close()`, after which no writing method returns.
  unfoldable pub close : RepositoryState Blobs → RepositoryState Blobs
  close s = record s { active = false }

  module _ {Data : Type 0} (store : BlobStore Blobs Data) where
    -- `self.blobs.put_bytes(data, media_type=media_type)`
    unfoldable pub put_blob : Data → Option String → Method Blobs ContentRef
    put_blob payload media_type s =
        let (content, blobs) = store.put_bytes payload media_type s.blobs in
        (ok content, record s { blobs = blobs })
