-- ===== src/Sources/Constructed.antt =====
-- What the classes of sources.py make of a source that they accept.
use mathlib.Core.Path.{subst}
use efloud.Prelude.{
  ℕ, ◌≤◌, String, false, List, Option, none, some, ◌≡◌, ◌↔◌, refl, sym, ◌∙◌, arith, inl, inr,
}
use efloud.Prelude.{
  if-false, string_eq, any, any-false_iff, Distinct, Member, Member-unique, unique, unique-Distinct,
  Bool-cases,
}
use efloud.Prelude.Sort.{sort, Sorted, Member-sort, sort-Sorted, str_leb-IsOrder}
use efloud.Prelude.Indexed.{sort-Distinct}
use efloud.Prelude.Text.{str_leb}
use efloud.Errors.{ok, >>=-eq-ok, ok_injective}
use efloud.Planning.{sorted_set}
use efloud.Sources.{
  Common, Source, local, http, rest, rsync, collection, LocalSource, UrlSource, RsyncSource,
  CollectionSource, is_blank, require_text, normalize_tags, require_option, check_port, check_url,
  url_source, collection_source, rsync_source, local_source, declared,
}
use efloud.Sources.Normal.{map_same, declared-declared}

-- The texts given, each of them once, in order.
pub record IsListing (given xs : List String) : Type 0 where
  pub sorted : Sorted str_leb xs
  pub once : Distinct xs
  pub same : (t : String) → Member t xs ↔ Member t given

sorted_set-IsListing : (given : List String) → IsListing given (sorted_set given)
sorted_set-IsListing given =
    let u = subst Distinct (sym (map_same (unique given))) (unique-Distinct given) in
    record {
      sorted = sort-Sorted str_leb-IsOrder (unique given);
      once =
          subst Distinct (map_same (sort str_leb (unique given)))
            (sort-Distinct (λ x. x) str_leb (unique given) u);
      same = λ t. (
        λ m. (Member-unique t given).0 ((Member-sort str_leb t (unique given)).0 m),
        λ m. (Member-sort str_leb t (unique given)).1 ((Member-unique t given).1 m),
      );
    }

abbrev IsPort : Option ℕ → Type 0
IsPort none = Unit
IsPort (some n) = (1 ≤ n) × (n ≤ 65535)

module _ (strip : String → String) where
  abbrev IsKey : Option String → Type 0
  IsKey none = Unit
  IsKey (some key) = is_blank strip key ≡ false

  -- The identifier and the location are not blank, and the tags are those given, none of them
  -- blank, each of them once and in order.
  pub record IsNamed (c d : Common) (location : String) : Type 0 where
    pub same_id : d.id ≡ c.id
    pub named : is_blank strip d.id ≡ false
    pub located : is_blank strip location ≡ false
    pub tags : IsListing c.tags d.tags
    pub filled : (t : String) → Member t d.tags → is_blank strip t ≡ false

  -- What a source becomes: it keeps its class and its location, which is resolved if it is a path.
  abbrev pub IsConstructed : (String → String) → Source → Source → Type 0
  IsConstructed resolve (local s) (local t) =
      IsNamed s.common t.common t.path × (t.path ≡ resolve s.path) × IsKey t.artifact_key
  IsConstructed resolve (http s) (http t) = IsNamed s.common t.common t.url × (t.url ≡ s.url)
  IsConstructed resolve (rest s) (rest t) = IsNamed s.common t.common t.url × (t.url ≡ s.url)
  IsConstructed resolve (rsync s) (rsync t) =
      IsNamed s.common t.common t.url × (t.url ≡ s.url) × IsPort t.port × IsListing s.paths t.paths
  IsConstructed resolve (collection s) (collection t) =
      IsNamed s.common t.common t.url × (t.url ≡ s.url)
  IsConstructed resolve _ _ = ⊥

  require_text-filled :
      (text : String) {u : Unit {0}} → require_text strip text ≡ ok u → is_blank strip text ≡ false
  unfolding require_text
  require_text-filled text h = ground arith

  require_option-IsKey :
      (key : Option String) {u : Unit {0}} → require_option strip key ≡ ok u → IsKey key
  require_option-IsKey none h = tt
  require_option-IsKey (some text) h = require_text-filled text h

  check_port-IsPort : (port : Option ℕ) {u : Unit {0}} → check_port strip port ≡ ok u → IsPort port
  check_port-IsPort none h = tt
  check_port-IsPort (some n) h = ground arith

  normalize_tags-same :
      (given tags : List String)
      → normalize_tags strip given ≡ ok tags
      → IsListing given tags × ((t : String) → Member t tags → is_blank strip t ≡ false)
  unfolding normalize_tags
  normalize_tags-same given tags h = elim (Bool-cases (any (is_blank strip) given)) [
    | inl e ↦ absurd (ground (arith, rw (e, normalize_tags) at h))
    | inr e ↦
        let i = sorted_set-IsListing given in
        subst (λ z. IsListing given z × ((t : String) → Member t z → is_blank strip t ≡ false))
          (ok_injective (sym (if-false _ _ _ e) ∙ h))
          (i, λ t m. (any-false_iff (is_blank strip) given).0 e t ((i.same t).0 m))
  ]

  check_url-IsNamed : (c d : Common) (url : String) → check_url strip c url ≡ ok d → IsNamed c d url
  unfolding check_url
  check_url-IsNamed c d url h =
      let (n, e, g) = >>=-eq-ok (require_text strip c.id) _ h in
      let (l, f, k) = >>=-eq-ok (require_text strip url) _ g in
      let (tags, t, j) = >>=-eq-ok (normalize_tags strip c.tags) _ k in
      let (set, filled) = normalize_tags-same c.tags tags t in
      subst (λ z. IsNamed c z url) (ok_injective j)
        (record {
          same_id = refl;
          named = require_text-filled c.id e;
          located = require_text-filled url f;
          tags = set;
          filled = filled;
        })

  url_source-IsNamed :
      (s t : UrlSource)
      → url_source strip s ≡ ok t
      → IsNamed s.common t.common t.url × (t.url ≡ s.url)
  unfolding url_source
  url_source-IsNamed s t h =
      let (c, e, g) = >>=-eq-ok (check_url strip s.common s.url) _ h in
      subst (λ (z : UrlSource). IsNamed s.common z.common z.url × (z.url ≡ s.url)) (ok_injective g)
        (check_url-IsNamed s.common c s.url e, refl)

  collection_source-IsNamed :
      (s t : CollectionSource)
      → collection_source strip s ≡ ok t
      → IsNamed s.common t.common t.url × (t.url ≡ s.url)
  unfolding collection_source
  collection_source-IsNamed s t h =
      let (c, e, g) = >>=-eq-ok (check_url strip s.common s.url) _ h in
      subst (λ (z : CollectionSource). IsNamed s.common z.common z.url × (z.url ≡ s.url))
        (ok_injective g) (check_url-IsNamed s.common c s.url e, refl)

  rsync_source-IsConstructed :
      (resolve : String → String) (s t : RsyncSource)
      → rsync_source strip s ≡ ok t
      → IsConstructed resolve (rsync s) (rsync t)
  unfolding rsync_source
  rsync_source-IsConstructed resolve s t h =
      let (n, e, g) = >>=-eq-ok (require_text strip s.common.id) _ h in
      let (l, f, k) = >>=-eq-ok (require_text strip s.url) _ g in
      let (p, i, j) = >>=-eq-ok (check_port strip s.port) _ k in
      let (tags, d, q) = >>=-eq-ok (normalize_tags strip s.common.tags) _ j in
      let (set, filled) = normalize_tags-same s.common.tags tags d in
      subst (λ (z : RsyncSource). IsConstructed resolve (rsync s) (rsync z)) (ok_injective q)
        (
          record {
            same_id = refl;
            named = require_text-filled s.common.id e;
            located = require_text-filled s.url f;
            tags = set;
            filled = filled;
          },
          refl,
          check_port-IsPort s.port i,
          sorted_set-IsListing s.paths,
        )

  local_source-IsConstructed :
      (resolve : String → String) (s t : LocalSource)
      → local_source strip resolve s ≡ ok t
      → IsConstructed resolve (local s) (local t)
  unfolding local_source
  local_source-IsConstructed resolve s t h =
      let (n, e, g) = >>=-eq-ok (require_text strip s.common.id) _ h in
      let (l, f, k) = >>=-eq-ok (require_text strip (resolve s.path)) _ g in
      let (p, i, j) = >>=-eq-ok (require_option strip s.artifact_key) _ k in
      let (tags, d, q) = >>=-eq-ok (normalize_tags strip s.common.tags) _ j in
      let (set, filled) = normalize_tags-same s.common.tags tags d in
      subst (λ (z : LocalSource). IsConstructed resolve (local s) (local z)) (ok_injective q)
        (
          record {
            same_id = refl;
            named = require_text-filled s.common.id e;
            located = require_text-filled (resolve s.path) f;
            tags = set;
            filled = filled;
          },
          refl,
          require_option-IsKey s.artifact_key i,
        )

  IsConstructed-of_declared :
      (resolve : String → String) (s t : Source)
      → declared strip resolve s ≡ ok t
      → IsConstructed resolve s t
  unfolding declared
  IsConstructed-of_declared resolve (local s) t h =
      let (x, e, g) = >>=-eq-ok (local_source strip resolve s) _ h in
      subst (IsConstructed resolve (local s)) (ok_injective g)
        (local_source-IsConstructed resolve s x e)
  IsConstructed-of_declared resolve (http s) t h =
      let (x, e, g) = >>=-eq-ok (url_source strip s) _ h in
      subst (IsConstructed resolve (http s)) (ok_injective g) (url_source-IsNamed s x e)
  IsConstructed-of_declared resolve (rest s) t h =
      let (x, e, g) = >>=-eq-ok (url_source strip s) _ h in
      subst (IsConstructed resolve (rest s)) (ok_injective g) (url_source-IsNamed s x e)
  IsConstructed-of_declared resolve (rsync s) t h =
      let (x, e, g) = >>=-eq-ok (rsync_source strip s) _ h in
      subst (IsConstructed resolve (rsync s)) (ok_injective g)
        (rsync_source-IsConstructed resolve s x e)
  IsConstructed-of_declared resolve (collection s) t h =
      let (x, e, g) = >>=-eq-ok (collection_source strip s) _ h in
      subst (IsConstructed resolve (collection s)) (ok_injective g)
        (collection_source-IsNamed s x e)

  -- If to resolve a path twice is to resolve it once, a source that is accepted keeps its class, its
  -- identifier and its location, which is resolved if it is a path; its identifier and location are
  -- not blank, nor is the artifact key of a local source; its tags, and the paths of an rsync source,
  -- are those given, each of them once and in order, and no tag is blank; the port of an rsync source
  -- is between 1 and 65535; and it is accepted again as it is.
  pub declared-IsConstructed :
      (resolve : String → String)
      → ((path : String) → resolve (resolve path) ≡ resolve path)
      → (s t : Source) → declared strip resolve s ≡ ok t
      → IsConstructed resolve s t × (declared strip resolve t ≡ ok t)
  declared-IsConstructed resolve idem s t h =
      (IsConstructed-of_declared resolve s t h, declared-declared strip resolve idem s t h)
