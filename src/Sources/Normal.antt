-- ===== src/Sources/Normal.antt =====
-- The construction of sources in sources.py: a source that was constructed is normal.
use mathlib.Core.Path.{subst}
use efloud.Prelude.{String, List, [], ◌∷◌, map, ◌≡◌, refl, sym, ap, ◌∙◌, arith, inl, inr}
use efloud.Prelude.{
  if-false, string_eq, any, any-false_iff, Distinct, Member-unique, unique, unique-Distinct,
  Bool-cases,
}
use efloud.Prelude.Sort.{sort, Member-sort, sort-Sorted, str_leb-IsOrder}
use efloud.Prelude.Indexed.{sort-Distinct, sort_of_Sorted}
use efloud.Prelude.Text.{str_leb}
use efloud.Errors.{ok, >>=-eq-ok, ok_injective}
use efloud.Planning.{sorted_set}
use efloud.Sources.{
  Common, Source, local, http, rest, rsync, collection, LocalSource, UrlSource, RsyncSource,
  CollectionSource, is_blank, require_text, normalize_tags, require_option, check_port, check_url,
  url_source, collection_source, rsync_source, local_source, declared,
}

unique_of_Distinct : (xs : List String) → Distinct xs → unique xs ≡ xs
unique_of_Distinct [] u = refl
unique_of_Distinct (x ∷ xs) u = rw (unique_of_Distinct xs u.1, u.0) refl

pub map_same : (xs : List String) → map (λ x. x) xs ≡ xs
map_same [] = refl
map_same (x ∷ xs) = ap (◌∷◌ x) (map_same xs)

-- A set that is sorted stays as it is.
pub sorted_set-sorted_set : (xs : List String) → sorted_set (sorted_set xs) ≡ sorted_set xs
sorted_set-sorted_set xs =
    let s = sort str_leb (unique xs) in
    let u = subst Distinct (sym (map_same (unique xs))) (unique-Distinct xs) in
    let d = subst Distinct (map_same s) (sort-Distinct (λ x. x) str_leb (unique xs) u) in
    ap (sort str_leb) (unique_of_Distinct s d)
    ∙ sort_of_Sorted str_leb s (sort-Sorted str_leb-IsOrder (unique xs))

module _ (strip : String → String) where
  normalize_tags-twice :
      (tags out : List String)
      → normalize_tags strip tags ≡ ok out
      → normalize_tags strip out ≡ ok out
  unfolding normalize_tags
  normalize_tags-twice tags out h = elim (Bool-cases (any (is_blank strip) tags)) [
    | inl e ↦ absurd (ground (arith, rw (e, normalize_tags) at h))
    | inr e ↦
        let q = ok_injective (sym (if-false _ _ _ e) ∙ h) in
        let clear = (any-false_iff (is_blank strip) (sorted_set tags)).1 (λ a m.
          (any-false_iff (is_blank strip) tags).0 e a
            ((Member-unique a tags).0 ((Member-sort str_leb a (unique tags)).0 m))) in
        subst (λ z. normalize_tags strip z ≡ ok z) q
          (if-false _ _ _ clear ∙ ap ok (sorted_set-sorted_set tags))
  ]

  check_url-twice :
      (c d : Common) (url : String) → check_url strip c url ≡ ok d → check_url strip d url ≡ ok d
  unfolding check_url
  check_url-twice c d url h =
      let (n, e, g) = >>=-eq-ok (require_text strip c.id) _ h in
      let (l, f, k) = >>=-eq-ok (require_text strip url) _ g in
      let (tags, t, j) = >>=-eq-ok (normalize_tags strip c.tags) _ k in
      subst (λ z. check_url strip z url ≡ ok z) (ok_injective j)
        (rw (e, f, normalize_tags-twice c.tags tags t) refl)

  url_source-twice : (s t : UrlSource) → url_source strip s ≡ ok t → url_source strip t ≡ ok t
  unfolding url_source
  url_source-twice s t h =
      let (c, e, g) = >>=-eq-ok (check_url strip s.common s.url) _ h in
      subst (λ z. url_source strip z ≡ ok z) (ok_injective g)
        (rw (check_url-twice s.common c s.url e) refl)

  collection_source-twice :
      (s t : CollectionSource) → collection_source strip s ≡ ok t → collection_source strip t ≡ ok t
  unfolding collection_source
  collection_source-twice s t h =
      let (c, e, g) = >>=-eq-ok (check_url strip s.common s.url) _ h in
      subst (λ z. collection_source strip z ≡ ok z) (ok_injective g)
        (rw (check_url-twice s.common c s.url e) refl)

  rsync_source-twice :
      (s t : RsyncSource) → rsync_source strip s ≡ ok t → rsync_source strip t ≡ ok t
  unfolding rsync_source
  rsync_source-twice s t h =
      let (n, e, g) = >>=-eq-ok (require_text strip s.common.id) _ h in
      let (l, f, k) = >>=-eq-ok (require_text strip s.url) _ g in
      let (p, i, j) = >>=-eq-ok (check_port strip s.port) _ k in
      let (tags, d, q) = >>=-eq-ok (normalize_tags strip s.common.tags) _ j in
      subst (λ z. rsync_source strip z ≡ ok z) (ok_injective q)
        (rw (e, f, i, normalize_tags-twice s.common.tags tags d, sorted_set-sorted_set s.paths)
          refl)

  local_source-twice :
      (resolve : String → String)
      → ((path : String) → resolve (resolve path) ≡ resolve path)
      → (s t : LocalSource) → local_source strip resolve s ≡ ok t
      → local_source strip resolve t ≡ ok t
  unfolding local_source
  local_source-twice resolve idem s t h =
      let (n, e, g) = >>=-eq-ok (require_text strip s.common.id) _ h in
      let (l, f, k) = >>=-eq-ok (require_text strip (resolve s.path)) _ g in
      let (p, i, j) = >>=-eq-ok (require_option strip s.artifact_key) _ k in
      let (tags, d, q) = >>=-eq-ok (normalize_tags strip s.common.tags) _ j in
      subst (λ z. local_source strip resolve z ≡ ok z) (ok_injective q)
        (rw (e, idem s.path, f, i, normalize_tags-twice s.common.tags tags d) refl)

  pub declared-declared :
      (resolve : String → String)
      → ((path : String) → resolve (resolve path) ≡ resolve path)
      → (s t : Source) → declared strip resolve s ≡ ok t
      → declared strip resolve t ≡ ok t
  unfolding declared
  declared-declared resolve idem (local s) t h =
      let (x, e, g) = >>=-eq-ok (local_source strip resolve s) _ h in
      subst (λ z. declared strip resolve z ≡ ok z) (ok_injective g)
        (rw (local_source-twice resolve idem s x e) refl)
  declared-declared resolve idem (http s) t h =
      let (x, e, g) = >>=-eq-ok (url_source strip s) _ h in
      subst (λ z. declared strip resolve z ≡ ok z) (ok_injective g)
        (rw (url_source-twice s x e) refl)
  declared-declared resolve idem (rest s) t h =
      let (x, e, g) = >>=-eq-ok (url_source strip s) _ h in
      subst (λ z. declared strip resolve z ≡ ok z) (ok_injective g)
        (rw (url_source-twice s x e) refl)
  declared-declared resolve idem (rsync s) t h =
      let (x, e, g) = >>=-eq-ok (rsync_source strip s) _ h in
      subst (λ z. declared strip resolve z ≡ ok z) (ok_injective g)
        (rw (rsync_source-twice s x e) refl)
  declared-declared resolve idem (collection s) t h =
      let (x, e, g) = >>=-eq-ok (collection_source strip s) _ h in
      subst (λ z. declared strip resolve z ≡ ok z) (ok_injective g)
        (rw (collection_source-twice s x e) refl)
