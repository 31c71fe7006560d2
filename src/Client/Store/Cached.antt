-- ===== src/Client/Store/Cached.antt =====
-- The table of cached blobs: its key is unique, its total, and the rows that may go.
use scrigno.Prelude.{
  ◌+◌, ◌-◌, ◌≡◌, refl, false, none, some, List, [], ◌∷◌, leb, ◌==◌, if◌then◌else◌, arith, All,
  ==_refl, Bool-cases, ◌⊎◌, inl, inr,
}
use scrigno.Server.{Uuid}
use scrigno.Client.{DocumentRow, CacheRow}
use scrigno.Client.Store.{
  Store, find_cached, cache_get, drop_cached, cache_remove, remove_file, total_size,
  cache_total_size, pinned, evictable, insert_by_access, cache_evictable_by_lru,
}

-- `blob_id` is the primary key.
unfoldable pub UniqueKeys : List CacheRow → Type 0
UniqueKeys [] = Unit {0}
UniqueKeys (c ∷ cs) = (find_cached c.blob_id cs ≡ none) × UniqueKeys cs

drop_cached-absent :
    (id : Uuid) (cs : List CacheRow) → find_cached id cs ≡ none → drop_cached id cs ≡ cs
unfolding find_cached drop_cached
drop_cached-absent id [] h = refl
drop_cached-absent id (c ∷ cs) h = ground (arith, drop_cached-absent id cs)

find_cached-drop_cached-none :
    (id blob : Uuid) (cs : List CacheRow)
    → find_cached id cs ≡ none
    → find_cached id (drop_cached blob cs) ≡ none
unfolding find_cached drop_cached
find_cached-drop_cached-none id blob [] h = refl
find_cached-drop_cached-none id blob (c ∷ cs) h =
    ground (arith, find_cached-drop_cached-none id blob cs)

UniqueKeys-drop_cached :
    (id : Uuid) (cs : List CacheRow) → UniqueKeys cs → UniqueKeys (drop_cached id cs)
unfolding UniqueKeys drop_cached
UniqueKeys-drop_cached id [] h = tt
UniqueKeys-drop_cached id (c ∷ cs) (hc, h) = elim (Bool-cases (c.blob_id == id)) [
  | inl e ↦ rw e (UniqueKeys-drop_cached id cs h)
  | inr e ↦ rw e (find_cached-drop_cached-none c.blob_id id cs hc, UniqueKeys-drop_cached id cs h)
]

total_size-drop_cached :
    (id : Uuid) (cs : List CacheRow) (c : CacheRow)
    → UniqueKeys cs
    → find_cached id cs ≡ some c
    → total_size cs ≡ c.size + total_size (drop_cached id cs)
unfolding UniqueKeys find_cached drop_cached total_size
total_size-drop_cached id [] c u h = cc
total_size-drop_cached id (d ∷ cs) c (hd, u) h = elim (Bool-cases (d.blob_id == id)) [
  | inl e ↦
      let gone : find_cached id cs ≡ none = ground (arith, e, hd) in
      let same : d ≡ c = ground (arith, e, h) in rw (e, drop_cached-absent id cs gone, same) refl
  | inr e ↦
      let rest : find_cached id cs ≡ some c = ground (arith, e, h) in
      rw e (omega (arith, total_size-drop_cached id cs c u rest))
]

find_cached-insert_by_access :
    (id : Uuid) (c : CacheRow) (es : List CacheRow)
    → find_cached id (insert_by_access c es) ≡ none
    → ((c.blob_id == id) ≡ false) × (find_cached id es ≡ none)
unfolding find_cached insert_by_access
find_cached-insert_by_access id c [] h = ground arith
find_cached-insert_by_access id c (e ∷ es) h = ground (arith, find_cached-insert_by_access id c es)

-- A cached blob that is not pinned is among the rows that may go.
evictable-misses :
    (id : Uuid) (ds : List DocumentRow) (cs : List CacheRow)
    → pinned id ds ≡ false
    → find_cached id (evictable ds cs) ≡ none
    → find_cached id cs ≡ none
unfolding find_cached evictable
evictable-misses id ds [] p h = refl
evictable-misses id ds (c ∷ cs) p h = elim (Bool-cases (pinned c.blob_id ds)) [
  | inl e ↦ let rest = evictable-misses id ds cs p (rw (evictable, e) at h) in ground (arith, rest)
  | inr e ↦
      let (apart, gone) =
        find_cached-insert_by_access id c (evictable ds cs) (rw (evictable, e) at h) in
      rw apart (evictable-misses id ds cs p gone)
]

pub UniqueKeys-forget :
    (id : Uuid) (s : Store)
    → UniqueKeys s.cache
    → UniqueKeys (remove_file id (cache_remove id s).1).cache
unfolding remove_file cache_remove
UniqueKeys-forget id s u = UniqueKeys-drop_cached id s.cache u

pub cache_total_size-forget :
    (id : Uuid) (s : Store) (c : CacheRow)
    → UniqueKeys s.cache
    → cache_get id s ≡ some c
    → cache_total_size (remove_file id (cache_remove id s).1) ≡ cache_total_size s - c.size
unfolding remove_file cache_remove cache_total_size cache_get
cache_total_size-forget id s c u h = omega (arith, total_size-drop_cached id s.cache c u h)

pub cache_evictable_by_lru-misses :
    (id : Uuid) (s : Store)
    → pinned id s.documents ≡ false
    → find_cached id (cache_evictable_by_lru s) ≡ none
    → cache_get id s ≡ none
unfolding cache_evictable_by_lru cache_get
cache_evictable_by_lru-misses id s p h = evictable-misses id s.documents s.cache p h

insert_by_access-All :
    (P : CacheRow → Type 0) (c : CacheRow) (es : List CacheRow)
    → P c
    → All P es
    → All P (insert_by_access c es)
unfolding insert_by_access
insert_by_access-All P c [] p h = (p, tt)
insert_by_access-All P c (e ∷ es) p (q, h) = elim (Bool-cases (leb c.last_access e.last_access)) [
  | inl t ↦ rw t (p, (q, h))
  | inr t ↦ rw t (q, insert_by_access-All P c es p h)
]

evictable-All :
    (P : CacheRow → Type 0) (ds : List DocumentRow) (cs : List CacheRow)
    → All P cs
    → All P (evictable ds cs)
unfolding evictable
evictable-All P ds [] h = tt
evictable-All P ds (c ∷ cs) (p, h) = elim (Bool-cases (pinned c.blob_id ds)) [
  | inl e ↦ rw e (evictable-All P ds cs h)
  | inr e ↦ rw e (insert_by_access-All P c (evictable ds cs) p (evictable-All P ds cs h))
]

-- Each row is the one that is found for its key.
UniqueKeys-All :
    (cs : List CacheRow) → UniqueKeys cs → All (λ r. find_cached r.blob_id cs ≡ some r) cs
unfolding UniqueKeys find_cached
UniqueKeys-All [] u = tt
UniqueKeys-All (c ∷ cs) (fresh, u) =
    (rw (==_refl c.blob_id) refl, under cs cs fresh (UniqueKeys-All cs u))
  where
    under :
        (rs cs : List CacheRow)
        → find_cached c.blob_id cs ≡ none
        → All (λ r. find_cached r.blob_id cs ≡ some r) rs
        → All (λ r. find_cached r.blob_id (c ∷ cs) ≡ some r) rs
    under [] cs fresh h = tt
    under (r ∷ rs) cs fresh (e, h) = (ground (arith, e, fresh), under rs cs fresh h)

pub cache_evictable_by_lru-current :
    (s : Store)
    → UniqueKeys s.cache
    → All
        (λ r. (cache_get r.blob_id s ≡ none) ⊎ (cache_get r.blob_id s ≡ some r))
        (cache_evictable_by_lru s)
unfolding cache_evictable_by_lru cache_get
cache_evictable_by_lru-current s u =
    evictable-All _ s.documents s.cache (weaker s.cache s.cache (UniqueKeys-All s.cache u))
  where
    weaker :
        (cs rs : List CacheRow)
        → All (λ r. find_cached r.blob_id cs ≡ some r) rs
        → All (λ r. (find_cached r.blob_id cs ≡ none) ⊎ (find_cached r.blob_id cs ≡ some r)) rs
    weaker cs [] h = tt
    weaker cs (r ∷ rs) (e, h) = (inr e, weaker cs rs h)

pub find_cached-nil : (id : Uuid) → find_cached id [] ≡ none
unfolding find_cached
find_cached-nil id = refl

pub find_cached-cons :
    (id : Uuid) (c : CacheRow) (cs : List CacheRow)
    → find_cached id (c ∷ cs) ≡ (if c.blob_id == id then some c else find_cached id cs)
unfolding find_cached
find_cached-cons id c cs = refl
