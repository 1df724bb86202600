-- ===== src/Parser/Sharding/Caches.antt =====
-- The caches of internal/frameparser/sharding.go whose last fragment is not known.
use device_wiresink_go.Prelude.{
  ◌≡◌, arith, Bool, true, false, [], ◌∷◌, some, if◌then◌else◌, Text, Assoc, All, text_eq, lookup,
  insert, delete,
}
use device_wiresink_go.State.{SduCache, Gateway}

-- The cache has noted no last fragment.
abbrev pub Open : Text × SduCache → Type 0
Open (key, cache) = cache.final_pseq ≡ 0

-- No cache has noted a last fragment.
abbrev pub Unfinished : Gateway → Type 0
Unfinished g = All Open g.caches

pub if-Open :
    (b : Bool) (x y : Assoc SduCache) → All Open x → All Open y → All Open (if b then x else y)
if-Open true x y p q = p
if-Open false x y p q = q

pub insert-Open :
    (key : Text) (cache : SduCache) (caches : Assoc SduCache)
    → cache.final_pseq ≡ 0
    → All Open caches
    → All Open (insert key cache caches)
unfolding insert
insert-Open key cache [] p h = (p, tt)
insert-Open key cache ((k, c) ∷ rest) p (q, h) =
    if-Open (text_eq k key) _ _ (p, h) (q, insert-Open key cache rest p h)

pub delete-Open :
    (key : Text) (caches : Assoc SduCache) → All Open caches → All Open (delete key caches)
unfolding delete
delete-Open key [] h = tt
delete-Open key ((k, c) ∷ rest) (q, h) =
    let deeper = delete-Open key rest h in if-Open (text_eq k key) _ _ deeper (q, deeper)

pub lookup-Open :
    (key : Text) (cache : SduCache) (caches : Assoc SduCache)
    → All Open caches
    → lookup key caches ≡ some cache
    → cache.final_pseq ≡ 0
unfolding lookup
lookup-Open key cache [] h e = cc
lookup-Open key cache ((k, c) ∷ rest) (q, h) e = ground (arith, lookup-Open key cache rest h)
