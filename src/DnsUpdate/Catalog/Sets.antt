-- ===== src/DnsUpdate/Catalog/Sets.antt =====
-- The chunks as a set of hostnames.
use dnsweaver.Base.{
  ℕ, suc, String, ◌≡◌, refl, ap, ◌∙◌, Bool, false, ◌||◌, List, [], ◌∷◌, ◌++◌, is_some, arith,
  contains, ◌==◌,
}
use dnsweaver.Base.Map.{Map, lookup, insert, lookup-insert}
use package.dnsweaver.DnsUpdate.Catalog.{place, sort, index_chunk, index_from}

abbrev pub in_chunks : String → List (List String) → Bool
in_chunks x [] = false
in_chunks x (c ∷ cs) = contains x c || in_chunks x cs

contains-place :
    (x y : String) (ys : List String) → contains x (place y ys) ≡ (y == x || contains x ys)
unfolding place
contains-place x y [] = refl
contains-place x y (z ∷ zs) = ground (arith, contains-place x y zs)

-- Sorting keeps the members.
pub contains-sort : (x : String) (xs : List String) → contains x (sort xs) ≡ contains x xs
unfolding sort
contains-sort x [] = refl
contains-sort x (y ∷ ys) = contains-place x y (sort ys) ∙ ap (λ b. y == x || b) (contains-sort x ys)

pub contains-append :
    (x : String) (xs ys : List String) → contains x (xs ++ ys) ≡ (contains x xs || contains x ys)
contains-append x [] ys = refl
contains-append x (y ∷ xs) ys = ground (arith, contains-append x xs ys)

lookup-index_chunk :
    (x : String) (i : ℕ) (hs : List String) (m : Map ℕ)
    → is_some (lookup x (index_chunk i hs m)) ≡ (contains x hs || is_some (lookup x m))
unfolding index_chunk
lookup-index_chunk x i [] m = refl
lookup-index_chunk x i (h ∷ hs) m =
    ground (arith, lookup-index_chunk x i hs (insert h i m), lookup-insert h x i m)

-- The index holds the hostnames of the chunks.
pub lookup-index_from :
    (x : String) (i : ℕ) (cs : List (List String)) (m : Map ℕ)
    → is_some (lookup x (index_from i cs m)) ≡ (in_chunks x cs || is_some (lookup x m))
unfolding index_from
lookup-index_from x i [] m = refl
lookup-index_from x i (c ∷ cs) m =
    ground (arith, lookup-index_from x (suc i) cs (index_chunk i c m), lookup-index_chunk x i c m)
