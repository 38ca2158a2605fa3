-- ===== src/Provider/Instance/Filters.antt =====
-- Which hostnames the metadata filters of an instance let through.
use dnsweaver.Base.{
  String, ◌≡◌, ◌↔◌, refl, true, none, some, List, [], ◌∷◌, arith, All, ◌⊎◌, inl, inr, contains,
  Option-cases,
}
use dnsweaver.Base.Map.{Map, lookup}
use dnsweaver.Matcher.{matches}
use dnsweaver.Provider.Instance.{ProviderInstance, matches_metadata_filters, matches_with_metadata}

-- The metadata do not have the filter's key, or have one of its values under it.
abbrev pub IsAllowed : Map String → String × List String → Type 0
IsAllowed metadata (key, allowed) =
    (lookup key metadata ≡ none)
    ⊎ ((value : String) × (lookup key metadata ≡ some value) × (contains value allowed ≡ true))

filters_sound :
    (metadata : Map String) (filters : Map (List String))
    → matches_metadata_filters metadata filters ≡ true
    → All (IsAllowed metadata) filters
unfolding matches_metadata_filters
filters_sound metadata [] e = tt
filters_sound metadata ((key, allowed) ∷ filters) e = elim (Option-cases (lookup key metadata)) [
  | inl missing ↦ (inl missing, filters_sound metadata filters (ground arith))
  | inr (value, there) ↦
      (inr (value, there, ground arith), filters_sound metadata filters (ground arith))
]

filters_complete :
    (metadata : Map String) (filters : Map (List String))
    → All (IsAllowed metadata) filters
    → matches_metadata_filters metadata filters ≡ true
unfolding matches_metadata_filters
filters_complete metadata [] h = refl
filters_complete metadata ((key, allowed) ∷ filters) (inl missing, h) =
    ground (arith, missing, filters_complete metadata filters h)
filters_complete metadata ((key, allowed) ∷ filters) (inr (value, there, good), h) =
    ground (arith, there, good, filters_complete metadata filters h)

-- An instance claims a hostname exactly if its patterns match the name and, for each of its filters,
-- the hostname's metadata do not have the filter's key or have an allowed value under it.
pub claims_iff :
    {W : Type 0} (pi : ProviderInstance W) (hostname : String) (metadata : Map String)
    → (matches_with_metadata pi hostname metadata ≡ true)
      ↔ ((matches pi.matcher hostname ≡ true) × All (IsAllowed metadata) pi.metadata_filters)
unfolding matches_with_metadata
claims_iff pi hostname metadata = (
  λ e. (ground arith, filters_sound metadata pi.metadata_filters (ground arith)),
  λ h. ground (arith, h.0, filters_complete metadata pi.metadata_filters h.1),
)
