-- ===== src/Source/Registry.antt =====
-- pkg/source/registry.go: the registry of the sources. The lock and the logger are left out: each
-- operation runs alone.
use dnsweaver.Base.{
  ℕ, String, Bool, true, false, ◌||◌, Option, none, some, List, [], ◌∷◌, ◌++◌, ◌==◌, if◌then◌else◌,
  contains, length, select, is_some, to_lower, nat_eq,
}
use dnsweaver.Base.Blanks.{trim_space}
use dnsweaver.Base.Map.{Map, lookup, insert}
use dnsweaver.Hostname.{Hostname}
use package.dnsweaver.Source.{
  Workload, Source, SourceError, duplicate_source, source_not_found, Found, ok, err,
}

-- `Registry`
pub record Registry : Type 0 where
  pub sources : List Source
  pub by_name : Map Source

-- `NewRegistry`
abbrev pub new_registry : Registry
new_registry = record { sources = []; by_name = [] }

-- `Register`
unfoldable pub register : Source → Registry → Option SourceError × Registry
register source r =
    if is_some (lookup source.name r.by_name) then (some (duplicate_source source.name), r) else (
      none,
      record { sources = r.sources ++ source ∷ []; by_name = insert source.name source r.by_name },
    )

-- `Get`
abbrev pub get : String → Registry → Option Source
get name r = lookup name r.by_name

-- `Count`
abbrev pub count : Registry → ℕ
count r = length r.sources

-- the value of the opt-out; letters beyond ASCII are not folded
abbrev pub is_opt_out : Option String → Bool
is_opt_out none = false
is_opt_out (some v) = to_lower (trim_space v) == "false"

-- `isWorkloadDisabled`
unfoldable pub is_workload_disabled : Workload → Bool
is_workload_disabled w =
    is_opt_out (lookup "dnsweaver.enabled" w.labels)
    || is_opt_out (lookup "dnsweaver.dev/enabled" w.annotations)

-- `sourceSupports`
unfoldable pub source_supports : Source → String → Bool
source_supports s platform =
    if nat_eq (length s.supported_platforms) 0
    then true
    else contains platform s.supported_platforms

-- a source that failed is skipped
abbrev pub found_or_none : Found → List Hostname
found_or_none (ok hs) = hs
found_or_none (err e) = []

-- the loop of `ExtractAll`
unfoldable pub extract_each : Workload → List Source → List Hostname
unfolding source_supports
extract_each w [] = []
extract_each w (s ∷ ss) =
    let rest = extract_each w ss in
    if source_supports s w.platform then found_or_none (s.extract w) ++ rest else rest

-- `ExtractAll`
unfoldable pub extract_all : Registry → Workload → List Hostname
unfolding is_workload_disabled extract_each
extract_all r w = if is_workload_disabled w then [] else extract_each w r.sources

-- the loop of `DiscoverAll`
unfoldable pub discover_each : List Source → List Hostname
discover_each [] = []
discover_each (s ∷ ss) =
    let rest = discover_each ss in
    if s.supports_discovery then found_or_none s.discover ++ rest else rest

-- `DiscoverAll`
abbrev pub discover_all : Registry → List Hostname
discover_all r = discover_each r.sources

-- `DiscoverableSources`
abbrev pub discoverable_sources : Registry → List Source
discoverable_sources r = select (λ s. s.supports_discovery) r.sources

-- `ExtractFrom`
abbrev pub extract_from : String → Workload → Registry → Found
extract_from name w r = elim (get name r) [
  | none ↦ err (source_not_found name)
  | some s ↦ s.extract w
]

-- `DiscoverFrom`
abbrev pub discover_from : String → Registry → Found
discover_from name r = elim (get name r) [
  | none ↦ err (source_not_found name)
  | some s ↦ if s.supports_discovery then s.discover else ok []
]
