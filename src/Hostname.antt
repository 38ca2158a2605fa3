-- ===== src/Hostname.antt =====
-- pkg/source/hostname.go: hostnames, the hints that a source attaches to them, and their canonical
-- form. A TTL is a natural number: a negative one is read as 0, "use the default".
pub mod Validation
pub mod Normal
use dnsweaver.Base.{ℕ, String, true, false, Option, List, [], ◌∷◌, to_lower, trim_dot, contains}
use dnsweaver.Base.Map.{Map}

-- `NormalizeHostname`
unfoldable pub normalize_hostname : String → String
normalize_hostname hostname = to_lower (trim_dot hostname)

-- An SRV hint has the fields of an SRV record.
pub record SrvHints : Type 0 where
  pub priority : ℕ  -- uint16
  pub weight : ℕ  -- uint16
  pub port : ℕ  -- uint16

pub record RecordHints : Type 0 where
  pub type : String
  pub target : String
  pub ttl : ℕ
  pub provider : String
  pub srv : Option SrvHints
  pub metadata : Map String

pub record Hostname : Type 0 where
  pub name : String
  pub source : String
  pub router : String
  pub record_hints : Option RecordHints
  pub metadata : Map String

-- `NormalizedName`
abbrev pub normalized_name : Hostname → String
normalized_name h = normalize_hostname h.name

-- the loop of `Deduplicate`, with the names seen
deduplicate_from : List String → List Hostname → List Hostname
deduplicate_from seen [] = []
deduplicate_from seen (h ∷ hs) = elim (contains (normalized_name h) seen) [
  | true ↦ deduplicate_from seen hs
  | false ↦ h ∷ deduplicate_from (normalized_name h ∷ seen) hs
]

-- `Deduplicate`
unfoldable pub deduplicate : List Hostname → List Hostname
unfolding deduplicate_from
deduplicate hs = deduplicate_from [] hs
