-- ===== src/Labels.antt =====
-- sources/dnsweaver: the source that reads the labels of this program.
pub mod Numbers
pub mod Keys
pub mod Named
pub mod Parser
pub mod Native
pub mod Fitting
use dnsweaver.Base.{ℕ, String, Option, ◌==◌, ◌||◌, not, Bool, ltb, is_some, length}
use dnsweaver.Base.Map.{Map}

-- `SRVData`
pub record SrvData : Type 0 where
  pub port : ℕ  -- uint16
  pub priority : ℕ  -- uint16
  pub weight : ℕ  -- uint16

-- `Extraction`; a nil map of metadata is the empty one
pub record Extraction : Type 0 where
  pub hostname : String
  pub record_name : String
  pub type : String
  pub target : String
  pub provider : String
  pub ttl : ℕ
  pub srv : Option SrvData
  pub metadata : Map String

-- `HasHints`
unfoldable pub has_hints : Extraction → Bool
has_hints e =
    not (e.type == "")
    || not (e.target == "")
    || not (e.provider == "")
    || ltb 0 e.ttl
    || is_some e.srv
    || ltb 0 (length e.metadata)
