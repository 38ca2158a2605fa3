-- ===== src/Source.antt =====
-- pkg/source and pkg/workload: what declares hostnames, the sources that read them, and the registry
-- of the sources.
pub mod Kept
pub mod Registry
use dnsweaver.Base.{String, Bool, List}
use dnsweaver.Base.Map.{Map}
use dnsweaver.Hostname.{Hostname}

-- `Workload`
pub record Workload : Type 0 where
  pub id : String
  pub name : String
  pub namespace : String
  pub labels : Map String
  pub annotations : Map String
  pub platform : String
  pub kind : String
  pub hostnames : List String
  pub metadata : Map String

-- the errors of pkg/source/errors.go
pub data SourceError : Type 0 where
  duplicate_source : String → SourceError
  source_not_found : String → SourceError
  extraction_error : String → String → SourceError

pub data Found : Type 0 where
  ok : List Hostname → Found
  err : SourceError → Found

-- `Source`: what it answers during a cycle
pub record Source : Type 0 where
  pub name : String
  pub extract : Workload → Found
  pub discover : Found
  pub supports_discovery : Bool
  pub supported_platforms : List String
