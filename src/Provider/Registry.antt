-- ===== src/Provider/Registry.antt =====
-- pkg/provider/registry.go. A factory gets the name of the instance and its provider-specific
-- settings; the HTTP and TLS settings that the registry lifts out of these are not modelled. An
-- instance is held under a number, its address: `Remove` looks for the pointer that the name leads
-- to.
pub mod Bookkeeping
pub mod Creation
pub mod Undoing
use Prim.Native.String.{◌++◌ as append}
use dnsweaver.Base.{
  ℕ, suc, String, Bool, true, false, Option, none, some, List, [], ◌∷◌, ◌++◌, if◌then◌else◌, nat_eq,
  is_some, map, select,
}
use dnsweaver.Base.Map.{Map, lookup, insert, delete}
use dnsweaver.Matcher.{DomainMatcher, DomainMatcherConfig, matches, new_domain_matcher}
use dnsweaver.Provider.Failure.{Error, unclassified, Result, ok, err}
use dnsweaver.Provider.Mode.{OperationalMode, unset, managed}
use dnsweaver.Provider.Interface.{Provider, identity_of}
use dnsweaver.Provider.Instance.{ProviderInstance, matches_with_metadata}
use dnsweaver.Provider.Config.{
  Family, ProviderInstanceConfig, validate, use_regex, get_includes, get_excludes,
}

abbrev pub Factory : Type 0 → Type 0
Factory W = String → Map String → Result (Provider W)

pub record Slot (W : Type 0) : Type 0 where
  pub address : ℕ
  pub value : ProviderInstance W

pub record Registry (W : Type 0) : Type 0 where
  pub factories : Map (Factory W)
  pub instances : List (Slot W)
  pub by_name : Map (Slot W)
  pub instance_id : String
  pub next_address : ℕ

abbrev or_managed : OperationalMode → OperationalMode
or_managed unset = managed
or_managed mode = mode

pub failure : String → Error
failure message = record { kind = unclassified; message = message }

pub wrapped : String → Error → Error
wrapped prefix e = record { kind = e.kind; message = append prefix e.message }

-- the configuration of the matcher of an instance
abbrev pub matcher_config : ProviderInstanceConfig → DomainMatcherConfig
matcher_config cfg = record {
  includes = get_includes cfg;
  excludes = get_excludes cfg;
  use_regex = use_regex cfg;
}

module _ {W : Type 0} where
  pub new_registry : Registry W
  new_registry = record {
    factories = [];
    instances = [];
    by_name = [];
    instance_id = "";
    next_address = 0;
  }

  -- `RegisterFactory`
  pub register_factory : String → Factory W → Registry W → Registry W
  register_factory type_name factory r = record r {
    factories = insert type_name factory r.factories;
  }

  -- the instance that `CreateInstance` builds
  unfoldable pub build_instance :
      ProviderInstanceConfig → String → Provider W → DomainMatcher → ProviderInstance W
  build_instance cfg instance_id provider matcher = record {
    provider = provider;
    matcher = matcher;
    record_type = cfg.record_type;
    target = cfg.target;
    dynamic_target = none;
    ttl = cfg.ttl;
    mode = or_managed cfg.mode;
    instance_id = instance_id;
    metadata_filters = cfg.metadata_filters;
    identity = identity_of provider;
  }

  -- the two updates at the end of `CreateInstance`
  pub add_instance : String → ProviderInstance W → Registry W → Registry W
  add_instance name pi r =
      let slot : Slot W = record { address = r.next_address; value = pi } in
      record r {
        instances = r.instances ++ slot ∷ [];
        by_name = insert name slot r.by_name;
        next_address = suc r.next_address;
      }

  -- `Get`
  unfoldable pub get : String → Registry W → Option (ProviderInstance W)
  get name r = elim (lookup name r.by_name) [ none ↦ none | some slot ↦ some slot.value ]

  -- `All`
  unfoldable pub all : Registry W → List (ProviderInstance W)
  all r = map (λ slot. slot.value) r.instances

  -- `MatchingProviders`
  unfoldable pub matching_providers : String → Registry W → List (ProviderInstance W)
  unfolding all
  matching_providers hostname r = select (λ pi. matches pi.matcher hostname) (all r)

  -- `MatchingProvidersForHostname`
  unfoldable pub matching_providers_for_hostname :
      String → Map String → Registry W → List (ProviderInstance W)
  unfolding all
  matching_providers_for_hostname hostname metadata r =
      select (λ pi. matches_with_metadata pi hostname metadata) (all r)

  -- `FirstMatchingProvider`
  first_matching : String → List (ProviderInstance W) → Option (ProviderInstance W)
  first_matching hostname [] = none
  first_matching hostname (pi ∷ pis) =
      if matches pi.matcher hostname then some pi else first_matching hostname pis

  pub first_matching_provider : String → Registry W → Option (ProviderInstance W)
  unfolding first_matching all
  first_matching_provider hostname r = first_matching hostname (all r)

  -- the loop of `Remove` over the slice: the first instance at the address goes
  pub remove_address : ℕ → List (Slot W) → List (Slot W)
  remove_address address [] = []
  remove_address address (slot ∷ slots) =
      if nat_eq slot.address address then slots else slot ∷ remove_address address slots

  -- `Remove`
  pub remove : String → Registry W → Bool × Registry W
  unfolding remove_address
  remove name r = elim (lookup name r.by_name) [
    | none ↦ (false, r)
    | some slot ↦ (
      true,
      record r {
        instances = remove_address slot.address r.instances;
        by_name = delete name r.by_name;
      },
    )
  ]

module _ {W : Type 0} (ip_family : String → Option Family)
    (compile_regexp : String → Option (String → Bool)) where
  -- with the answer of the matcher's constructor
  pub finish :
      ProviderInstanceConfig
      → Provider W
      → Option DomainMatcher
      → Registry W
      → Option Error × Registry W
  unfolding failure add_instance
  finish cfg provider none r = (some (failure (append "creating domain matcher for " cfg.name)), r)
  finish cfg provider (some matcher) r =
      (none, add_instance cfg.name (build_instance cfg r.instance_id provider matcher) r)

  -- with the answer of the factory
  pub construct :
      ProviderInstanceConfig → Result (Provider W) → Registry W → Option Error × Registry W
  unfolding wrapped finish
  construct cfg (err e) r =
      (some (wrapped (append "creating provider " (append cfg.name ": ")) e), r)
  construct cfg (ok provider) r =
      finish cfg provider (new_domain_matcher compile_regexp (matcher_config cfg)) r

  -- with the factory of the type
  pub make : ProviderInstanceConfig → Option (Factory W) → Registry W → Option Error × Registry W
  unfolding failure construct
  make cfg none r = (some (failure (append "unknown provider type: " cfg.type_name)), r)
  make cfg (some factory) r = construct cfg (factory cfg.name cfg.provider_config) r

  -- `CreateInstance`
  pub create_instance : ProviderInstanceConfig → Registry W → Option Error × Registry W
  unfolding make failure wrapped
  create_instance cfg r = elim (validate ip_family cfg) [
    | some e ↦ (some (wrapped "invalid configuration: " e), r)
    | none ↦
        if is_some (lookup cfg.name r.by_name)
        then (some (failure "provider instance already exists"), r)
        else make cfg (lookup cfg.type_name r.factories) r
  ]
