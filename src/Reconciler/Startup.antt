-- ===== src/Reconciler/Startup.antt =====
-- `RecoverOwnership` of internal/reconciler/reconciler.go: what the ownership markers at the providers
-- tell at startup. The names of the providers that failed stand for the error.
pub mod Recovered
use dnsweaver.Base.{
  String, Bool, true, false, not, ◌||◌, Option, none, some, List, [], ◌∷◌, if◌then◌else◌, contains,
}
use dnsweaver.Base.Map.{Map, lookup, insert}
use dnsweaver.Hostname.{normalize_hostname}
use dnsweaver.Provider.Failure.{Result, ok, err}
use dnsweaver.Provider.Interface.{M, pure, ◌>>=◌, ◌>>◌}
use dnsweaver.Provider.Instance.{ProviderInstance, RecoveredHostname, name, recover_owned_hostnames}
use dnsweaver.Provider.Registry.{all}
use dnsweaver.Reconciler.Env.{Env, append_unique}

-- what is put together while the providers are asked
pub record Recovery : Type 0 where
  pub known : List String
  pub providers : Map (List String)
  pub metadata : Map (Map String)

-- the providers of a hostname, Go's nil slice if it has none yet
abbrev pub providers_of : String → Map (List String) → List String
providers_of h m = elim (lookup h m) [ none ↦ [] | some ps ↦ ps ]

-- m[k] = struct{}{}, on a set
abbrev pub add_known : String → List String → List String
add_known h known = append_unique known h

abbrev pub add_metadata : String → Map String → Map (Map String) → Map (Map String)
add_metadata h [] m = m
add_metadata h (x ∷ xs) m = insert h (x ∷ xs) m

-- one recovered hostname of a provider
unfoldable pub note_recovered : String → Recovery → RecoveredHostname → Recovery
note_recovered provider r rh =
    let h = normalize_hostname rh.hostname in
    record {
      known = add_known h r.known;
      providers = insert h (append_unique (providers_of h r.providers) provider) r.providers;
      metadata = add_metadata h rh.metadata r.metadata;
    }

unfoldable pub note_all : String → Recovery → List RecoveredHostname → Recovery
unfolding note_recovered
note_all provider r [] = r
note_all provider r (rh ∷ rhs) = note_all provider (note_recovered provider r rh) rhs

module _ {W : Type 0} where
  -- what a provider's answer adds, and whether it failed
  unfoldable pub note_answer :
      ProviderInstance W → Result (List RecoveredHostname) → Recovery → Recovery
  note_answer inst (err e) r = r
  note_answer inst (ok rhs) r = note_all (name inst) r rhs

  abbrev pub add_failed :
      ProviderInstance W → Result (List RecoveredHostname) → List String → List String
  add_failed inst (err e) failed = name inst ∷ failed
  add_failed inst (ok rhs) failed = failed

  -- the loop over the providers; the last component holds those that failed
  unfoldable pub recover_each : List (ProviderInstance W) → Recovery → M W (Recovery × List String)
  unfolding note_answer
  recover_each [] r = pure (r, [])
  recover_each (inst ∷ insts) r = do
    answer ← recover_owned_hostnames inst
    rest ← recover_each insts (note_answer inst answer r)
    pure (rest.0, add_failed inst answer rest.1)

  unfoldable pub started : M W Recovery
  started s =
      (record { known = s.known_hostnames; providers = s.hostname_providers; metadata = [] }, s)

  unfoldable pub store : Recovery → M W Unit
  store r s = (
    tt,
    record s {
      known_hostnames = r.known;
      hostname_providers = r.providers;
      recovered_metadata = some r.metadata;
    },
  )

  -- `RecoverOwnership`
  unfoldable pub recover_ownership : Env W → M W (List String)
  recover_ownership env =
      if not env.config.cleanup_orphans || not env.config.ownership_tracking then pure [] else (do
        r ← started
        recovered ← recover_each (all env.providers) r
        store recovered.0
        pure recovered.1)
