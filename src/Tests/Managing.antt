-- ===== src/Tests/Managing.antt =====
-- Tests of the provider manager.
use dnsweaver.Base.{
  String, ◌≡◌, refl, true, false, none, some, List, [], ◌∷◌, arith, ◌||◌, eq_iff, subst, suc,
  length,
}
use dnsweaver.Base.Map.{lookup}
use dnsweaver.Matcher.{DomainMatcher, PatternType}
use dnsweaver.Provider.Failure.{Error, ErrorKind, ok}
use dnsweaver.Provider.Config.{ProviderInstanceConfig, validate}
use dnsweaver.Provider.Record.{Record}
use dnsweaver.Provider.Registry.{Factory, build_instance, get}
use dnsweaver.Provider.Manager.{
  Manager, PendingProvider, ProviderStatus, Attempt, default_manager_config, new_manager,
  initialize_provider, retry_pending_providers, total_count, all_provider_statuses,
}
use dnsweaver.Provider.Manager.Invariant.{IsWellFormed}
use dnsweaver.Provider.Manager.Steps.{configured, Reach, here, next, reach-IsWellFormed}
use dnsweaver.Provider.Manager.Retrying.{
  IsDisjoint, is_ready, is_pending, retry_pending_providers-keeps,
}
use dnsweaver.Provider.Manager.Recovery.{retry_pending_providers-recovers}
use dnsweaver.Provider.Manager.Adding.{initialize_provider-adds}
use dnsweaver.Provider.Manager.Reporting.{all_provider_statuses-total}
use package.dnsweaver.Tests.Backend.{registry, backend}
use package.dnsweaver.Tests.Registering.{family, regexp, config, registry-IsConsistent}

abbrev refused : Error
refused = record { kind = ErrorKind.provider_unavailable; message = "connection refused" }

-- the server does not answer, and answers
abbrev down : Attempt (List Record)
down = record { ping = λ _. some refused; failed_at = 7; retry_from = 8 }

abbrev up : Attempt (List Record)
up = record { ping = λ _. none; failed_at = 0; retry_from = 0 }

abbrev started : Manager (List Record)
started = new_manager registry default_manager_config

abbrev waiting : Manager (List Record)
waiting = (initialize_provider family regexp down config started).1

abbrev waiting-Reach : Reach family regexp started waiting
waiting-Reach = next here (configured down config)

started-IsWellFormed : IsWellFormed started
started-IsWellFormed =
    reach-IsWellFormed family regexp registry default_manager_config registry-IsConsistent here

started-IsDisjoint : IsDisjoint started
unfolding lookup
started-IsDisjoint name pending = absurd (ground arith)

initialize_provider-adds_example :
    ((initialize_provider family regexp down config started).0 ≡ none)
    × IsDisjoint waiting
    × (total_count waiting ≡ suc (total_count started))
    × ((is_ready "second" waiting || is_pending "second" waiting) ≡ true)
unfolding lookup validate dnsweaver.Provider.Config.fits_type
initialize_provider-adds_example =
    initialize_provider-adds down config started started-IsDisjoint refl refl family regexp
      started-IsWellFormed refl

-- a provider that failed once and is to be retried at 9
abbrev pending : PendingProvider
pending = record {
  config = config;
  last_error = some refused;
  last_attempt = 7;
  attempt_count = 1;
  next_retry_at = 9;
  retry_interval = 1;
}

abbrev held : Manager (List Record)
held = record started { pending = ("second", pending) ∷ [] }

held-IsWellFormed : IsWellFormed held
unfolding lookup
held-IsWellFormed = record {
  consistent = registry-IsConsistent;
  keys_differ = (refl, tt);
  entries =
      ((refl, record { has_error = refl; counted = omega arith; in_bounds = omega arith }), tt);
}

held-IsDisjoint : IsDisjoint held
unfolding lookup
held-IsDisjoint name there =
    subst (λ n. is_ready n held ≡ false) ((eq_iff "second" name).0 (ground (arith, there))) refl

retry_pending_providers-keeps_example :
    IsDisjoint (retry_pending_providers family regexp 9 (λ _. up) held)
    × (total_count (retry_pending_providers family regexp 9 (λ _. up) held) ≡ total_count held)
    × ((name : String)
        → (is_ready name (retry_pending_providers family regexp 9 (λ _. up) held)
            || is_pending name (retry_pending_providers family regexp 9 (λ _. up) held))
          ≡ (is_ready name held || is_pending name held))
retry_pending_providers-keeps_example =
    retry_pending_providers-keeps family regexp 9 (λ _. up) held held-IsWellFormed held-IsDisjoint

abbrev factory : Factory (List Record)
factory _ _ = ok (backend true)

abbrev matcher : DomainMatcher
matcher = record {
  includes = record { original = "*.example.com"; regex = λ _. true } ∷ [];
  excludes = [];
  pattern_type = PatternType.glob;
}

retry_pending_providers-recovers_example :
    (get "second" (retry_pending_providers family regexp 9 (λ _. up) held).registry
      ≡ some (build_instance config "one" (backend true) matcher))
    × (lookup "second" (retry_pending_providers family regexp 9 (λ _. up) held).pending ≡ none)
unfolding validate dnsweaver.Provider.Config.fits_type dnsweaver.Matcher.new_domain_matcher
    dnsweaver.Provider.Config.get_includes dnsweaver.Provider.Config.get_excludes lookup
retry_pending_providers-recovers_example =
    retry_pending_providers-recovers family regexp pending factory (backend true) matcher refl refl
      refl 9 (λ _. up) held held-IsWellFormed refl (omega arith) refl refl refl

all_provider_statuses-total_example :
    (statuses : List ProviderStatus) × (all_provider_statuses waiting ≡ some statuses)
    × (length statuses ≡ total_count waiting)
all_provider_statuses-total_example =
    all_provider_statuses-total family regexp registry default_manager_config registry-IsConsistent
      waiting-Reach
