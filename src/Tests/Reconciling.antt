-- ===== src/Tests/Reconciling.antt =====
-- Tests of the reconciliation and of what is done for one hostname.
use dnsweaver.Base.{
  String, ◌≡◌, ◌⊎◌, inl, arith, refl, true, false, Option, none, some, List, [], ◌∷◌, ◌++◌, All,
  inr, length, select,
}
use dnsweaver.Base.Map.{lookup}
use dnsweaver.Provider.Record.{Record, RecordType}
use dnsweaver.Provider.Failure.{ok}
use dnsweaver.Provider.Interface.Issues.{IsRead}
use dnsweaver.Provider.Interface.{System}
use dnsweaver.Provider.Instance.{ProviderInstance, name}
use dnsweaver.Reconciler.Env.{Env}
use dnsweaver.Reconciler.Ensure.{
  Wanted, act, action, analyze, settle, apply_hints, conflict_text, err_record_already_exists,
  is_exact,
}
use dnsweaver.Reconciler.Ensure.Kept.{IsUpkeep, exact_match_kept}
use dnsweaver.Reconciler.Ensure.Scoped.{IsScoped, act-IsScoped}
use dnsweaver.Reconciler.Ensure.Written.{IsWanted, success_means_written}
use dnsweaver.Reconciler.Cache.{new_record_cache, get_existing_records}
use dnsweaver.Reconciler.Cache.Lookup.{get_existing_records-listing}
use dnsweaver.Reconciler.Cycle.{Extracted, reconcile, extract_hostnames}
use dnsweaver.Reconciler.Cycle.Discovered.{extract_hostnames-first}
use dnsweaver.Reconciler.Route.{writers}
use dnsweaver.Reconciler.Route.Writers.{AreFirsts, HaveOwnStores, writers-AreFirsts}
use dnsweaver.Reconciler.Startup.{recover_each, Recovery}
use dnsweaver.Reconciler.Startup.Recovered.{AreCovered, recover_each-tracks}
use dnsweaver.Base.{length}
use dnsweaver.Reconciler.DryRun.{reconcile_dry_run}
use dnsweaver.Provider.Ownership.{ownership_record}
use package.dnsweaver.Tests.Backend.{instance_of, env_of, state, address, hostname}

abbrev workload : Extracted
workload = record {
  valid = hostname "App.example.com" ∷ hostname "app.example.com." ∷ [];
  invalid = 0;
}

abbrev files : Extracted
files = record { valid = hostname "app.example.com" ∷ hostname "b.example.com" ∷ []; invalid = 1 }

abbrev wanted : Wanted
wanted = record { type = RecordType.a; target = "10.0.0.1"; ttl = 300; srv = none; metadata = [] }

abbrev dry : Env (List Record)
dry = env_of true true

abbrev real : Env (List Record)
real = env_of false true

abbrev inst : ProviderInstance (List Record)
inst = instance_of true

abbrev start : System (List Record)
start = state (address "b.example.com" "10.0.0.1" ∷ []) ("old.example.com" ∷ [])

reconcile_dry_run_example :
    All IsRead (reconcile dry (ok (workload.valid ∷ [])) files.valid start).1.calls
reconcile_dry_run_example =
    reconcile_dry_run dry refl (inr refl) (ok (workload.valid ∷ [])) files.valid start tt

-- one of the records is the wanted one
abbrev HasWanted : List Record → Type 0
HasWanted [] = ⊥
HasWanted (r ∷ rs) = IsWanted "a.example.com" wanted r ⊎ HasWanted rs

HasWanted-last :
    (rs : List Record) (r : Record) → IsWanted "a.example.com" wanted r → HasWanted (rs ++ r ∷ [])
HasWanted-last [] r h = inl h
HasWanted-last (x ∷ rs) r h = inr (HasWanted-last rs r h)

HasWanted-append : (rs xs : List Record) → HasWanted rs → HasWanted (rs ++ xs)
HasWanted-append [] xs h = elim h [ ]
HasWanted-append (r ∷ rs) xs (inl h) = inl h
HasWanted-append (r ∷ rs) xs (inr h) = inr (HasWanted-append rs xs h)

-- the record is created, and the marker after it
success_means_written_example : HasWanted (act real none "a.example.com" inst wanted start).1.store
unfolding act dnsweaver.Provider.Interface.◌>>=◌ analyze
    dnsweaver.Reconciler.Ensure.existing_records settle dnsweaver.Reconciler.Ensure.change
    dnsweaver.Reconciler.Ensure.create_new dnsweaver.Provider.Instance.create_record_with_values
    dnsweaver.Provider.Interface.call_create dnsweaver.Reconciler.Ensure.own_and_return action
success_means_written_example =
    success_means_written real none "a.example.com" inst wanted HasWanted
      (λ r v h e. HasWanted-last v r h) (λ f x r v e. ground (arith, e))
      (λ v h. HasWanted-append v _ h) start refl refl

act-IsScoped_example :
    All
      (IsScoped "a.example.com" inst wanted)
      (act real none "a.example.com" inst wanted start).1.calls
act-IsScoped_example = act-IsScoped real none "a.example.com" inst wanted start refl

exact_match_kept_example :
    All
      (IsUpkeep real none "b.example.com" inst wanted)
      (settle real none "b.example.com" inst wanted
        (address "b.example.com" "10.0.0.1" ∷ [])
        start).1.calls
unfolding is_exact dnsweaver.Provider.Record.type_eq
exact_match_kept_example =
    exact_match_kept real none "b.example.com" inst wanted (address "b.example.com" "10.0.0.1" ∷ [])
      start refl tt

get_existing_records-listing_example :
    get_existing_records (new_record_cache (inst ∷ []) start).0 "dns" "B.example.com."
    ≡ some (address "b.example.com" "10.0.0.1" ∷ [])
unfolding dnsweaver.Provider.Interface.call_list new_record_cache
    dnsweaver.Hostname.normalize_hostname dnsweaver.Base.to_lower dnsweaver.Base.trim_dot
    dnsweaver.Base.lower_char dnsweaver.Provider.Record.is_data_type
get_existing_records-listing_example =
    get_existing_records-listing [] inst [] start tt "B.example.com."

extract_hostnames-first_example :
    lookup "app.example.com" (extract_hostnames (workload ∷ []) files).hostnames
    ≡ some (hostname "App.example.com")
unfolding dnsweaver.Hostname.normalize_hostname dnsweaver.Base.to_lower dnsweaver.Base.trim_dot
    dnsweaver.Base.lower_char
extract_hostnames-first_example = extract_hostnames-first "app.example.com" (workload ∷ []) files

writers-AreFirsts_example :
    AreFirsts [] (inst ∷ inst ∷ []) (writers (inst ∷ inst ∷ []))
    × HaveOwnStores (writers (inst ∷ inst ∷ []))
writers-AreFirsts_example = writers-AreFirsts (inst ∷ inst ∷ [])

abbrev nothing : Recovery
nothing = record { known = []; providers = []; metadata = [] }

abbrev marked : System (List Record)
marked = state (ownership_record "App.example.com" 300 "one" [] ∷ []) []

recover_each-tracks_example :
    AreCovered (recover_each (inst ∷ []) nothing marked).0.0 (inst ∷ []) nothing marked
recover_each-tracks_example = recover_each-tracks (inst ∷ []) nothing marked
