-- ===== src/Tests/Cleaning.antt =====
-- Tests of the orphan cleanup.
use dnsweaver.Base.{
  String, ◌≡◌, refl, true, false, Option, none, some, List, [], ◌∷◌, All, inl, inr, arith,
}
use dnsweaver.Provider.Record.{Record}
use dnsweaver.Provider.Interface.{System}
use dnsweaver.Provider.Instance.{ProviderInstance}
use dnsweaver.Reconciler.Cache.{RecordCache, new_record_cache}
use dnsweaver.Reconciler.Env.{Env}
use dnsweaver.Reconciler.Orphan.{cleanup_orphans, delete_orphan}
use dnsweaver.Reconciler.Orphan.Scope.{IsCleanup, cleanup_orphans-IsCleanup}
use dnsweaver.Reconciler.Orphan.Modes.{IsOwnTarget, target_match_scope}
use dnsweaver.Reconciler.Orphan.Calls.{IsOrphan}
use dnsweaver.Reconciler.Orphan.Limited.{IsLimited, cleanup_orphans-IsLimited}
use dnsweaver.Reconciler.Orphan.Owned.{IsPermitted, cleanup_orphans-IsPermitted}
use dnsweaver.Reconciler.Orphan.Deleting.{deletion_calls, owned_deleted, untracked_dry_run_deletes}
use dnsweaver.Provider.Mode.{authoritative, managed, requires_ownership}
use dnsweaver.Reconciler.Cache
use dnsweaver.Reconciler.Orphan.Authoritative.{IsInScope, authoritative_scope}
use dnsweaver.Provider.Interface.{Call}
use dnsweaver.Provider.Ownership.{ownership_record}
use package.dnsweaver.Tests.Backend.{instance_of, env_of, state, address}

abbrev real : Env (List Record)
real = env_of false true

abbrev inst : ProviderInstance (List Record)
inst = instance_of true

abbrev by_hand : Record
by_hand = address "old.example.com" "10.0.0.1"

abbrev start : System (List Record)
start = state (by_hand ∷ []) ("old.example.com" ∷ "a.example.com" ∷ [])

abbrev cache : RecordCache
cache = (new_record_cache (inst ∷ []) start).0

cleanup_orphans-IsCleanup_example :
    All
      (IsCleanup ("a.example.com" ∷ []) ("old.example.com" ∷ "a.example.com" ∷ []))
      (cleanup_orphans real none ("a.example.com" ∷ []) start).1.calls
cleanup_orphans-IsCleanup_example =
    cleanup_orphans-IsCleanup real none ("a.example.com" ∷ []) start refl

cleanup_orphans-IsPermitted_example :
    All
      (IsPermitted real cache
        (IsOrphan ("a.example.com" ∷ []) ("old.example.com" ∷ "a.example.com" ∷ [])))
      (cleanup_orphans real (some cache) ("a.example.com" ∷ []) start).1.calls
cleanup_orphans-IsPermitted_example =
    cleanup_orphans-IsPermitted real cache ("a.example.com" ∷ []) start refl

cleanup_orphans-IsLimited_example :
    IsLimited 2 (cleanup_orphans real none ("a.example.com" ∷ []) start).1.calls
cleanup_orphans-IsLimited_example =
    cleanup_orphans-IsLimited real none ("a.example.com" ∷ []) start refl

target_match_scope_example :
    All
      (IsOwnTarget "old.example.com" (instance_of false))
      (delete_orphan real none "old.example.com" (instance_of false) start).1.calls
unfolding dnsweaver.Provider.Mode.requires_ownership
target_match_scope_example =
    target_match_scope real "old.example.com" (instance_of false) refl refl none start refl tt

-- the record with its marker
abbrev marked : System (List Record)
marked =
    state (by_hand ∷ ownership_record "old.example.com" 300 "one" [] ∷ []) ("old.example.com" ∷ [])

abbrev marked_cache : RecordCache
marked_cache = (new_record_cache (inst ∷ []) marked).0

marked_records :
    Cache.get_all_records_for_hostname marked_cache "dns" "old.example.com" ≡ some (by_hand ∷ [])
unfolding Cache.get_all_records_for_hostname dnsweaver.Provider.Record.is_data_type
    dnsweaver.Reconciler.Cache.cached_records dnsweaver.Base.Map.lookup new_record_cache
    dnsweaver.Provider.Interface.◌>>=◌ dnsweaver.Base.Map.insert dnsweaver.Reconciler.Cache.indexed
    dnsweaver.Provider.Interface.call_list dnsweaver.Hostname.normalize_hostname
    dnsweaver.Base.to_lower dnsweaver.Base.trim_dot dnsweaver.Base.lower_char ownership_record
    dnsweaver.Provider.Ownership.ownership_record_name
marked_records = refl

marked_owned : Cache.has_ownership_record marked_cache "dns" "old.example.com" "one" ≡ true
unfolding Cache.has_ownership_record dnsweaver.Provider.Ownership.make_ownership_value
    dnsweaver.Provider.Ownership.matches_ownership
    dnsweaver.Provider.Ownership.parse_ownership_value
    dnsweaver.Provider.Ownership.Parts.strip_prefix dnsweaver.Provider.Ownership.Parts.split
    dnsweaver.Provider.Ownership.Parts.split_pair dnsweaver.Provider.Record.type_eq
    dnsweaver.Reconciler.Cache.cached_records dnsweaver.Base.Map.lookup new_record_cache
    dnsweaver.Provider.Interface.◌>>=◌ dnsweaver.Base.Map.insert dnsweaver.Reconciler.Cache.indexed
    dnsweaver.Provider.Interface.call_list dnsweaver.Hostname.normalize_hostname
    dnsweaver.Base.to_lower dnsweaver.Base.trim_dot dnsweaver.Base.lower_char ownership_record
    dnsweaver.Provider.Ownership.ownership_record_name
marked_owned = refl

is_managed : requires_ownership managed ≡ true
unfolding requires_ownership
is_managed = refl

owned_deleted_example :
    (delete_orphan real (some marked_cache) "old.example.com" inst marked).1.calls
    ≡ Call.delete "dns" (ownership_record "old.example.com" 300 "one" [])
      ∷ deletion_calls "old.example.com" inst (by_hand ∷ []) []
owned_deleted_example =
    owned_deleted real marked_cache "old.example.com" inst by_hand [] marked_records marked
      is_managed refl refl refl marked_owned

-- the delete is made in a dry run
untracked_dry_run_deletes_example :
    (delete_orphan (env_of true false) (some marked_cache) "old.example.com" inst marked).1.calls
    ≡ deletion_calls "old.example.com" inst (by_hand ∷ []) []
untracked_dry_run_deletes_example =
    untracked_dry_run_deletes (env_of true false) marked_cache "old.example.com" inst by_hand []
      marked_records marked is_managed refl refl

abbrev owner : ProviderInstance (List Record)
owner = record inst { mode = authoritative }

authoritative_scope_example :
    All
      (IsInScope "old.example.com" owner)
      (delete_orphan real none "old.example.com" owner start).1.calls
authoritative_scope_example = authoritative_scope real "old.example.com" owner none start refl tt
