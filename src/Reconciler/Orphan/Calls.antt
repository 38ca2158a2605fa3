-- ===== src/Reconciler/Orphan/Calls.antt =====
-- The calls that orphan cleanup makes: it lists records, and deletes those of the orphan and its
-- ownership marker. What a dry run leaves out is the premise of the section.
use dnsweaver.Base.{
  String, ◌≡◌, refl, Bool, true, false, not, ◌||◌, ◌==◌, eq_refl, ◌⊎◌, inl, inr, Option, none, some,
  List, [], ◌∷◌, arith, length, All, contains,
}
use dnsweaver.Provider.Record.{Record, RecordType, type_eq}
use dnsweaver.Provider.Failure.{Error}
use dnsweaver.Provider.Failure
use dnsweaver.Provider.Mode.{allows_delete, requires_ownership}
use dnsweaver.Provider.Ownership.{ownership_record_name, ownership_record}
use dnsweaver.Provider.Interface.{Call, System, M, pure, ◌>>=◌}
use dnsweaver.Provider.Interface.Issues.{
  Issues, Issues-pure, Issues-gets, Issues-if, Issues-bind, Issues-call_list, Issues-call_delete,
}
use dnsweaver.Provider.Instance
use dnsweaver.Provider.Instance.{ProviderInstance, name}
use dnsweaver.Reconciler.Result.{Action}
use dnsweaver.Reconciler.Cache
use dnsweaver.Reconciler.Cache.{RecordCache}
use dnsweaver.Reconciler.Env.{Env}
use dnsweaver.Reconciler.Orphan.{
  delete_one, delete_now, delete_target_now, delete_each, unless_dry_run, records_of, delete_marker,
  authoritative_outcome, delete_authoritative, managed_outcome, delete_if_owned, check_ownership,
  delete_managed, delete_matched, target_match_outcome, delete_target_match, delete_cache_only_one,
  cache_only_outcome, delete_cache_only, delete_orphan, delete_orphan_all, cleanup_each,
  cleanup_orphans, orphans, breaker_trips,
}

-- The record is of this hostname, or its ownership marker.
abbrev pub Touches : String → Record → Type 0
Touches h r = (r.hostname ≡ h) ⊎ (r.hostname ≡ ownership_record_name h)

-- The deletes of a run are made: it is no dry run, or ownership is not tracked.
abbrev pub Deletes : {W : Type 0} → Env W → Type 0
Deletes env = (env.dry_run ≡ false) ⊎ (env.config.ownership_tracking ≡ false)

module _ {W : Type 0} (Q : Call → Type 0) (q_list : (n : String) → Q (Call.list n))
    (hostname : String) (inst : ProviderInstance W) where
  query-Issues : (keep : Record → Bool) → Issues Q (records_of inst hostname none keep)
  unfolding records_of
  query-Issues keep =
      Issues-bind Q _ _ (Issues-call_list Q inst.provider (q_list (name inst)))
        (λ l. Issues-pure Q _)

  -- Reading the records of a hostname lists at most.
  pub records_of-Issues :
      (c : Option RecordCache) (keep : Record → Bool) → Issues Q (records_of inst hostname c keep)
  unfolding records_of
  records_of-Issues none keep = query-Issues keep
  records_of-Issues (some c) keep = go (Cache.get_all_records_for_hostname c (name inst) hostname)
    where
      go :
          (o : Option (List Record))
          → Issues Q (elim o [
            | some (r ∷ rs) ↦ pure (Failure.ok (r ∷ rs))
            | some [] ↦ records_of inst hostname none keep
            | none ↦ records_of inst hostname none keep
          ])
      go none = query-Issues keep
      go (some []) = query-Issues keep
      go (some (r ∷ rs)) = Issues-pure Q _

module _ {W : Type 0} (env : Env W) (cache : Option RecordCache) (Q : Call → Type 0)
    (q_list : (n : String) → Q (Call.list n)) where
  module _ (hostname : String) (inst : ProviderInstance W)
      (q_delete : Deletes env
        → (r : Record) → Touches hostname r
        → Q (Call.delete (name inst) r)) where
    delete_one-Issues : Deletes env → (r : Record) → Issues Q (delete_one inst hostname r)
    unfolding delete_one Instance.delete_srv_record Instance.delete_record_by_target
    delete_one-Issues d r =
        Issues-if Q (type_eq r.type RecordType.srv) _ _
          (λ _. Issues-call_delete Q inst.provider _ (q_delete d _ (inl refl)))
          (λ _. Issues-call_delete Q inst.provider _ (q_delete d _ (inl refl)))

    delete_now-Issues : Deletes env → (r : Record) → Issues Q (delete_now inst hostname r)
    unfolding delete_now
    delete_now-Issues d r = Issues-bind Q _ _ (delete_one-Issues d r) (λ o. Issues-pure Q _)

    delete_target_now-Issues :
        Deletes env → (r : Record) → Issues Q (delete_target_now inst hostname r)
    unfolding delete_target_now Instance.delete_record_by_target
    delete_target_now-Issues d r =
        Issues-bind Q _ _ (Issues-call_delete Q inst.provider _ (q_delete d _ (inl refl)))
          (λ o. Issues-pure Q _)

    unless_dry_run-Issues :
        (delete : Record → M W Action)
        → (Deletes env → (r : Record) → Issues Q (delete r))
        → (r : Record) → Issues Q (unless_dry_run inst hostname env.dry_run delete r)
    unfolding unless_dry_run
    unless_dry_run-Issues delete h r =
        Issues-if Q env.dry_run _ _ (λ _. Issues-pure Q _) (λ real. h (inl real) r)

    delete_each-Issues :
        (delete : Record → M W Action) (rs : List Record)
        → ((r : Record) → Issues Q (delete r))
        → Issues Q (delete_each inst hostname delete rs)
    unfolding delete_each
    delete_each-Issues delete [] h = Issues-pure Q []
    delete_each-Issues delete (r ∷ rs) h =
        Issues-bind Q _ _ (h r)
          (λ a. Issues-bind Q _ _ (delete_each-Issues delete rs h) (λ xs. Issues-pure Q _))

    delete_marker-Issues : Issues Q (delete_marker env cache hostname inst)
    unfolding delete_marker Instance.delete_ownership_record ownership_record
    delete_marker-Issues =
        Issues-if Q env.dry_run _ _ (λ _. Issues-pure Q tt)
          (λ real.
            Issues-bind Q _ _
              (Issues-call_delete Q inst.provider _ (q_delete (inl real) _ (inr refl)))
              (λ o. Issues-pure Q tt))

    authoritative_outcome-Issues :
        (r : Failure.Result (List Record))
        → Issues Q (authoritative_outcome env cache hostname inst r)
    unfolding authoritative_outcome
    authoritative_outcome-Issues (Failure.err e) = Issues-pure Q _
    authoritative_outcome-Issues (Failure.ok rs) =
        Issues-bind Q _ _ (delete_each-Issues _ _ (unless_dry_run-Issues _ delete_now-Issues))
          (λ xs.
            Issues-bind Q _ _
              (Issues-if Q env.config.ownership_tracking _ _ (λ _. delete_marker-Issues)
                (λ _. Issues-pure Q tt))
              (λ _. Issues-pure Q xs))

    managed_outcome-Issues :
        (r : Failure.Result (List Record)) → Issues Q (managed_outcome env cache hostname inst r)
    unfolding managed_outcome
    managed_outcome-Issues (Failure.err e) = Issues-pure Q _
    managed_outcome-Issues (Failure.ok rs) =
        Issues-bind Q _ _ (delete_each-Issues _ rs (unless_dry_run-Issues _ delete_now-Issues))
          (λ xs. Issues-bind Q _ _ delete_marker-Issues (λ _. Issues-pure Q xs))

    delete_if_owned-Issues :
        (r : Failure.Result Bool) → Issues Q (delete_if_owned env cache hostname inst r)
    unfolding delete_if_owned
    delete_if_owned-Issues (Failure.err e) = Issues-pure Q _
    delete_if_owned-Issues (Failure.ok false) = Issues-pure Q _
    delete_if_owned-Issues (Failure.ok true) =
        Issues-bind Q _ _ (records_of-Issues Q q_list hostname inst cache _) managed_outcome-Issues

    check_ownership-Issues :
        (c : Option RecordCache) → Issues Q (check_ownership env c hostname inst)
    unfolding check_ownership Instance.has_ownership_record
    check_ownership-Issues none =
        Issues-bind Q _ _ (Issues-call_list Q inst.provider (q_list (name inst)))
          (λ l. Issues-pure Q _)
    check_ownership-Issues (some c) = Issues-pure Q _

    delete_matched-Issues :
        (rs : List Record) → Issues Q (delete_matched env cache hostname inst rs)
    unfolding delete_matched
    delete_matched-Issues [] = Issues-pure Q _
    delete_matched-Issues (r ∷ rs) =
        delete_each-Issues _ (r ∷ rs) (unless_dry_run-Issues _ delete_target_now-Issues)

    target_match_outcome-Issues :
        (r : Failure.Result (List Record))
        → Issues Q (target_match_outcome env cache hostname inst r)
    unfolding target_match_outcome
    target_match_outcome-Issues (Failure.err e) = Issues-pure Q _
    target_match_outcome-Issues (Failure.ok rs) = delete_matched-Issues _

    cache_only_outcome-Issues :
        env.config.ownership_tracking ≡ false
        → (r : Failure.Result (List Record))
        → Issues Q (cache_only_outcome env cache hostname inst r)
    unfolding cache_only_outcome delete_cache_only_one
    cache_only_outcome-Issues off (Failure.err e) = Issues-pure Q _
    cache_only_outcome-Issues off (Failure.ok rs) =
        delete_each-Issues _ rs
          (λ r. Issues-bind Q _ _ (delete_one-Issues (inr off) r) (λ o. Issues-pure Q _))

    pub delete_orphan-Issues : Issues Q (delete_orphan env cache hostname inst)
    unfolding delete_orphan delete_authoritative delete_cache_only delete_managed
        delete_target_match
    delete_orphan-Issues =
        Issues-if Q (not (allows_delete inst.mode)) _ _ (λ _. Issues-pure Q _)
          (λ _.
            Issues-if Q (not (requires_ownership inst.mode)) _ _
              (λ _.
                Issues-bind Q _ _ (records_of-Issues Q q_list hostname inst cache _)
                  authoritative_outcome-Issues)
              (λ _.
                Issues-if Q (not env.config.ownership_tracking) _ _
                  (λ off.
                    Issues-bind Q _ _ (records_of-Issues Q q_list hostname inst cache _)
                      (cache_only_outcome-Issues (untracked off)))
                  (λ _.
                    Issues-if Q inst.provider.capabilities.supports_ownership_txt _ _
                      (λ _. Issues-bind Q _ _ (check_ownership-Issues cache) delete_if_owned-Issues)
                      (λ _.
                        Issues-bind Q _ _ (records_of-Issues Q q_list hostname inst cache _)
                          target_match_outcome-Issues))))
      where
        untracked : not env.config.ownership_tracking ≡ true → env.config.ownership_tracking ≡ false
        untracked off = ground arith

  module _ (P : String → Type 0)
      (q_delete : Deletes env
        → (h : String) → P h
        → (n : String) (r : Record) → Touches h r
        → Q (Call.delete n r)) where
    delete_orphan_all-Issues :
        (h : String) (insts : List (ProviderInstance W))
        → P h
        → Issues Q (delete_orphan_all env cache h insts)
    unfolding delete_orphan_all
    delete_orphan_all-Issues h [] p = Issues-pure Q []
    delete_orphan_all-Issues h (inst ∷ insts) p =
        Issues-bind Q _ _ (delete_orphan-Issues h inst (λ d. q_delete d h p (name inst)))
          (λ a. Issues-bind Q _ _ (delete_orphan_all-Issues h insts p) (λ xs. Issues-pure Q _))

    pub cleanup_each-Issues : (hs : List String) → All P hs → Issues Q (cleanup_each env cache hs)
    unfolding cleanup_each
    cleanup_each-Issues [] ps = Issues-pure Q []
    cleanup_each-Issues (h ∷ hs) (p, ps) = Issues-bind Q _ _ (Issues-gets Q _) (λ insts.
        Issues-bind Q _ _ (delete_orphan_all-Issues h insts p)
          (λ a. Issues-bind Q _ _ (cleanup_each-Issues hs ps) (λ xs. Issues-pure Q _)))

-- A hostname that is known and is not among the current ones.
abbrev pub IsOrphan : List String → List String → String → Type 0
IsOrphan current known h = (contains h known ≡ true) × (contains h current ≡ false)

or-true : (b : Bool) → (b || true) ≡ true
or-true b = ground arith

pub orphans-IsOrphan :
    (current known hs : List String)
    → ((h : String) → contains h hs ≡ true → contains h known ≡ true)
    → All (IsOrphan current known) (orphans current hs)
unfolding orphans
orphans-IsOrphan current known [] sub = tt
orphans-IsOrphan current known (x ∷ hs) sub = ground (
  arith,
  sub x (rw (eq_refl x)),
  orphans-IsOrphan current known hs (λ h e. sub h (rw e (or-true (x == h)))),
)

module _ {W : Type 0} (env : Env W) (cache : Option RecordCache) (current : List String)
    (s : System W) (Q : Call → Type 0) (q_list : (n : String) → Q (Call.list n))
    (q_delete : Deletes env
      → (h : String) → IsOrphan current s.known_hostnames h
      → (n : String) (r : Record) → Touches h r
      → Q (Call.delete n r)) where
  -- Orphan cleanup makes only the calls that the premises allow.
  pub cleanup_orphans-calls : All Q s.calls → All Q (cleanup_orphans env cache current s).1.calls
  unfolding cleanup_orphans ◌>>=◌
  cleanup_orphans-calls h =
      let known = s.known_hostnames in
      (Issues-if Q (breaker_trips (length (orphans current known)) (length known)) _ _
          (λ _. Issues-pure Q [])
          (λ _.
            cleanup_each-Issues env cache Q q_list (IsOrphan current known) q_delete
              (orphans current known) (orphans-IsOrphan current known known (λ h e. e)))).at
        s h
