-- ===== src/Reconciler/Ensure/Scoped.antt =====
-- What `ensureRecordForProvider` may do to the records at a provider.
use dnsweaver.Base.{
  String, ◌≡◌, subst, ◌⊎◌, inl, inr, refl, sym, true, Option, none, some, List, [], ◌∷◌, All,
  All-select_test, any, select, arith,
}
use dnsweaver.Provider.Record.{Record, RecordType, type_eq, type_eq_iff}
use dnsweaver.Provider.Failure.{Error, ok, err, is_conflict, is_type_conflict, is_not_found}
use dnsweaver.Provider.Ownership.{ownership_record}
use dnsweaver.Provider.Interface.{Call, System, M, pure, ◌>>=◌}
use dnsweaver.Provider.Interface.Issues.{
  Issues, Issues-pure, Issues-if, Issues-bind, Issues-call_list, Issues-call_create,
  Issues-call_delete, Issues-call_update,
}
use dnsweaver.Provider.Instance
use dnsweaver.Provider.Instance.{ProviderInstance, name}
use dnsweaver.Reconciler.Result.{Action}
use dnsweaver.Reconciler.Cache
use dnsweaver.Reconciler.Cache.{RecordCache}
use dnsweaver.Reconciler.Env.{Env}
use dnsweaver.Reconciler.Ensure.Marking.{own_and_return-Issues, keep_exact-Issues}
use dnsweaver.Reconciler.Ensure.Written.{IsWanted}
use dnsweaver.Reconciler.Ensure.{
  Wanted, own_and_return, act, analyze, settle, delete_stale, is_exact, is_stale, change,
  create_new, create_outcome, update_first, update_outcome, existing_records, unless_conflict,
}

module _ {W : Type 0} (h : String) (inst : ProviderInstance W) (w : Wanted) where
  -- At this instance's provider: a listing, the create of the wanted record or of the hostname's
  -- marker, the delete of a record of the wanted type, or the update of one to the wanted record.
  abbrev pub IsScoped : Call → Type 0
  IsScoped (Call.list n) = n ≡ name inst
  IsScoped (Call.create n r) =
      (n ≡ name inst)
      × (IsWanted h w r ⊎ (r ≡ ownership_record h inst.ttl inst.instance_id w.metadata))
  IsScoped (Call.delete n r) = (n ≡ name inst) × (r.type ≡ w.type)
  IsScoped (Call.update n x y) = (n ≡ name inst) × (x.type ≡ w.type) × IsWanted h w y

  -- the records of the wanted type
  abbrev IsSameType : Record → Type 0
  IsSameType r = type_eq r.type w.type ≡ true

  stale_type : (r : Record) → is_stale w r ≡ true → w.type ≡ RecordType.srv
  unfolding is_stale
  stale_type r e = (type_eq_iff w.type RecordType.srv).0 (ground (arith, e))

module _ {W : Type 0} (env : Env W) (cache : Option RecordCache) (h : String)
    (inst : ProviderInstance W) (w : Wanted) where
  abbrev Q : Call → Type 0
  Q = IsScoped h inst w

  own-Issues : (a : Action) → Issues Q (own_and_return env cache h inst w a)
  own-Issues = own_and_return-Issues env cache h inst w Q (refl, inr refl)

  listing : M W (List Record)
  listing = do
    listed ← Instance.get_existing_records inst h
    pure (elim listed [ err e ↦ [] | ok records ↦ records ])

  listing-Issues : Issues Q listing
  unfolding listing Instance.get_existing_records
  listing-Issues =
      Issues-bind Q _ _
        (Issues-bind Q _ _ (Issues-call_list Q inst.provider refl) (λ l. Issues-pure Q _))
        (λ l. Issues-pure Q _)

  existing_records-Issues : (c : Option RecordCache) → Issues Q (existing_records env c h inst)
  unfolding existing_records listing
  existing_records-Issues none = Issues-pure Q []
  existing_records-Issues (some c) = by_records (Cache.get_existing_records c (name inst) h)
    where
      by_records :
          (o : Option (List Record))
          → Issues Q (elim o [ some records ↦ pure records | none ↦ listing ])
      by_records (some records) = Issues-pure Q records
      by_records none = listing-Issues

  delete_stale-Issues :
      (rs : List Record)
      → All (λ r. is_stale w r ≡ true) rs
      → Issues Q (delete_stale env cache h inst w rs)
  unfolding delete_stale Instance.delete_srv_record
  delete_stale-Issues [] ss = Issues-pure Q tt
  delete_stale-Issues (r ∷ rs) (stale, ss) =
      Issues-bind Q _ _
        (Issues-call_delete Q inst.provider _ (refl, sym (stale_type h inst w r stale)))
        (λ o. delete_stale-Issues rs ss)

  create_outcome-Issues : (o : Option Error) → Issues Q (create_outcome env cache h inst w o)
  unfolding create_outcome
  create_outcome-Issues none = own-Issues _
  create_outcome-Issues (some e) =
      Issues-if Q (is_conflict e) _ _ (λ _. own-Issues _)
        (λ _. Issues-if Q (is_type_conflict e) _ _ (λ _. Issues-pure Q _) (λ _. Issues-pure Q _))

  update_outcome-Issues : (o : Option Error) → Issues Q (update_outcome env cache h inst w o)
  unfolding update_outcome
  update_outcome-Issues none = own-Issues _
  update_outcome-Issues (some e) = Issues-pure Q _

  create_after_delete-Issues :
      (y : Record) (o : Option Error)
      → IsWanted h w y
      → Issues Q (Instance.create_after_delete inst y o)
  unfolding Instance.create_after_delete
  create_after_delete-Issues y none wanted = Issues-call_create Q inst.provider y (refl, inl wanted)
  create_after_delete-Issues y (some e) wanted =
      Issues-if Q (is_not_found e) _ _
        (λ _. Issues-call_create Q inst.provider y (refl, inl wanted)) (λ _. Issues-pure Q _)

  update_with-Issues :
      (update : Option (Record → Record → W → Option Error × W)) (x y : Record)
      → x.type ≡ w.type
      → IsWanted h w y
      → Issues Q (Instance.update_with inst update x y)
  unfolding Instance.update_with
  update_with-Issues (some update) x y same wanted =
      Issues-call_update Q inst.provider update x y (refl, same, wanted)
  update_with-Issues none x y same wanted =
      Issues-bind Q _ _ (Issues-call_delete Q inst.provider x (refl, same))
        (λ o. create_after_delete-Issues y o wanted)

  change-Issues :
      (rs : List Record) → All (IsSameType h inst w) rs → Issues Q (change env cache h inst w rs)
  unfolding change create_new update_first Instance.create_record_with_values Instance.update_record
  change-Issues [] ts =
      Issues-bind Q _ _
        (Issues-call_create Q inst.provider _ (refl, inl (refl, refl, refl, refl, refl)))
        create_outcome-Issues
  change-Issues (x ∷ rs) (t, ts) =
      Issues-bind Q _ _
        (update_with-Issues inst.provider.update x _ ((type_eq_iff x.type w.type).0 t)
          (refl, refl, refl, refl, refl))
        update_outcome-Issues

  settle-Issues :
      (rs : List Record) → All (IsSameType h inst w) rs → Issues Q (settle env cache h inst w rs)
  unfolding settle
  settle-Issues rs ts =
      Issues-bind Q _ _
        (delete_stale-Issues (select (is_stale w) rs) (All-select_test (is_stale w) rs))
        (λ _.
          Issues-if Q (any (is_exact w) rs) _ _
            (λ _. keep_exact-Issues env cache h inst w Q (refl, inr refl))
            (λ _. change-Issues rs ts))

  unless_conflict-Issues :
      (os existing : List Record) → Issues Q (unless_conflict env cache h inst w os existing)
  unfolding unless_conflict
  unless_conflict-Issues [] existing =
      settle-Issues _ (All-select_test (λ r. type_eq r.type w.type) existing)
  unless_conflict-Issues (r ∷ rs) existing = Issues-pure Q _

  act-Issues : Issues Q (act env cache h inst w)
  unfolding act analyze
  act-Issues =
      Issues-if Q env.dry_run _ _ (λ _. Issues-pure Q _)
        (λ _. Issues-bind Q _ _ (existing_records-Issues cache) (λ rs. unless_conflict-Issues _ rs))

  -- Whatever the provider holds and answers, what is done for a hostname at an instance calls only the
  -- instance's own provider, and there it creates only the wanted record and the hostname's marker, it
  -- deletes and updates only records of the wanted type, and an update is to the wanted record: no
  -- record of another type is touched.
  pub act-IsScoped :
      (s : System W) → s.calls ≡ [] → All (IsScoped h inst w) (act env cache h inst w s).1.calls
  act-IsScoped s empty = act-Issues.at s (subst (All Q) (sym empty) tt)
