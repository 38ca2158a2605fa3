-- ===== src/Reconciler/Ensure/Written.antt =====
-- The success that `ensureRecordForProvider` reports, and the calls that it made.
use dnsweaver.Base.{
  String, ◌≡◌, ◌≢◌, refl, ap, sym, subst, ◌∙◌, Bool, true, false, not, Option, none, some, List, [],
  ◌∷◌, arith, inl, inr, any, select, if◌then◌else◌, Bool-cases,
}
use dnsweaver.Provider.Record.{Record}
use dnsweaver.Provider.Ownership.{ownership_record}
use dnsweaver.Provider.Failure.{Error, is_conflict, is_type_conflict, is_not_found}
use dnsweaver.Provider.Interface.{System, M, ◌>>=◌, call_create, pure, call_update, call_delete}
use dnsweaver.Provider.Instance
use dnsweaver.Provider.Instance.{ProviderInstance, name}
use dnsweaver.Reconciler.Result.{Action, ActionStatus}
use dnsweaver.Reconciler.Cache.{RecordCache}
use dnsweaver.Reconciler.Env.{Env}
use dnsweaver.Reconciler.Ensure.{
  Wanted, act, action, analyze, settle, keep_exact, own_and_return, ensure_ownership_record,
  cache_owns, delete_stale, is_exact, is_stale, change, create_new, create_outcome, update_first,
  update_outcome, existing_records, unless_conflict,
}

-- the wanted record of the hostname: its type, target, TTL and SRV data
abbrev pub IsWanted : String → Wanted → Record → Type 0
IsWanted h w r =
    (r.hostname ≡ h) × (r.type ≡ w.type) × (r.target ≡ w.target) × (r.ttl ≡ w.ttl) × (r.srv ≡ w.srv)

module _ {W : Type 0} (env : Env W) (cache : Option RecordCache) (h : String)
    (inst : ProviderInstance W) (w : Wanted) (Holds : W → Type 0)
    (by_create : (r : Record) (v : W)
      → IsWanted h w r
      → (inst.provider.create r v).0 ≡ none
      → Holds (inst.provider.create r v).1)
    (by_update : (f : Record → Record → W → Option Error × W) (x r : Record) (v : W)
      → inst.provider.update ≡ some f
      → IsWanted h w r
      → (f x r v).0 ≡ none
      → Holds (f x r v).1)
    (by_marker : (v : W)
      → Holds v
      → Holds
          (inst.provider.create
            (ownership_record h inst.ttl inst.instance_id w.metadata)
            v).1) where
  own_and_return-result :
      (a : Action) (s : System W) → (own_and_return env cache h inst w a s).0 ≡ a
  unfolding own_and_return ◌>>=◌
  own_and_return-result a s = refl

  marker-Holds :
      (s : System W)
      → Holds s.store
      → Holds (Instance.create_ownership_record inst h w.metadata s).1.store
  unfolding Instance.create_ownership_record ◌>>=◌ call_create
  marker-Holds s made = by_marker s.store made

  ensure_ownership_record-Holds :
      (s : System W)
      → Holds s.store
      → Holds (ensure_ownership_record env cache h inst w.metadata s).1.store
  unfolding ensure_ownership_record ◌>>=◌ Instance.create_ownership_record
  ensure_ownership_record-Holds s made = elim (Bool-cases (not env.config.ownership_tracking)) [
    | inl e ↦ rw (e, ensure_ownership_record) made
    | inr e ↦ elim (Bool-cases (cache_owns env.config inst h cache)) [
      | inl owned ↦ rw (e, owned, ensure_ownership_record) made
      | inr unowned ↦ rw (e, unowned, ensure_ownership_record) (marker-Holds s made)
    ]
  ]

  own_and_return-Holds :
      (a : Action) (s : System W)
      → Holds s.store
      → Holds (own_and_return env cache h inst w a s).1.store
  unfolding own_and_return ◌>>=◌
  own_and_return-Holds a s made = ensure_ownership_record-Holds s made

  -- the step makes the write if it succeeds
  abbrev IsHonest : M W Action → Type 0
  IsHonest m = (s : System W) → (m s).0.status ≡ ActionStatus.success → Holds (m s).1.store

  own_and_return-IsHonest :
      (a : Action)
      → a.status ≢ ActionStatus.success
      → IsHonest (own_and_return env cache h inst w a)
  own_and_return-IsHonest a other s e =
      absurd (other (ap (λ (x : Action). x.status) (sym (own_and_return-result a s)) ∙ e))

  create_outcome-IsHonest :
      (o : Option Error) (s : System W)
      → (o ≡ none → Holds s.store)
      → (create_outcome env cache h inst w o s).0.status ≡ ActionStatus.success
      → Holds (create_outcome env cache h inst w o s).1.store
  unfolding create_outcome action
  create_outcome-IsHonest none s made = λ e. own_and_return-Holds _ s (made refl)
  create_outcome-IsHonest (some x) s made = elim (Bool-cases (is_conflict x)) [
    | inl c ↦ rw c (own_and_return-IsHonest _ (ground arith) s)
    | inr c ↦ elim (Bool-cases (is_type_conflict x)) [
      | inl t ↦ rw (c, t) (λ e. absurd (ground (arith, e)))
      | inr t ↦ rw (c, t) (λ e. absurd (ground (arith, e)))
    ]
  ]

  create_new-IsHonest : IsHonest (create_new env cache h inst w)
  unfolding create_new ◌>>=◌ call_create Instance.create_record_with_values
  create_new-IsHonest s e =
      create_outcome-IsHonest _ _ (by_create _ s.store (refl, refl, refl, refl, refl)) e

  update_outcome-IsHonest :
      (o : Option Error) (s : System W)
      → (o ≡ none → Holds s.store)
      → (update_outcome env cache h inst w o s).0.status ≡ ActionStatus.success
      → Holds (update_outcome env cache h inst w o s).1.store
  unfolding update_outcome action
  update_outcome-IsHonest none s made e = own_and_return-Holds _ s (made refl)
  update_outcome-IsHonest (some x) s made e = ground arith

  create_after_delete-Holds :
      (y : Record) (o : Option Error) (s : System W)
      → IsWanted h w y
      → (Instance.create_after_delete inst y o s).0 ≡ none
      → Holds (Instance.create_after_delete inst y o s).1.store
  unfolding Instance.create_after_delete call_create
  create_after_delete-Holds y none s wanted e = by_create y s.store wanted e
  create_after_delete-Holds y (some x) s wanted e = elim (Bool-cases (is_not_found x)) [
    | inl gone ↦ rw gone (
        by_create y s.store wanted (
          subst (λ b. ((if b then call_create inst.provider y else pure (some x)) s).0 ≡ none) gone
            e))
    | inr there ↦ absurd (ground arith)
  ]

  update_with-Holds :
      (update : Option (Record → Record → W → Option Error × W)) (existing y : Record)
      (s : System W)
      → inst.provider.update ≡ update
      → IsWanted h w y
      → (Instance.update_with inst update existing y s).0 ≡ none
      → Holds (Instance.update_with inst update existing y s).1.store
  unfolding Instance.update_with ◌>>=◌ call_update
  update_with-Holds (some update) existing y s has wanted e =
      by_update update existing y s.store has wanted e
  update_with-Holds none existing y s has wanted e =
      let (o, s') = call_delete inst.provider existing s in
      create_after_delete-Holds y o s' wanted e

  update_first-IsHonest : (x : Record) → IsHonest (update_first env cache h inst w x)
  unfolding update_first ◌>>=◌ Instance.update_record
  update_first-IsHonest x s e =
      update_outcome-IsHonest _ _
        (update_with-Holds inst.provider.update x _ s refl (refl, refl, refl, refl, refl)) e

  change-IsHonest : (rs : List Record) → IsHonest (change env cache h inst w rs)
  unfolding change
  change-IsHonest [] = create_new-IsHonest
  change-IsHonest (r ∷ rs) = update_first-IsHonest r

  keep_exact-skipped :
      (s : System W) → (keep_exact env cache h inst w s).0.status ≡ ActionStatus.skipped
  unfolding action keep_exact own_and_return ◌>>=◌
  keep_exact-skipped s = elim (Bool-cases (cache_owns env.config inst h cache)) [
    | inl owned ↦ rw owned refl
    | inr unowned ↦ elim (Bool-cases env.config.adopt_existing) [
      | inl adopt ↦ rw (unowned, adopt) refl
      | inr keep ↦ rw (unowned, keep) refl
    ]
  ]

  decided-IsHonest :
      (b : Bool) (rs : List Record)
      → IsHonest (if b then keep_exact env cache h inst w else change env cache h inst w rs)
  decided-IsHonest true rs s e = absurd (ground (arith, keep_exact-skipped s))
  decided-IsHonest false rs s e = change-IsHonest rs s e

  settle-IsHonest : (same_type : List Record) → IsHonest (settle env cache h inst w same_type)
  unfolding settle ◌>>=◌
  settle-IsHonest same_type s e =
      decided-IsHonest (any (is_exact w) same_type) same_type
        (delete_stale env cache h inst w (select (is_stale w) same_type) s).1 e

  unless_conflict-IsHonest :
      (os existing : List Record) → IsHonest (unless_conflict env cache h inst w os existing)
  unfolding unless_conflict action
  unless_conflict-IsHonest [] existing s e = settle-IsHonest _ s e
  unless_conflict-IsHonest (r ∷ rs) existing s e = ground arith

  unless_dry-IsHonest :
      (b : Bool) (n m : M W Action) → b ≡ false → IsHonest m → IsHonest (if b then n else m)
  unless_dry-IsHonest true n m e honest s = ground arith
  unless_dry-IsHonest false n m e honest s = honest s

  -- Outside a dry run, if the action that an instance gets for a hostname reports success, then the
  -- wanted record is at its provider: whatever property of the provider's store a create without an
  -- error of a record with the wanted hostname, type, target, TTL and SRV data brings about, and an
  -- update without an error to such a record, if the provider has updates, and the create of the
  -- ownership marker keeps, holds of the store afterwards.
  pub success_means_written :
      (s : System W)
      → env.dry_run ≡ false
      → (act env cache h inst w s).0.status ≡ ActionStatus.success
      → Holds (act env cache h inst w s).1.store
  unfolding act analyze ◌>>=◌
  success_means_written s real e =
      unless_dry-IsHonest env.dry_run _ _ real
        (λ s' e'. unless_conflict-IsHonest _ _ (existing_records env cache h inst s').1 e') s e
