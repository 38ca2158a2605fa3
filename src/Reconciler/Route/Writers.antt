-- ===== src/Reconciler/Route/Writers.antt =====
-- The instances that a hostname is written to, out of those that match it.
use dnsweaver.Base.{
  ◌≡◌, refl, true, false, List, [], ◌∷◌, arith, All, eq_iff, All-imp, ◌↔◌, ◌⊎◌, ◌∙◌, Bool-cases,
  inl, inr, subst,
}
use dnsweaver.Provider.Record.{type_eq_iff}
use dnsweaver.Provider.Instance.{ProviderInstance}
use dnsweaver.Reconciler.Route.{same_key, is_taken, writers_from, writers, identity_eq}

module _ {W : Type 0} where
  -- no two of the keys are the same
  abbrev AreDistinct : List (ProviderInstance W) → Type 0
  AreDistinct [] = Unit
  AreDistinct (x ∷ xs) = All (λ y. same_key x y ≡ false) xs × AreDistinct xs

  not_head :
      (x y : ProviderInstance W) (seen : List (ProviderInstance W))
      → is_taken y (x ∷ seen) ≡ false
      → (same_key x y ≡ false) × (is_taken y seen ≡ false)
  unfolding is_taken
  not_head x y seen e = ground arith

  split_free :
      (x : ProviderInstance W) (seen ys : List (ProviderInstance W))
      → All (λ y. is_taken y (x ∷ seen) ≡ false) ys
      → All (λ y. same_key x y ≡ false) ys × All (λ y. is_taken y seen ≡ false) ys
  split_free x seen [] fs = (tt, tt)
  split_free x seen (y ∷ ys) (f, fs) =
      let (a, b) = not_head x y seen f in
      let (others, free) = split_free x seen ys fs in ((a, others), (b, free))

  writers_from-free :
      (seen insts : List (ProviderInstance W))
      → All (λ y. is_taken y seen ≡ false) (writers_from seen insts)
  unfolding writers_from
  writers_from-free seen [] = tt
  writers_from-free seen (x ∷ insts) =
      let skipped = writers_from-free seen insts in
      let kept =
        (split_free x seen (writers_from (x ∷ seen) insts)
          (writers_from-free (x ∷ seen) insts)).1 in
      ground (arith, skipped, kept)

  writers_from-distinct :
      (seen insts : List (ProviderInstance W)) → AreDistinct (writers_from seen insts)
  unfolding writers_from
  writers_from-distinct seen [] = tt
  writers_from-distinct seen (x ∷ insts) =
      let skipped = writers_from-distinct seen insts in
      let others =
        (split_free x seen (writers_from (x ∷ seen) insts)
          (writers_from-free (x ∷ seen) insts)).0 in
      let kept = writers_from-distinct (x ∷ seen) insts in ground (arith, skipped, kept, others)

  writers-distinct : (insts : List (ProviderInstance W)) → AreDistinct (writers insts)
  unfolding writers
  writers-distinct insts = writers_from-distinct [] insts

  writers_from-taken :
      (x : ProviderInstance W) (seen insts : List (ProviderInstance W))
      → is_taken x seen ≡ true
      → writers_from seen insts ≡ writers_from seen (x ∷ insts)
  unfolding writers_from
  writers_from-taken x seen insts e = rw (e, writers_from) refl

  writers_from-new :
      (x : ProviderInstance W) (seen insts : List (ProviderInstance W))
      → is_taken x seen ≡ false
      → x ∷ writers_from (x ∷ seen) insts ≡ writers_from seen (x ∷ insts)
  unfolding writers_from
  writers_from-new x seen insts e = rw (e, writers_from) refl

  -- Two instances write to one store: backend, endpoint, zone and record type are the same.
  abbrev pub SameStore : ProviderInstance W → ProviderInstance W → Type 0
  SameStore x y =
      (x.identity.type ≡ y.identity.type)
      × (x.identity.endpoint ≡ y.identity.endpoint)
      × (x.identity.zone ≡ y.identity.zone)
      × (x.record_type ≡ y.record_type)

  same_key_iff : (x y : ProviderInstance W) → (same_key x y ≡ true) ↔ SameStore x y
  unfolding same_key identity_eq
  same_key_iff x y = ground (
    arith,
    eq_iff x.identity.type y.identity.type,
    eq_iff x.identity.endpoint y.identity.endpoint,
    eq_iff x.identity.zone y.identity.zone,
    type_eq_iff x.record_type y.record_type,
  )

  -- one of the instances writes to the store of `x`
  abbrev pub IsShared : ProviderInstance W → List (ProviderInstance W) → Type 0
  IsShared x [] = ⊥
  IsShared x (y ∷ ys) = SameStore y x ⊎ IsShared x ys

  -- The writers are those instances, in their order, to whose store no instance before them writes;
  -- `earlier` holds the instances that came before.
  pub data AreFirsts
      : List (ProviderInstance W)
        → List (ProviderInstance W)
        → List (ProviderInstance W)
        → Type 0 where
    done : {earlier : List (ProviderInstance W)} → AreFirsts earlier [] []
    skipped :
        {x : ProviderInstance W} {earlier insts ws : List (ProviderInstance W)}
        → IsShared x earlier
        → AreFirsts (x ∷ earlier) insts ws
        → AreFirsts earlier (x ∷ insts) ws
    kept :
        {x : ProviderInstance W} {earlier insts ws : List (ProviderInstance W)}
        → ¬ IsShared x earlier
        → AreFirsts (x ∷ earlier) insts ws
        → AreFirsts earlier (x ∷ insts) (x ∷ ws)

  store_trans : (x y z : ProviderInstance W) → SameStore x y → SameStore y z → SameStore x z
  store_trans x y z (a, b, c, d) (a', b', c', d') = (a ∙ a', b ∙ b', c ∙ c', d ∙ d')

  share_trans :
      (x y : ProviderInstance W) (seen : List (ProviderInstance W))
      → IsShared x seen
      → SameStore x y
      → IsShared y seen
  share_trans x y [] shared xy = elim shared [ ]
  share_trans x y (w ∷ ws) (inl same) xy = inl (store_trans w x y same xy)
  share_trans x y (w ∷ ws) (inr later) xy = inr (share_trans x y ws later xy)

  taken_iff :
      (x : ProviderInstance W) (seen : List (ProviderInstance W))
      → (is_taken x seen ≡ true) ↔ IsShared x seen
  unfolding is_taken
  taken_iff x [] = ground arith
  taken_iff x (w ∷ ws) = ground (arith, same_key_iff w x, taken_iff x ws)

  -- The writers so far stand for the instances so far.
  abbrev StandFor : List (ProviderInstance W) → List (ProviderInstance W) → Type 0
  StandFor seen earlier = (y : ProviderInstance W) → IsShared y seen ↔ IsShared y earlier

  StandFor-cons :
      (x : ProviderInstance W) (seen earlier : List (ProviderInstance W))
      → StandFor seen earlier
      → StandFor (x ∷ seen) (x ∷ earlier)
  StandFor-cons x seen earlier same y = ground (arith, same y)

  StandFor-skip :
      (x : ProviderInstance W) (seen earlier : List (ProviderInstance W))
      → IsShared x seen
      → StandFor seen earlier
      → StandFor seen (x ∷ earlier)
  StandFor-skip x seen earlier shared same y = (
    λ h. inr ((same y).0 h),
    λ h. elim h [ inl xy ↦ share_trans x y seen shared xy | inr before ↦ (same y).1 before ],
  )

  writers_from-AreFirsts :
      (seen earlier insts : List (ProviderInstance W))
      → StandFor seen earlier
      → AreFirsts earlier insts (writers_from seen insts)
  unfolding writers_from
  writers_from-AreFirsts seen earlier [] same = done
  writers_from-AreFirsts seen earlier (x ∷ insts) same = elim (Bool-cases (is_taken x seen)) [
    | inl e ↦
        let shared = (taken_iff x seen).0 e in
        subst (AreFirsts earlier (x ∷ insts)) (writers_from-taken x seen insts e) (
          skipped ((same x).0 shared) (
            writers_from-AreFirsts seen (x ∷ earlier) insts
              (StandFor-skip x seen earlier shared same)))
    | inr e ↦ subst (AreFirsts earlier (x ∷ insts)) (writers_from-new x seen insts e) (
        kept (λ before. ground (arith, e, (taken_iff x seen).1 ((same x).1 before)))
          (writers_from-AreFirsts (x ∷ seen) (x ∷ earlier) insts
            (StandFor-cons x seen earlier same)))
  ]

  -- No two of the instances write to one store.
  abbrev pub HaveOwnStores : List (ProviderInstance W) → Type 0
  HaveOwnStores [] = Unit
  HaveOwnStores (x ∷ xs) = All (λ y. ¬ SameStore x y) xs × HaveOwnStores xs

  AreDistinct-HaveOwnStores : (ws : List (ProviderInstance W)) → AreDistinct ws → HaveOwnStores ws
  AreDistinct-HaveOwnStores [] h = tt
  AreDistinct-HaveOwnStores (x ∷ ws) (differ, h) = (
    All-imp (λ y e same. ground (arith, e, (same_key_iff x y).1 same)) ws differ,
    AreDistinct-HaveOwnStores ws h,
  )

  -- Of the instances that match a hostname, the ones that it is written to are, in their order, those
  -- to whose store no earlier one writes, where a store is a backend type, an endpoint, a zone and a
  -- record type; so no two of them write to one store.
  pub writers-AreFirsts :
      (insts : List (ProviderInstance W))
      → AreFirsts [] insts (writers insts) × HaveOwnStores (writers insts)
  unfolding writers
  writers-AreFirsts insts = (
    writers_from-AreFirsts [] [] insts (λ y. (λ h. h, λ h. h)),
    AreDistinct-HaveOwnStores (writers insts) (writers-distinct insts),
  )
