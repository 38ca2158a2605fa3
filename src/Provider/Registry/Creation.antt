-- ===== src/Provider/Registry/Creation.antt =====
-- What `CreateInstance` does to the registry on each of its ways out.
use dnsweaver.Base.{
  String, ◌≡◌, ◌∙◌, refl, sym, subst, ap, Bool, true, Option, none, some, List, [], ◌∷◌, ◌++◌,
  is_some, map, Option-cases, inl, inr, ◌⊎◌, eq_refl, ◌==◌, false, length, suc, length-append,
  arith,
}
use dnsweaver.Base.Map.{lookup, lookup-insert}
use dnsweaver.Provider.Failure.{Error, Result, ok, err}
use dnsweaver.Provider.Config.{Family, ProviderInstanceConfig, validate}
use dnsweaver.Provider.Interface.{Provider}
use dnsweaver.Provider.Instance.{ProviderInstance}
use dnsweaver.Matcher.{DomainMatcher, new_domain_matcher}
use dnsweaver.Provider.Registry.{
  Factory, Slot, Registry, matcher_config, get, all, add_instance, build_instance, finish,
  construct, make, create_instance,
}

map-snoc :
    {A B : Type 0} (f : A → B) (xs : List A) (x : A) → map f (xs ++ x ∷ []) ≡ map f xs ++ f x ∷ []
map-snoc f [] x = refl
map-snoc f (y ∷ xs) x = ap (λ ys. f y ∷ ys) (map-snoc f xs x)

module _ {W : Type 0} where
  -- The call failed and changed nothing, or it added one instance: the last of the list, and the
  -- one that the name leads to.
  abbrev pub IsOutcome : String → Registry W → Option Error × Registry W → Type 0
  IsOutcome name r (e, r') =
      ((is_some e ≡ true) × (r' ≡ r))
      ⊎ ((e ≡ none)
          × (pi : ProviderInstance W) × (get name r' ≡ some pi)
          × (all r' ≡ all r ++ pi ∷ []))

  pub get-add_instance :
      (name : String) (pi : ProviderInstance W) (r : Registry W)
      → get name (add_instance name pi r) ≡ some pi
  unfolding get add_instance
  get-add_instance name pi r =
      let slot : Slot W = record { address = r.next_address; value = pi } in
      rw (get, lookup-insert name name slot r.by_name, eq_refl name) refl

  -- the other names lead where they led
  pub lookup-add_instance :
      (sought name : String) (pi : ProviderInstance W) (r : Registry W)
      → (name == sought) ≡ false
      → lookup sought (add_instance name pi r).by_name ≡ lookup sought r.by_name
  unfolding add_instance
  lookup-add_instance sought name pi r differ =
      let slot : Slot W = record { address = r.next_address; value = pi } in
      let found = lookup-insert name sought slot r.by_name in rw (found, differ) refl

  pub lookup-add_instance_same :
      (name : String) (pi : ProviderInstance W) (r : Registry W)
      → is_some (lookup name (add_instance name pi r).by_name) ≡ true
  unfolding add_instance
  lookup-add_instance_same name pi r =
      let slot : Slot W = record { address = r.next_address; value = pi } in
      let found = lookup-insert name name slot r.by_name in
      let same = eq_refl name in rw (found, same) refl

  pub factories-add_instance :
      (name : String) (pi : ProviderInstance W) (r : Registry W)
      → (add_instance name pi r).factories ≡ r.factories
  unfolding add_instance
  factories-add_instance name pi r = refl

  pub instance_id-add_instance :
      (name : String) (pi : ProviderInstance W) (r : Registry W)
      → (add_instance name pi r).instance_id ≡ r.instance_id
  unfolding add_instance
  instance_id-add_instance name pi r = refl

  pub instances-add_instance :
      (name : String) (pi : ProviderInstance W) (r : Registry W)
      → length (add_instance name pi r).instances ≡ suc (length r.instances)
  unfolding add_instance
  instances-add_instance name pi r =
      omega
        (arith, length-append r.instances (record { address = r.next_address; value = pi } ∷ []))

  all-add_instance :
      (name : String) (pi : ProviderInstance W) (r : Registry W)
      → all (add_instance name pi r) ≡ all r ++ pi ∷ []
  unfolding all add_instance
  all-add_instance name pi r =
      map-snoc (λ (slot : Slot W). slot.value) r.instances
        (record { address = r.next_address; value = pi })

  -- The call failed and changed nothing, or it added an instance under a name that was not in use.
  abbrev pub IsAddition : String → Registry W → Option Error × Registry W → Type 0
  IsAddition name r (e, r') =
      ((is_some e ≡ true) × (r' ≡ r))
      ⊎ ((e ≡ none)
          × (lookup name r.by_name ≡ none)
          × (pi : ProviderInstance W) × (r' ≡ add_instance name pi r))

  IsAddition-IsOutcome :
      (name : String) (r : Registry W) (answer : Option Error × Registry W)
      → IsAddition name r answer
      → IsOutcome name r answer
  unfolding get all
  IsAddition-IsOutcome name r (e, r') (inl failed) = inl failed
  IsAddition-IsOutcome name r (e, r') (inr (succeeded, new, pi, same)) = inr (
    succeeded,
    pi,
    ap (get name) same ∙ get-add_instance name pi r,
    ap all same ∙ all-add_instance name pi r,
  )

  module _ (ip_family : String → Option Family)
      (compile_regexp : String → Option (String → Bool)) where
    finish-IsAddition :
        (cfg : ProviderInstanceConfig) (p : Provider W) (m : Option DomainMatcher) (r : Registry W)
        → lookup cfg.name r.by_name ≡ none
        → IsAddition cfg.name r (finish ip_family compile_regexp cfg p m r)
    unfolding finish
    finish-IsAddition cfg p none r new = inl (refl, refl)
    finish-IsAddition cfg p (some m) r new =
        inr (refl, new, build_instance cfg r.instance_id p m, refl)

    construct-IsAddition :
        (cfg : ProviderInstanceConfig) (p : Result (Provider W)) (r : Registry W)
        → lookup cfg.name r.by_name ≡ none
        → IsAddition cfg.name r (construct ip_family compile_regexp cfg p r)
    unfolding construct
    construct-IsAddition cfg (err e) r new = inl (refl, refl)
    construct-IsAddition cfg (ok p) r new = finish-IsAddition cfg p _ r new

    make-IsAddition :
        (cfg : ProviderInstanceConfig) (f : Option (Factory W)) (r : Registry W)
        → lookup cfg.name r.by_name ≡ none
        → IsAddition cfg.name r (make ip_family compile_regexp cfg f r)
    unfolding make
    make-IsAddition cfg none r new = inl (refl, refl)
    make-IsAddition cfg (some f) r new =
        construct-IsAddition cfg (f cfg.name cfg.provider_config) r new

    pub create_instance-new :
        (cfg : ProviderInstanceConfig) (r : Registry W)
        → validate ip_family cfg ≡ none
        → lookup cfg.name r.by_name ≡ none
        → create_instance ip_family compile_regexp cfg r
          ≡ make ip_family compile_regexp cfg (lookup cfg.type_name r.factories) r
    unfolding create_instance
    create_instance-new cfg r valid new = rw (valid, new, create_instance) refl

    -- With a valid configuration, a new name, and a factory and patterns that work.
    pub create_instance-succeeds :
        (cfg : ProviderInstanceConfig) (r : Registry W) (factory : Factory W)
        (provider : Provider W) (matcher : DomainMatcher)
        → validate ip_family cfg ≡ none
        → lookup cfg.name r.by_name ≡ none
        → lookup cfg.type_name r.factories ≡ some factory
        → factory cfg.name cfg.provider_config ≡ ok provider
        → new_domain_matcher compile_regexp (matcher_config cfg) ≡ some matcher
        → create_instance ip_family compile_regexp cfg r
          ≡ (none, add_instance cfg.name (build_instance cfg r.instance_id provider matcher) r)
    unfolding make construct finish
    create_instance-succeeds cfg r factory provider matcher valid new known made compiled =
        create_instance-new cfg r valid new ∙ rw (known, made, compiled) refl

    pub create_instance-IsAddition :
        (cfg : ProviderInstanceConfig) (r : Registry W)
        → IsAddition cfg.name r (create_instance ip_family compile_regexp cfg r)
    unfolding create_instance
    create_instance-IsAddition cfg r = elim (Option-cases (validate ip_family cfg)) [
      | inr (e, invalid) ↦ rw (invalid, create_instance) (inl (refl, refl))
      | inl valid ↦ elim (Option-cases (lookup cfg.name r.by_name)) [
        | inr (slot, there) ↦ rw (valid, there, create_instance) (inl (refl, refl))
        | inl new ↦
            subst (IsAddition cfg.name r) (sym (create_instance-new cfg r valid new))
              (make-IsAddition cfg (lookup cfg.type_name r.factories) r new)
      ]
    ]

    -- `CreateInstance` fails and leaves the registry as it was, or it adds exactly one instance,
    -- which is the last of `All` and the one that `Get` returns for the name.
    pub create_instance-IsOutcome :
        (cfg : ProviderInstanceConfig) (r : Registry W)
        → IsOutcome cfg.name r (create_instance ip_family compile_regexp cfg r)
    create_instance-IsOutcome cfg r =
        IsAddition-IsOutcome cfg.name r (create_instance ip_family compile_regexp cfg r)
          (create_instance-IsAddition cfg r)

    -- A name that is in use makes `CreateInstance` fail, and nothing is changed.
    pub create_instance-in_use :
        (cfg : ProviderInstanceConfig) (r : Registry W) (slot : Slot W)
        → lookup cfg.name r.by_name ≡ some slot
        → (is_some (create_instance ip_family compile_regexp cfg r).0 ≡ true)
          × ((create_instance ip_family compile_regexp cfg r).1 ≡ r)
    unfolding create_instance
    create_instance-in_use cfg r slot there = elim (Option-cases (validate ip_family cfg)) [
      | inr (e, invalid) ↦ rw (invalid, create_instance) (refl, refl)
      | inl valid ↦ rw (valid, there, create_instance) (refl, refl)
    ]
