-- ===== src/Provider/Manager/Recovery.antt =====
-- A pending provider that becomes reachable is ready after the next tick that is due.
use dnsweaver.Base.{
  ℕ, ◌≤◌, String, ◌≡◌, refl, ap, sym, subst, ◌∙◌, Bool, Option, none, some, List, [], ◌∷◌, inl, inr,
  ◌==◌, eq_refl, arith, All, Bool-cases,
}
use dnsweaver.Base.Map.{lookup, lookup-delete}
use dnsweaver.Matcher.{DomainMatcher, new_domain_matcher}
use dnsweaver.Provider.Failure.{ok}
use dnsweaver.Provider.Config.{Family, validate}
use dnsweaver.Provider.Interface.{Provider}
use dnsweaver.Provider.Instance.{ProviderInstance}
use dnsweaver.Provider.Registry.{
  Factory, Registry, matcher_config, build_instance, add_instance, get, create_instance,
}
use dnsweaver.Provider.Registry.Creation.{
  create_instance-succeeds, get-add_instance, factories-add_instance, instance_id-add_instance,
}
use package.dnsweaver.Provider.Manager.{
  Manager, PendingProvider, Attempt, due, pinged, recheck, settle, retry_provider, retry_all,
  retry_pending_providers,
}
use package.dnsweaver.Provider.Manager.Attempts.{recheck-added}
use package.dnsweaver.Provider.Manager.Invariant.{IsWellFormed, retry_provider-IsWellFormed}
use package.dnsweaver.Provider.Manager.Due.{
  IsOther, NamesDiffer, due-NamesDiffer, sought, due-sought,
}
use package.dnsweaver.Provider.Manager.Retried.{retry_provider-cases, retry_provider-other}

module _ {W : Type 0} (ip_family : String → Option Family)
    (compile_regexp : String → Option (String → Bool)) where
  -- what never changes in a registry
  retry_provider-settings :
      (attempt : Attempt W) (p : PendingProvider) (m : Manager W)
      → IsWellFormed m
      → ((retry_provider ip_family compile_regexp attempt p m).registry.factories
          ≡ m.registry.factories)
        × ((retry_provider ip_family compile_regexp attempt p m).registry.instance_id
            ≡ m.registry.instance_id)
  retry_provider-settings attempt p m w =
      elim (retry_provider-cases ip_family compile_regexp attempt p m w.consistent) [
        | inl h ↦
            let (n, _, same) = h.registry in
            (ap (λ (r : Registry W). r.factories) same, ap (λ (r : Registry W). r.instance_id) same)
        | inr h ↦ (
          ap (λ (r : Registry W). r.factories) h.registry
              ∙ factories-add_instance p.config.name h.value m.registry,
          ap (λ (r : Registry W). r.instance_id) h.registry
              ∙ instance_id-add_instance p.config.name h.value m.registry,
        )
      ]

  -- The retries of other providers leave a ready one alone.
  abbrev IsUp : String → ProviderInstance W → Manager W → Type 0
  IsUp name pi m = (get name m.registry ≡ some pi) × (lookup name m.pending ≡ none)

  retry_all-IsUp :
      (attempts : String → Attempt W) (ps : List PendingProvider) (m : Manager W) (name : String)
      (pi : ProviderInstance W)
      → IsWellFormed m
      → All (IsOther name) ps
      → IsUp name pi m
      → IsUp name pi (retry_all ip_family compile_regexp attempts ps m)
  unfolding retry_all get
  retry_all-IsUp attempts [] m name pi w others up = up
  retry_all-IsUp attempts (p ∷ ps) m name pi w (other, others) (found, gone) =
      let attempt = attempts p.config.name in
      let (same, waits) =
        retry_provider-other ip_family compile_regexp attempt p m w.consistent name other in
      retry_all-IsUp attempts ps (retry_provider ip_family compile_regexp attempt p m) name pi
        (retry_provider-IsWellFormed ip_family compile_regexp attempt p m w) others
        (rw (get, same) found, waits ∙ gone)

  module _ (p : PendingProvider) (factory : Factory W) (provider : Provider W)
      (matcher : DomainMatcher) (valid : validate ip_family p.config ≡ none)
      (made : factory p.config.name p.config.provider_config ≡ ok provider)
      (compiled : new_domain_matcher compile_regexp (matcher_config p.config) ≡ some matcher) where
    retry_provider-IsUp :
        (attempt : Attempt W) (m : Manager W)
        → IsWellFormed m
        → lookup p.config.name m.registry.by_name ≡ none
        → lookup p.config.type_name m.registry.factories ≡ some factory
        → attempt.ping (build_instance p.config m.registry.instance_id provider matcher) ≡ none
        → IsUp p.config.name
            (build_instance p.config m.registry.instance_id provider matcher)
            (retry_provider ip_family compile_regexp attempt p m)
    unfolding retry_provider settle pinged
    retry_provider-IsUp attempt m w new known answers =
        let pi = build_instance p.config m.registry.instance_id provider matcher in
        let created : create_instance ip_family compile_regexp p.config m.registry
            ≡ (none, add_instance p.config.name pi m.registry) =
          create_instance-succeeds ip_family compile_regexp p.config m.registry factory provider
            matcher valid new known made compiled in
        let checked : recheck attempt p.config.name (none, add_instance p.config.name pi m.registry)
            ≡ (none, add_instance p.config.name pi m.registry) =
          recheck-added attempt p.config.name m.registry w.consistent new pi ∙ rw answers refl in
        rw (retry_provider, created, checked)
          (
            get-add_instance p.config.name pi m.registry,
            lookup-delete p.config.name p.config.name m.pending ∙ rw (eq_refl p.config.name) refl,
          )

    retry_all-starts :
        (attempts : String → Attempt W) (ps : List PendingProvider) (m : Manager W)
        → IsWellFormed m
        → NamesDiffer ps
        → sought p.config.name ps ≡ some p
        → lookup p.config.name m.registry.by_name ≡ none
        → lookup p.config.type_name m.registry.factories ≡ some factory
        → (attempts p.config.name).ping
            (build_instance p.config m.registry.instance_id provider matcher)
          ≡ none
        → IsUp p.config.name
            (build_instance p.config m.registry.instance_id provider matcher)
            (retry_all ip_family compile_regexp attempts ps m)
    unfolding retry_all
    retry_all-starts attempts [] m w differ there new known answers = absurd (ground arith)
    retry_all-starts attempts (q ∷ ps) m w (others, differ) there new known answers =
        elim (Bool-cases (q.config.name == p.config.name)) [
          | inl same ↦
              let equal : q ≡ p = ground (arith, there, same) in
              let up = retry_provider-IsUp (attempts p.config.name) m w new known answers in
              subst
                (λ x.
                  IsUp p.config.name
                    (build_instance p.config m.registry.instance_id provider matcher)
                    (retry_all ip_family compile_regexp attempts (x ∷ ps) m))
                (sym equal)
                (retry_all-IsUp attempts ps _ p.config.name _
                  (retry_provider-IsWellFormed ip_family compile_regexp (attempts p.config.name) p m
                    w)
                  (subst (λ (x : PendingProvider). All (IsOther x.config.name) ps) equal others) up)
          | inr other ↦
              let attempt = attempts q.config.name in
              let kept = retry_provider-settings attempt q m w in
              let alone =
                (retry_provider-other ip_family compile_regexp attempt q m w.consistent
                  p.config.name other).0 in
              let id = kept.1 in
              subst
                (λ id.
                  IsUp p.config.name (build_instance p.config id provider matcher)
                    (retry_all ip_family compile_regexp attempts (q ∷ ps) m))
                id
                (retry_all-starts attempts ps (retry_provider ip_family compile_regexp attempt q m)
                  (retry_provider-IsWellFormed ip_family compile_regexp attempt q m w) differ
                  (ground (arith, there, other)) (alone ∙ new)
                  (ap (lookup p.config.type_name) kept.0 ∙ known)
                  (ap
                      (λ id.
                        (attempts p.config.name).ping (build_instance p.config id provider matcher))
                      id
                    ∙ answers))
        ]

    -- Once the server of a pending provider answers, the next tick that is due makes it ready: if its
    -- name is not in use, its configuration is valid, the factory of its type and its patterns work,
    -- and the new instance answers the ping, then after the tick `Get` returns that instance and the
    -- provider is not pending any more, whatever the other pending providers do.
    pub retry_pending_providers-recovers :
        (now : ℕ) (attempts : String → Attempt W) (m : Manager W)
        → IsWellFormed m
        → lookup p.config.name m.pending ≡ some p
        → p.next_retry_at ≤ now
        → lookup p.config.name m.registry.by_name ≡ none
        → lookup p.config.type_name m.registry.factories ≡ some factory
        → (attempts p.config.name).ping
            (build_instance p.config m.registry.instance_id provider matcher)
          ≡ none
        → (get p.config.name
              (retry_pending_providers ip_family compile_regexp now attempts m).registry
            ≡ some (build_instance p.config m.registry.instance_id provider matcher))
          × (lookup p.config.name
                (retry_pending_providers ip_family compile_regexp now attempts m).pending
              ≡ none)
    unfolding retry_pending_providers
    retry_pending_providers-recovers now attempts m w there late new known answers =
        retry_all-starts attempts (due now m.pending) m w
          (due-NamesDiffer m.config now m.pending w.keys_differ w.entries)
          (due-sought m.config now p.config.name p m.pending w.entries there late) new known answers
