-- ===== src/Provider/Manager/Retrying.antt =====
-- A tick of the retry loop: no provider is lost or counted twice.
use dnsweaver.Base.{
  ℕ, String, ◌≡◌, refl, ap, ◌∙◌, Bool, true, false, ◌||◌, Option, none, some, List, [], ◌∷◌,
  is_some, length, inl, inr, ◌==◌, eq_iff, arith, All, All-imp, if◌then◌else◌,
}
use dnsweaver.Base.Map.{lookup, lookup-insert, lookup-delete}
use dnsweaver.Base.Map.Keys.{KeysDiffer, length-insert_present, length-delete_present}
use dnsweaver.Provider.Config.{Family}
use dnsweaver.Provider.Registry.{Registry}
use dnsweaver.Provider.Registry.Creation.{
  instances-add_instance, lookup-add_instance_same, lookup-add_instance,
}
use package.dnsweaver.Provider.Manager.{
  Manager, PendingProvider, Attempt, due, failed_again, total_count, retry_provider, retry_all,
  retry_pending_providers,
}
use package.dnsweaver.Provider.Manager.Invariant.{IsWellFormed, retry_provider-IsWellFormed}
use package.dnsweaver.Provider.Manager.Due.{IsOther, NamesDiffer, due-IsHeld, due-NamesDiffer}
use package.dnsweaver.Provider.Manager.Retried.{
  IsPostponed, IsRecovered, retry_provider-cases, retry_provider-other,
}

module _ {W : Type 0} where
  abbrev pub is_ready : String → Manager W → Bool
  is_ready name m = is_some (lookup name m.registry.by_name)

  abbrev pub is_pending : String → Manager W → Bool
  is_pending name m = is_some (lookup name m.pending)

  -- No provider is both ready and pending.
  abbrev pub IsDisjoint : Manager W → Type 0
  IsDisjoint m = (name : String) → is_pending name m ≡ true → is_ready name m ≡ false

  pub record IsKept (m m' : Manager W) : Type 0 where
    pub disjoint : IsDisjoint m'
    pub known :
        (name : String)
        → (is_ready name m' || is_pending name m') ≡ (is_ready name m || is_pending name m)
    pub total : total_count m' ≡ total_count m

  postponed-IsKept :
      (attempt : Attempt W) (p : PendingProvider) (m m' : Manager W)
      → IsDisjoint m
      → is_pending p.config.name m ≡ true
      → IsPostponed attempt p m m'
      → IsKept m m'
  postponed-IsKept attempt p m m' apart there h =
      let p' = failed_again m.config attempt h.error p in
      let same : m'.registry.by_name ≡ m.registry.by_name =
        (let (n, _, e) = h.registry in ap (λ (r : Registry W). r.by_name) e) in
      let size : length m'.registry.instances ≡ length m.registry.instances =
        (let (n, _, e) = h.registry in ap (λ (r : Registry W). length r.instances) e) in
      let found : (name : String)
          → lookup name m'.pending
            ≡ (if p.config.name == name then some p' else lookup name m.pending) =
        λ name. ap (lookup name) h.pending ∙ lookup-insert p.config.name name p' m.pending in
      record {
        disjoint = λ name pending. ground (
          arith,
          ap (lookup name) same,
          found name,
          apart name,
          apart p.config.name,
          there,
          eq_iff p.config.name name,
        );
        known = λ name.
            ground (arith, ap (lookup name) same, found name, there, eq_iff p.config.name name);
        total = omega (
          arith,
          size,
          ap length h.pending,
          length-insert_present p.config.name p' m.pending there,
        );
      }

  recovered-IsKept :
      (attempt : Attempt W) (p : PendingProvider) (m m' : Manager W)
      → KeysDiffer m.pending
      → IsDisjoint m
      → is_pending p.config.name m ≡ true
      → IsRecovered attempt p m m'
      → IsKept m m'
  recovered-IsKept attempt p m m' differ apart there h =
      let name = p.config.name in
      let here : is_ready name m' ≡ true =
        ap (λ (r : Registry W). is_some (lookup name r.by_name)) h.registry
        ∙ lookup-add_instance_same name h.value m.registry in
      let elsewhere : (sought : String)
          → (name == sought) ≡ false
          → is_ready sought m' ≡ is_ready sought m =
        λ sought other.
          ap (λ (r : Registry W). is_some (lookup sought r.by_name)) h.registry
          ∙ ap is_some (lookup-add_instance sought name h.value m.registry other) in
      let found : (sought : String)
          → lookup sought m'.pending ≡ (if name == sought then none else lookup sought m.pending) =
        λ sought. ap (lookup sought) h.pending ∙ lookup-delete name sought m.pending in
      record {
        disjoint = λ sought pending.
            ground (arith, elsewhere sought, found sought, apart sought, eq_iff name sought);
        known = λ sought.
            ground (arith, elsewhere sought, here, found sought, there, eq_iff name sought);
        total = omega (
          arith,
          ap (λ (r : Registry W). length r.instances) h.registry,
          instances-add_instance name h.value m.registry,
          ap length h.pending,
          length-delete_present name m.pending differ there,
        );
      }

  abbrev IsListed : Manager W → PendingProvider → Type 0
  IsListed m p = is_pending p.config.name m ≡ true

  module _ (ip_family : String → Option Family)
      (compile_regexp : String → Option (String → Bool)) where
    retry_provider-IsKept :
        (attempt : Attempt W) (p : PendingProvider) (m : Manager W)
        → IsWellFormed m
        → IsDisjoint m
        → IsListed m p
        → IsKept m (retry_provider ip_family compile_regexp attempt p m)
    retry_provider-IsKept attempt p m w apart there =
        elim (retry_provider-cases ip_family compile_regexp attempt p m w.consistent) [
          | inl h ↦ postponed-IsKept attempt p m _ apart there h
          | inr h ↦ recovered-IsKept attempt p m _ w.keys_differ apart there h
        ]

    -- The other providers are still listed.
    retry_provider-IsListed :
        (attempt : Attempt W) (p : PendingProvider) (m : Manager W) (ps : List PendingProvider)
        → IsWellFormed m
        → All (IsOther p.config.name) ps
        → All (IsListed m) ps
        → All (IsListed (retry_provider ip_family compile_regexp attempt p m)) ps
    retry_provider-IsListed attempt p m [] w others listed = tt
    retry_provider-IsListed attempt p m (q ∷ qs) w (other, others) (l, listed) = (
      (let differ : (p.config.name == q.config.name) ≡ false = ground (
        arith,
        other,
        eq_iff p.config.name q.config.name,
        eq_iff q.config.name p.config.name,
      ) in
          ap is_some
            (retry_provider-other ip_family compile_regexp attempt p m w.consistent q.config.name
              differ).1
          ∙ l),
      retry_provider-IsListed attempt p m qs w others listed,
    )

    retry_all-IsKept :
        (attempts : String → Attempt W) (ps : List PendingProvider) (m : Manager W)
        → IsWellFormed m
        → IsDisjoint m
        → NamesDiffer ps
        → All (IsListed m) ps
        → IsKept m (retry_all ip_family compile_regexp attempts ps m)
    unfolding retry_all
    retry_all-IsKept attempts [] m w apart differ listed = record {
      disjoint = apart;
      known = λ name. refl;
      total = refl;
    }
    retry_all-IsKept attempts (p ∷ ps) m w apart (others, differ) (l, listed) =
        let attempt = attempts p.config.name in
        let first = retry_provider-IsKept attempt p m w apart l in
        let rest =
          retry_all-IsKept attempts ps (retry_provider ip_family compile_regexp attempt p m)
            (retry_provider-IsWellFormed ip_family compile_regexp attempt p m w) first.disjoint
            differ (retry_provider-IsListed attempt p m ps w others listed) in
        record {
          disjoint = rest.disjoint;
          known = λ name. rest.known name ∙ first.known name;
          total = rest.total ∙ first.total;
        }

    -- A tick of the retry loop loses no provider and counts none twice: with no name both ready and
    -- pending before it, there is none after it, exactly the same names are ready or pending, and
    -- `TotalCount` is the same, whatever the pings answer.
    pub retry_pending_providers-keeps :
        (now : ℕ) (attempts : String → Attempt W) (m : Manager W)
        → IsWellFormed m
        → IsDisjoint m
        → IsDisjoint (retry_pending_providers ip_family compile_regexp now attempts m)
          × (total_count (retry_pending_providers ip_family compile_regexp now attempts m)
              ≡ total_count m)
          × ((name : String)
              → (is_ready name (retry_pending_providers ip_family compile_regexp now attempts m)
                  || is_pending name
                      (retry_pending_providers ip_family compile_regexp now attempts m))
                ≡ (is_ready name m || is_pending name m))
    unfolding retry_pending_providers
    retry_pending_providers-keeps now attempts m w apart =
        let kept =
          retry_all-IsKept attempts (due now m.pending) m w apart
            (due-NamesDiffer m.config now m.pending w.keys_differ w.entries)
            (All-imp (λ p held. ap is_some held) (due now m.pending)
              (due-IsHeld m.config now m.pending w.keys_differ w.entries)) in
        (kept.disjoint, kept.total, kept.known)
