-- ===== src/Provider/Manager/Retried.antt =====
-- What `retryProvider` does to the name that it retries, and to the other names.
use dnsweaver.Base.{
  String, ◌≡◌, refl, ap, ◌∙◌, Bool, false, Option, none, some, ◌⊎◌, inl, inr, ◌==◌, arith,
}
use dnsweaver.Base.Map.{lookup, insert, delete, lookup-insert, lookup-delete}
use dnsweaver.Provider.Failure.{Error}
use dnsweaver.Provider.Config.{Family}
use dnsweaver.Provider.Instance.{ProviderInstance}
use dnsweaver.Provider.Registry.{Registry, get, add_instance}
use dnsweaver.Provider.Registry.Bookkeeping.{IsConsistent}
use dnsweaver.Provider.Registry.Creation.{get-add_instance, lookup-add_instance}
use package.dnsweaver.Provider.Manager.{
  Manager, PendingProvider, Attempt, failed_again, notify, settle, retry_provider,
}
use package.dnsweaver.Provider.Manager.Attempts.{IsUnchanged, IsAttempted}
use package.dnsweaver.Provider.Manager.Invariant.{retry-IsAttempted}

module _ {W : Type 0} where
  -- The provider stays on the pending list, its retry counted.
  pub record IsPostponed (attempt : Attempt W) (p : PendingProvider) (m m' : Manager W)
      : Type 0 where
    pub error : Error
    pub registry : IsUnchanged m.registry m'.registry
    pub pending :
        m'.pending ≡ insert p.config.name (failed_again m.config attempt error p) m.pending
    pub config : m'.config ≡ m.config

  -- The provider is ready: it answered, is in the registry, and is not pending any more.
  pub record IsRecovered (attempt : Attempt W) (p : PendingProvider) (m m' : Manager W)
      : Type 0 where
    pub value : ProviderInstance W
    pub answers : attempt.ping value ≡ none
    pub new : lookup p.config.name m.registry.by_name ≡ none
    pub registry : m'.registry ≡ add_instance p.config.name value m.registry
    pub pending : m'.pending ≡ delete p.config.name m.pending
    pub notified : m'.notified ≡ notify m.config.notifies p.config.name (some value) m.notified
    pub config : m'.config ≡ m.config

  settle-cases :
      (attempt : Attempt W) (p : PendingProvider) (m : Manager W)
      (answer : Option Error × Registry W)
      → IsAttempted attempt p.config.name m.registry answer
      → IsPostponed attempt p m (settle attempt p answer m)
        ⊎ IsRecovered attempt p m (settle attempt p answer m)
  unfolding settle
  settle-cases attempt p m (some e, r') (inr (succeeded, _, _, _, _)) = absurd (ground arith)
  settle-cases attempt p m (some e, r') (inl (_, unchanged)) =
      inl (record { error = e; registry = unchanged; pending = refl; config = refl })
  settle-cases attempt p m (none, r') (inl (failed, _)) = absurd (ground arith)
  settle-cases attempt p m (none, r') (inr (_, new, pi, answers, same)) = inr (record {
    value = pi;
    answers = answers;
    new = new;
    registry = same;
    pending = refl;
    notified =
        ap (λ found. notify m.config.notifies p.config.name found m.notified)
          (ap (get p.config.name) same ∙ get-add_instance p.config.name pi m.registry);
    config = refl;
  })

  -- the name is as it was
  abbrev pub IsSameAt : String → Manager W → Manager W → Type 0
  IsSameAt name m m' =
      (lookup name m'.registry.by_name ≡ lookup name m.registry.by_name)
      × (lookup name m'.pending ≡ lookup name m.pending)

  module _ (ip_family : String → Option Family) (compile_regexp : String → Option (String → Bool))
      (attempt : Attempt W) (p : PendingProvider) (m : Manager W)
      (c : IsConsistent m.registry) where
    pub retry_provider-cases :
        IsPostponed attempt p m (retry_provider ip_family compile_regexp attempt p m)
        ⊎ IsRecovered attempt p m (retry_provider ip_family compile_regexp attempt p m)
    unfolding retry_provider
    retry_provider-cases =
        settle-cases attempt p m _
          (retry-IsAttempted ip_family compile_regexp attempt p.config m.registry c)

    pub retry_provider-other :
        (name : String)
        → (p.config.name == name) ≡ false
        → IsSameAt name m (retry_provider ip_family compile_regexp attempt p m)
    retry_provider-other name differ = elim retry_provider-cases [
      | inl h ↦ (
        (let (n, _, same) = h.registry in ap (λ (r : Registry W). lookup name r.by_name) same),
        ap (lookup name) h.pending
            ∙ lookup-insert p.config.name name (failed_again m.config attempt h.error p) m.pending
            ∙ ground (arith, differ),
      )
      | inr h ↦ (
        ap (λ (r : Registry W). lookup name r.by_name) h.registry
            ∙ lookup-add_instance name p.config.name h.value m.registry differ,
        ap (lookup name) h.pending
            ∙ lookup-delete p.config.name name m.pending
            ∙ ground (arith, differ),
      )
    ]
