-- ===== src/Provider/Manager/Attempts.antt =====
-- What one attempt to create and to ping a provider does to the registry.
use dnsweaver.Base.{
  ℕ, suc, ◌≤◌, String, ◌≡◌, refl, ap, sym, subst, ◌∙◌, true, Option, none, some, is_some, arith,
  ◌⊎◌, inl, inr,
}
use dnsweaver.Base.Map.{lookup}
use dnsweaver.Provider.Failure.{Error}
use dnsweaver.Provider.Config.{ProviderInstanceConfig}
use dnsweaver.Provider.Instance.{ProviderInstance}
use dnsweaver.Provider.Registry.{Registry, add_instance}
use dnsweaver.Provider.Registry.Bookkeeping.{IsConsistent}
use dnsweaver.Provider.Registry.Creation.{IsAddition, get-add_instance}
use dnsweaver.Provider.Registry.Undoing.{remove-add_instance}
use package.dnsweaver.Provider.Manager.{
  Manager, Attempt, pinged, ping_found, recheck, initialized, check_created,
}

module _ {W : Type 0} where
  -- The registry is the same, but addresses may have been used up.
  abbrev pub IsUnchanged : Registry W → Registry W → Type 0
  IsUnchanged r r' = (n : ℕ) × (r.next_address ≤ n) × (r' ≡ record r { next_address = n })

  -- The attempt failed and left the instances alone, or the instance answered and was added under a
  -- name that was not in use.
  abbrev pub IsAttempted : Attempt W → String → Registry W → Option Error × Registry W → Type 0
  IsAttempted attempt name r (e, r') =
      ((is_some e ≡ true) × IsUnchanged r r')
      ⊎ ((e ≡ none)
          × (lookup name r.by_name ≡ none)
          × (pi : ProviderInstance W) × (attempt.ping pi ≡ none)
          × (r' ≡ add_instance name pi r))

  module _ (attempt : Attempt W) (name : String) (r : Registry W) (c : IsConsistent r)
      (new : lookup name r.by_name ≡ none) where
    pinged-IsAttempted :
        (pi : ProviderInstance W) (answer : Option Error)
        → attempt.ping pi ≡ answer
        → IsAttempted attempt name r (pinged name answer (add_instance name pi r))
    unfolding pinged
    pinged-IsAttempted pi none e = inr (refl, new, pi, e, refl)
    pinged-IsAttempted pi (some e) _ =
        inl (refl, (suc r.next_address, omega arith, remove-add_instance name pi r new c))

    pub recheck-added :
        (pi : ProviderInstance W)
        → recheck attempt name (none, add_instance name pi r)
          ≡ pinged name (attempt.ping pi) (add_instance name pi r)
    unfolding recheck ping_found
    recheck-added pi = rw (get-add_instance name pi r) refl

  pub recheck-IsAttempted :
      (attempt : Attempt W) (name : String) (r : Registry W) (answer : Option Error × Registry W)
      → IsConsistent r
      → IsAddition name r answer
      → IsAttempted attempt name r (recheck attempt name answer)
  unfolding recheck
  recheck-IsAttempted attempt name r (some e, r') c (inl (failed, same)) =
      inl (refl, (r.next_address, omega arith, same))
  recheck-IsAttempted attempt name r (none, r') c (inl (failed, same)) = absurd (ground arith)
  recheck-IsAttempted attempt name r (e, r') c (inr (succeeded, new, pi, same)) =
      subst (λ answer. IsAttempted attempt name r (recheck attempt name answer))
        (sym (ap (λ e. (e, r')) succeeded ∙ ap (λ r. (none, r)) same))
        (subst (IsAttempted attempt name r) (sym (recheck-added attempt name r c new pi))
          (pinged-IsAttempted attempt name r c new pi (attempt.ping pi) refl))

  -- `InitializeProvider` makes the attempt that `retryProvider` makes: `Get` always finds the instance.
  pub check_created-recheck :
      (attempt : Attempt W) (cfg : ProviderInstanceConfig) (m : Manager W)
      (answer : Option Error × Registry W)
      → IsAddition cfg.name m.registry answer
      → check_created attempt cfg answer m
        ≡ initialized attempt cfg (recheck attempt cfg.name answer) m
  unfolding check_created recheck initialized
  check_created-recheck attempt cfg m (some e, r') added = refl
  check_created-recheck attempt cfg m (none, r') (inl (failed, same)) = absurd (ground arith)
  check_created-recheck attempt cfg m (none, r') (inr (succeeded, new, pi, same)) =
      rw (same, get-add_instance cfg.name pi m.registry) refl
