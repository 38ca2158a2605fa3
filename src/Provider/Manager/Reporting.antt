-- ===== src/Provider/Manager/Reporting.antt =====
-- The status report of a provider manager.
use dnsweaver.Base.{
  suc, String, ◌≡◌, refl, ap, Option, some, List, [], ◌∷◌, ◌++◌, length, length-append, map, arith,
  All, Bool, Option-cases, inl, inr,
}
use dnsweaver.Base.Map.{Map}
use dnsweaver.Provider.Config.{Family}
use dnsweaver.Provider.Registry.{Registry, all}
use dnsweaver.Provider.Registry.Bookkeeping.{IsConsistent}
use package.dnsweaver.Provider.Manager.{
  Manager, ManagerConfig, PendingProvider, ProviderStatus, new_manager, pending_statuses,
  ready_status, all_provider_statuses, total_count,
}
use package.dnsweaver.Provider.Manager.Invariant.{IsEntry}
use package.dnsweaver.Provider.Manager.Steps.{Reach, reach-IsWellFormed}

length-map : {A B : Type 0} (f : A → B) (xs : List A) → length (map f xs) ≡ length xs
length-map f [] = refl
length-map f (x ∷ xs) = ap suc (length-map f xs)

-- An error has a text.
abbrev IsReported : Map PendingProvider → Option (List ProviderStatus) → Type 0
IsReported m answer =
    (statuses : List ProviderStatus) × (answer ≡ some statuses) × (length statuses ≡ length m)

pending_statuses-IsReported :
    (config : ManagerConfig) (m : Map PendingProvider)
    → All (IsEntry config) m
    → IsReported m (pending_statuses m)
unfolding pending_statuses
pending_statuses-IsReported config [] es = ([], refl, refl)
pending_statuses-IsReported config ((j, p) ∷ m) ((_, waiting), es) =
    elim (Option-cases p.last_error) [
      | inl missing ↦ absurd (ground (arith, missing, waiting.has_error))
      | inr (e, there) ↦
          let (statuses, same, size) = pending_statuses-IsReported config m es in
          rw (pending_statuses, there, same) (_, refl, ap suc size)
    ]

module _ {W : Type 0} (ip_family : String → Option Family)
    (compile_regexp : String → Option (String → Bool)) where
  -- In every run of a manager that starts on a consistent registry, `AllProviderStatuses` returns a
  -- report: it calls `Error()` on no nil error, and it has one entry for each ready and each pending
  -- provider.
  pub all_provider_statuses-total :
      {m : Manager W} (r : Registry W) (config : ManagerConfig)
      → IsConsistent r
      → Reach ip_family compile_regexp (new_manager r config) m
      → (statuses : List ProviderStatus) × (all_provider_statuses m ≡ some statuses)
        × (length statuses ≡ total_count m)
  unfolding all_provider_statuses all
  all_provider_statuses-total {m} r config c reach =
      let w = reach-IsWellFormed ip_family compile_regexp r config c reach in
      let (statuses, same, size) = pending_statuses-IsReported m.config m.pending w.entries in
      let ready = map ready_status (all m.registry) in
      (
        ready ++ statuses,
        rw (all_provider_statuses, same) refl,
        omega (
          arith,
          length-append ready statuses,
          size,
          length-map ready_status (all m.registry),
          length-map (λ slot. slot.value) m.registry.instances,
        ),
      )
