-- ===== src/Reconciler/Route/Answers.antt =====
-- The actions that a hostname gets.
use dnsweaver.Reconciler.Ensure.{ensure_record_for_provider}
use dnsweaver.Base.{
  ap, ℕ, suc, String, ◌≡◌, refl, Option, none, some, List, [], ◌∷◌, length, if◌then◌else◌, ◌==◌,
  Bool-cases, inl, inr,
}
use dnsweaver.Hostname.{Hostname}
use dnsweaver.Provider.Interface.{System, ◌>>=◌}
use dnsweaver.Provider.Instance.{ProviderInstance}
use dnsweaver.Provider.Registry.{get, matching_providers_for_hostname}
use dnsweaver.Reconciler.Cache.{RecordCache}
use dnsweaver.Reconciler.Env.{Env}
use dnsweaver.Reconciler.Route.{
  ensure_all, ensure_matching, ensure_explicit, ensure_record, explicit_provider, writers,
}

module _ {W : Type 0} (env : Env W) (cache : Option RecordCache) (h : Hostname) where
  length-ensure_all :
      (insts : List (ProviderInstance W)) (s : System W)
      → length (ensure_all env cache h insts s).0 ≡ length insts
  unfolding ensure_all ◌>>=◌
  length-ensure_all [] s = refl
  length-ensure_all (inst ∷ insts) s =
      ap suc (length-ensure_all insts (ensure_record_for_provider env cache h inst s).1)

  -- how many actions there are: one for each writer, and one that says so if there is none
  abbrev pub expected : List (ProviderInstance W) → ℕ
  expected [] = 1
  expected (inst ∷ insts) = length (writers (inst ∷ insts))

  length-ensure_matching :
      (insts : List (ProviderInstance W)) (s : System W)
      → length (ensure_matching env cache h insts s).0 ≡ expected insts
  unfolding ensure_matching
  length-ensure_matching [] s = refl
  length-ensure_matching (inst ∷ insts) s = length-ensure_all (writers (inst ∷ insts)) s

  length-ensure_explicit :
      (target : String) (o : Option (ProviderInstance W)) (s : System W)
      → length (ensure_explicit env cache h target o s).0 ≡ 1
  unfolding ensure_explicit
  length-ensure_explicit target none s = refl
  length-ensure_explicit target (some inst) s = length-ensure_all (inst ∷ []) s

  -- A hostname that names a provider gets exactly one action; any other gets one for each instance
  -- that it is written to, or, if no instance claims it, one that says so.
  pub length-ensure_record :
      (s : System W)
      → length (ensure_record env cache h s).0 ≡ (
          if explicit_provider h.record_hints == ""
          then expected (matching_providers_for_hostname h.name h.metadata env.providers)
          else 1)
  unfolding ensure_record
  length-ensure_record s =
      let target = explicit_provider h.record_hints in
      let claiming = matching_providers_for_hostname h.name h.metadata env.providers in
      elim (Bool-cases (target == "")) [
        | inl e ↦ rw e (length-ensure_matching claiming s)
        | inr e ↦ rw e (length-ensure_explicit target (get target env.providers) s)
      ]
