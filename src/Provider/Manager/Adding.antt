-- ===== src/Provider/Manager/Adding.antt =====
-- A configuration that `InitializeProvider` accepts.
use dnsweaver.Base.{
  suc, String, ◌≡◌, refl, ap, ◌∙◌, Bool, true, false, ◌||◌, Option, none, some, is_some, length,
  inl, inr, ◌==◌, eq_iff, eq_refl, arith,
}
use dnsweaver.Base.Map.{lookup, lookup-insert}
use dnsweaver.Base.Map.Keys.{length-insert_absent}
use dnsweaver.Provider.Failure.{Error}
use dnsweaver.Provider.Config.{Family, ProviderInstanceConfig, validate}
use dnsweaver.Provider.Registry.{Registry}
use dnsweaver.Provider.Registry.Creation.{
  instances-add_instance, lookup-add_instance, lookup-add_instance_same,
}
use package.dnsweaver.Provider.Manager.{
  Manager, Attempt, first_failure, initialized, total_count, initialize_provider,
}
use package.dnsweaver.Provider.Manager.Attempts.{IsAttempted}
use package.dnsweaver.Provider.Manager.Invariant.{
  IsWellFormed, retry-IsAttempted, initialize_provider-valid,
}
use package.dnsweaver.Provider.Manager.Retrying.{is_ready, is_pending, IsDisjoint}

module _ {W : Type 0} where
  -- One more provider, ready or pending but not both.
  abbrev IsOneMore : String → Manager W → Manager W → Type 0
  IsOneMore name m m' =
      IsDisjoint m'
      × (total_count m' ≡ suc (total_count m))
      × ((is_ready name m' || is_pending name m') ≡ true)

  module _ (attempt : Attempt W) (cfg : ProviderInstanceConfig) (m : Manager W)
      (apart : IsDisjoint m) (new : is_ready cfg.name m ≡ false)
      (waits : is_pending cfg.name m ≡ false) where
    initialized-IsOneMore :
        (answer : Option Error × Registry W)
        → IsAttempted attempt cfg.name m.registry answer
        → IsOneMore cfg.name m (initialized attempt cfg answer m)
    unfolding initialized
    initialized-IsOneMore (none, r') (inl (failed, _)) = absurd (ground arith)
    initialized-IsOneMore (some e, r') (inr (succeeded, _, _, _, _)) = absurd (ground arith)
    initialized-IsOneMore (some e, r') (inl (_, (n, _, same))) =
        let p = first_failure m.config attempt (some e) cfg in
        let names = ap (λ (r : Registry W). r.by_name) same in
        let found = λ (name : String). lookup-insert cfg.name name p m.pending in
        (
          (λ name pending.
              ground (arith, names, found name, apart name, new, eq_iff cfg.name name)),
          omega (
            arith,
            ap (λ (r : Registry W). length r.instances) same,
            length-insert_absent cfg.name p m.pending waits,
          ),
          ground (arith, found cfg.name, eq_refl cfg.name),
        )
    initialized-IsOneMore (none, r') (inr (_, _, pi, _, same)) =
        let here : is_some (lookup cfg.name r'.by_name) ≡ true =
          ap (λ (r : Registry W). is_some (lookup cfg.name r.by_name)) same
          ∙ lookup-add_instance_same cfg.name pi m.registry in
        let others : (name : String)
            → (cfg.name == name) ≡ false
            → lookup name r'.by_name ≡ lookup name m.registry.by_name =
          λ name other.
            ap (λ (r : Registry W). lookup name r.by_name) same
            ∙ lookup-add_instance name cfg.name pi m.registry other in
        (
          (λ name pending. ground (arith, others name, apart name, waits, eq_iff cfg.name name)),
          omega (
            arith,
            ap (λ (r : Registry W). length r.instances) same,
            instances-add_instance cfg.name pi m.registry,
          ),
          ground (arith, here),
        )

    -- A valid configuration with a name that is neither ready nor pending is accepted without an
    -- error, whether or not its server answers: `TotalCount` grows by one, the provider is ready or
    -- pending, and still no name is both.
    pub initialize_provider-adds :
        (ip_family : String → Option Family) (compile_regexp : String → Option (String → Bool))
        → IsWellFormed m
        → validate ip_family cfg ≡ none
        → ((initialize_provider ip_family compile_regexp attempt cfg m).0 ≡ none)
          × IsDisjoint (initialize_provider ip_family compile_regexp attempt cfg m).1
          × (total_count (initialize_provider ip_family compile_regexp attempt cfg m).1
              ≡ suc (total_count m))
          × ((is_ready cfg.name (initialize_provider ip_family compile_regexp attempt cfg m).1
                || is_pending cfg.name
                    (initialize_provider ip_family compile_regexp attempt cfg m).1)
              ≡ true)
    initialize_provider-adds ip_family compile_regexp w valid =
        let more =
          initialized-IsOneMore _
            (retry-IsAttempted ip_family compile_regexp attempt cfg m.registry w.consistent) in
        rw (initialize_provider-valid ip_family compile_regexp attempt cfg m valid)
          (refl, more.0, more.1, more.2)
