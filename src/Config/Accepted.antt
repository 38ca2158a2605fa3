-- ===== src/Config/Accepted.antt =====
-- internal/config/validate.go: what a configuration without errors is like.
use dnsweaver.Base.{
  String, ◌≡◌, refl, Bool, Bool-cases, inl, inr, true, false, not, ◌&&◌, ◌||◌, Option, none, some,
  List, [], ◌∷◌, ◌++◌, ◌==◌, contains, All, All-imp, arith,
}
use dnsweaver.Provider.Config as provider
use dnsweaver.Provider.Config.{fits_type}
use dnsweaver.Provider.Record.{RecordType}
use package.dnsweaver.Config.{InstanceConfig, Config, ConfigError}
use package.dnsweaver.Config.Validation.{
  validate_config, duplicate_names, each_instance, validate_target_record_type, address_error,
  mode_errors, validate_global, validate_domain_patterns,
}

-- No two of the instances have the same name.
abbrev pub AreDistinct : List InstanceConfig → Type 0
AreDistinct [] = Unit
AreDistinct (i ∷ is) = All (λ j. (i.name == j.name) ≡ false) is × AreDistinct is

-- The target is an address of the family, or a name, as the type of the records asks for, or it is
-- left to be found at run time.
abbrev pub TargetFits : (String → Option provider.Family) → InstanceConfig → Type 0
TargetFits ip_family i =
    (not (i.target_mode == "") && (i.target == "") || fits_type ip_family i.record_type i.target)
    ≡ true

append_nil : {A : Type 0} (xs ys : List A) → xs ++ ys ≡ [] → (xs ≡ []) × (ys ≡ [])
append_nil [] ys e = (refl, e)
append_nil (x ∷ xs) ys e = ground (arith, e)

each_instance_nil :
    (f : InstanceConfig → List ConfigError) (is : List InstanceConfig)
    → each_instance f is ≡ []
    → All (λ i. f i ≡ []) is
unfolding each_instance
each_instance_nil f [] e = tt
each_instance_nil f (i ∷ is) e =
    let (first, rest) = append_nil (f i) (each_instance f is) e in
    (first, each_instance_nil f is rest)

duplicate_names_nil :
    (seen : List String) (is : List InstanceConfig)
    → duplicate_names seen is ≡ []
    → All (λ i. contains i.name seen ≡ false) is × AreDistinct is
unfolding duplicate_names
duplicate_names_nil seen [] e = (tt, tt)
duplicate_names_nil seen (i ∷ is) e = elim (Bool-cases (contains i.name seen)) [
  | inl there ↦ ground (arith, e, there)
  | inr new ↦
      let e' : duplicate_names (i.name ∷ seen) is ≡ [] = ground (arith, e, new) in
      let (unseen, distinct) = duplicate_names_nil (i.name ∷ seen) is e' in
      (
        (new, All-imp (λ j h. ground (arith, h)) is unseen),
        (All-imp (λ j h. ground (arith, h)) is unseen, distinct),
      )
]

family_error_nil :
    (i : InstanceConfig) (t : RecordType) (family : Option provider.Family)
    → address_error (record i { record_type = t }) family ≡ []
    → fits_type (λ _. family) t i.target ≡ true
unfolding fits_type
family_error_nil i RecordType.a none e = ground (arith, e)
family_error_nil i RecordType.a (some provider.ipv4) e = refl
family_error_nil i RecordType.a (some provider.ipv6) e = ground (arith, e)
family_error_nil i RecordType.aaaa none e = ground (arith, e)
family_error_nil i RecordType.aaaa (some provider.ipv4) e = ground (arith, e)
family_error_nil i RecordType.aaaa (some provider.ipv6) e = refl
family_error_nil i RecordType.cname none e = refl
family_error_nil i RecordType.cname (some _) e = ground (arith, e)
family_error_nil i _ family e = refl

fits_type_const :
    (ip_family : String → Option provider.Family) (t : RecordType) (target : String)
    → fits_type (λ _. ip_family target) t target ≡ fits_type ip_family t target
unfolding fits_type
fits_type_const ip_family RecordType.a target = refl
fits_type_const ip_family RecordType.aaaa target = refl
fits_type_const ip_family RecordType.cname target = refl
fits_type_const ip_family _ target = refl

validate_target_record_type-TargetFits :
    (ip_family : String → Option provider.Family) (i : InstanceConfig)
    → validate_target_record_type ip_family i ≡ []
    → TargetFits ip_family i
unfolding validate_target_record_type
validate_target_record_type-TargetFits ip_family i e =
    let address = family_error_nil i i.record_type (ip_family i.target) in
    ground (
      arith,
      e,
      address,
      fits_type_const ip_family i.record_type i.target,
      append_nil (mode_errors i) (address_error i (ip_family i.target)),
    )

-- If the validation finds no error, whatever the addresses and expressions are, no two instances have
-- the same name, and each target fits the type of the instance's records or is left to be found.
pub validate_config_accepted :
    (ip_family : String → Option provider.Family) (compiles : String → Bool) (cfg : Config)
    → validate_config ip_family compiles cfg ≡ []
    → AreDistinct cfg.provider_instances × All (TargetFits ip_family) cfg.provider_instances
unfolding validate_config
validate_config_accepted ip_family compiles cfg e =
    let insts = cfg.provider_instances in
    let global = validate_global cfg.global in
    let names = duplicate_names [] insts in
    let targets = each_instance (validate_target_record_type ip_family) insts in
    let patterns = each_instance (validate_domain_patterns compiles) insts in
    let (e1, _) = append_nil ((global ++ names) ++ targets) patterns e in
    let (e2, no_targets) = append_nil (global ++ names) targets e1 in
    let (_, no_names) = append_nil global names e2 in
    (
      (duplicate_names_nil [] insts no_names).1,
      All-imp (validate_target_record_type-TargetFits ip_family) insts
          (each_instance_nil (validate_target_record_type ip_family) insts no_targets),
    )
