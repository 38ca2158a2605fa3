-- ===== src/Reconciler/Startup/Recovered.antt =====
-- What is known after the recovery at startup.
use dnsweaver.Base.{
  String, ◌≡◌, true, ◌||◌, ◌==◌, eq_refl, eq_iff, List, [], ◌∷◌, arith, if◌then◌else◌, contains,
  All,
}
use dnsweaver.Base.Map.{Map, insert, lookup-insert}
use dnsweaver.Hostname.{normalize_hostname}
use dnsweaver.Provider.Failure.{Result, ok, err}
use dnsweaver.Provider.Instance.{ProviderInstance, RecoveredHostname, name, recover_owned_hostnames}
use dnsweaver.Reconciler.Env.{append_unique}
use dnsweaver.Provider.Interface.{System, ◌>>=◌}
use dnsweaver.Reconciler.Startup.{
  Recovery, providers_of, note_recovered, note_all, note_answer, recover_each,
}

-- The hostname is known, and the provider is among its providers.
abbrev pub IsTracked : Recovery → String → String → Type 0
IsTracked r provider h =
    (contains h r.known ≡ true) × (contains provider (providers_of h r.providers) ≡ true)

contains-append_unique :
    (vs : List String) (v x : String)
    → contains x (append_unique vs v) ≡ (contains x vs || (v == x))
unfolding append_unique
contains-append_unique [] v x = ground arith
contains-append_unique (y ∷ vs) v x =
    ground (arith, eq_iff y v, eq_iff y x, eq_iff v x, contains-append_unique vs v x)

providers_of-insert :
    (k h : String) (ps : List String) (m : Map (List String))
    → providers_of h (insert k ps m) ≡ (if k == h then ps else providers_of h m)
providers_of-insert k h ps m = ground (arith, lookup-insert k h ps m)

-- Noting a hostname keeps what is tracked.
note_recovered-keeps :
    (provider p h : String) (r : Recovery) (rh : RecoveredHostname)
    → IsTracked r p h
    → IsTracked (note_recovered provider r rh) p h
unfolding note_recovered
note_recovered-keeps provider p h r rh (known, routed) =
    let k = normalize_hostname rh.hostname in
    let ps = append_unique (providers_of k r.providers) provider in
    let k1 = contains-append_unique r.known k h in
    let k2 = contains-append_unique (providers_of k r.providers) provider p in
    let k3 = providers_of-insert k h ps r.providers in
    let k4 = eq_iff k h in ground (arith, known, routed, k1, k2, k3, k4)

note_recovered-tracks :
    (provider : String) (r : Recovery) (rh : RecoveredHostname)
    → IsTracked (note_recovered provider r rh) provider (normalize_hostname rh.hostname)
unfolding note_recovered
note_recovered-tracks provider r rh =
    let k = normalize_hostname rh.hostname in
    let ps = append_unique (providers_of k r.providers) provider in
    let k1 = contains-append_unique r.known k k in
    let k2 = contains-append_unique (providers_of k r.providers) provider provider in
    let k3 = providers_of-insert k k ps r.providers in
    let k4 = eq_refl k in let k5 = eq_refl provider in ground (arith, k1, k2, k3, k4, k5)

note_all-keeps :
    (provider p h : String) (r : Recovery) (rhs : List RecoveredHostname)
    → IsTracked r p h
    → IsTracked (note_all provider r rhs) p h
unfolding note_all
note_all-keeps provider p h r [] t = t
note_all-keeps provider p h r (rh ∷ rhs) t =
    note_all-keeps provider p h (note_recovered provider r rh) rhs
      (note_recovered-keeps provider p h r rh t)

note_all-tracks :
    (provider : String) (r : Recovery) (rhs : List RecoveredHostname)
    → All (λ rh. IsTracked (note_all provider r rhs) provider (normalize_hostname rh.hostname)) rhs
unfolding note_all
note_all-tracks provider r [] = tt
note_all-tracks provider r (rh ∷ rhs) = (
  note_all-keeps provider provider (normalize_hostname rh.hostname) (note_recovered provider r rh)
      rhs (note_recovered-tracks provider r rh),
  note_all-tracks provider (note_recovered provider r rh) rhs,
)

module _ {W : Type 0} where
  note_answer-keeps :
      (inst : ProviderInstance W) (answer : Result (List RecoveredHostname)) (p h : String)
      (r : Recovery)
      → IsTracked r p h
      → IsTracked (note_answer inst answer r) p h
  unfolding note_answer
  note_answer-keeps inst (err e) p h r t = t
  note_answer-keeps inst (ok rhs) p h r t = note_all-keeps (name inst) p h r rhs t

  recover_each-keeps :
      (insts : List (ProviderInstance W)) (p h : String) (r : Recovery) (s : System W)
      → IsTracked r p h
      → IsTracked (recover_each insts r s).0.0 p h
  unfolding recover_each ◌>>=◌
  recover_each-keeps [] p h r s t = t
  recover_each-keeps (inst ∷ insts) p h r s t =
      let (answer, s') = recover_owned_hostnames inst s in
      recover_each-keeps insts p h (note_answer inst answer r) s'
        (note_answer-keeps inst answer p h r t)

  -- All hostnames of the answer, if there is one, are tracked with the provider.
  abbrev IsCovered : Recovery → ProviderInstance W → Result (List RecoveredHostname) → Type 0
  IsCovered r inst (err e) = Unit
  IsCovered r inst (ok rhs) =
      All (λ rh. IsTracked r (name inst) (normalize_hostname rh.hostname)) rhs

  -- what a provider answers, in the state in which it is asked, and for the ones after it
  abbrev pub AreCovered : Recovery → List (ProviderInstance W) → Recovery → System W → Type 0
  AreCovered final [] r s = Unit
  AreCovered final (inst ∷ insts) r s =
      IsCovered final inst (recover_owned_hostnames inst s).0
      × AreCovered final insts (note_answer inst (recover_owned_hostnames inst s).0 r)
          (recover_owned_hostnames inst s).1

  All-keeps :
      (insts : List (ProviderInstance W)) (p : String) (r : Recovery) (s : System W)
      (rhs : List RecoveredHostname)
      → All (λ rh. IsTracked r p (normalize_hostname rh.hostname)) rhs
      → All (λ rh. IsTracked (recover_each insts r s).0.0 p (normalize_hostname rh.hostname)) rhs
  All-keeps insts p r s [] ts = tt
  All-keeps insts p r s (rh ∷ rhs) (t, ts) = (
    recover_each-keeps insts p (normalize_hostname rh.hostname) r s t,
    All-keeps insts p r s rhs ts,
  )

  covered :
      (inst : ProviderInstance W) (insts : List (ProviderInstance W))
      (answer : Result (List RecoveredHostname)) (r : Recovery) (s : System W)
      → IsCovered (recover_each insts (note_answer inst answer r) s).0.0 inst answer
  unfolding note_answer
  covered inst insts (err e) r s = tt
  covered inst insts (ok rhs) r s =
      All-keeps insts (name inst) (note_all (name inst) r rhs) s rhs
        (note_all-tracks (name inst) r rhs)

  -- After the recovery over a list of providers, every hostname that one of them answered is known
  -- under its canonical name, with that provider among its providers; a provider that fails does
  -- not take away what the others answered.
  pub recover_each-tracks :
      (insts : List (ProviderInstance W)) (r : Recovery) (s : System W)
      → AreCovered (recover_each insts r s).0.0 insts r s
  unfolding recover_each ◌>>=◌
  recover_each-tracks [] r s = tt
  recover_each-tracks (inst ∷ insts) r s =
      let (answer, s') = recover_owned_hostnames inst s in
      (covered inst insts answer r s', recover_each-tracks insts (note_answer inst answer r) s')
