-- ===== src/Provider/Interface.antt =====
-- The interface `Provider` of pkg/provider/provider.go, with `Updater` and `Identifiable`, and the
-- state that an operation on a provider reads and changes. What the providers hold is an abstract
-- store `W`; every call of a provider is put in front of the list of calls. The other fields are
-- those of `Reconciler` (internal/reconciler/reconciler.go) that change as it runs.
pub mod Issues
use dnsweaver.Base.{String, Option, none, some, List, ◌∷◌}
use dnsweaver.Base.Map.{Map}
use dnsweaver.Provider.Record.{Record, Capabilities}
use dnsweaver.Provider.Failure.{Error, Result}

pub record ProviderIdentity : Type 0 where
  pub type : String
  pub endpoint : String
  pub zone : String

-- `update` is there if the provider implements `Updater`, `identity` if it is `Identifiable`.
pub record Provider (W : Type 0) : Type 0 where
  pub name : String
  pub type : String
  pub capabilities : Capabilities
  pub list : W → Result (List Record) × W
  pub create : Record → W → Option Error × W
  pub delete : Record → W → Option Error × W
  pub update : Option (Record → Record → W → Option Error × W)
  pub identity : Option ProviderIdentity

-- `IdentityOf`
pub identity_of : {W : Type 0} → Provider W → ProviderIdentity
identity_of p = elim p.identity [
  | none ↦ record { type = p.type; endpoint = ""; zone = "" }
  | some identity ↦ identity
]

-- A call that was made, with the name of the provider.
pub data Call : Type 0 where
  list : String → Call
  create : String → Record → Call
  delete : String → Record → Call
  update : String → Record → Record → Call

pub record System (W : Type 0) : Type 0 where
  pub store : W
  pub calls : List Call
  pub known_hostnames : List String
  pub hostname_providers : Map (List String)
  pub recovered_metadata : Option (Map (Map String))

-- A step of the program.
abbrev pub M : Type 0 → Type 0 → Type 0
M W A = System W → A × System W

module _ {W A : Type 0} where
  abbrev pub pure : A → M W A
  pure x s = (x, s)

  abbrev pub gets : (System W → A) → M W A
  gets f s = (f s, s)

module _ {W A B : Type 0} where
  infixl 5 ◌>>=◌ ◌>>◌
  unfoldable pub ◌>>=◌ : M W A → (A → M W B) → M W B
  ◌>>=◌ m f s = let (x, s') = m s in f x s'

  abbrev pub ◌>>◌ : M W A → M W B → M W B
  m >> n = m >>= λ _. n

module _ {W : Type 0} where
  -- the operations of a provider, recorded
  unfoldable pub call_list : Provider W → M W (Result (List Record))
  call_list p s =
      let (r, w) = p.list s.store in (r, record s { store = w; calls = Call.list p.name ∷ s.calls })

  unfoldable pub call_create : Provider W → Record → M W (Option Error)
  call_create p x s =
      let (r, w) = p.create x s.store in
      (r, record s { store = w; calls = Call.create p.name x ∷ s.calls })

  unfoldable pub call_delete : Provider W → Record → M W (Option Error)
  call_delete p x s =
      let (r, w) = p.delete x s.store in
      (r, record s { store = w; calls = Call.delete p.name x ∷ s.calls })

  unfoldable pub call_update :
      Provider W → (Record → Record → W → Option Error × W) → Record → Record → M W (Option Error)
  call_update p f x y s =
      let (r, w) = f x y s.store in
      (r, record s { store = w; calls = Call.update p.name x y ∷ s.calls })
