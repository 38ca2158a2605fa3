-- ===== src/Provider/Failure.antt =====
-- pkg/provider/errors.go. An error is the sentinel that `errors.Is` finds in its chain, if any, and
-- its message. `nil` is `none`.
use dnsweaver.Base.{String, Bool, true, false}

pub data ErrorKind : Type 0 where
  not_found conflict type_conflict unauthorized provider_unavailable unclassified : ErrorKind

pub record Error : Type 0 where
  pub kind : ErrorKind
  pub message : String

pub data Result {ℓ} (A : Type ℓ) : Type ℓ where
  ok : A → Result A
  err : Error → Result A

abbrev kind_is_not_found : ErrorKind → Bool
kind_is_not_found not_found = true
kind_is_not_found _ = false

abbrev kind_is_conflict : ErrorKind → Bool
kind_is_conflict conflict = true
kind_is_conflict _ = false

abbrev kind_is_type_conflict : ErrorKind → Bool
kind_is_type_conflict type_conflict = true
kind_is_type_conflict _ = false

unfoldable pub is_not_found : Error → Bool
is_not_found e = kind_is_not_found e.kind

unfoldable pub is_conflict : Error → Bool
is_conflict e = kind_is_conflict e.kind

unfoldable pub is_type_conflict : Error → Bool
is_type_conflict e = kind_is_type_conflict e.kind
