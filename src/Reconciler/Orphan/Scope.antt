-- ===== src/Reconciler/Orphan/Scope.antt =====
-- What orphan cleanup may delete, over all providers and modes.
use dnsweaver.Base.{String, ◌≡◌, sym, subst, Option, List, [], All}
use dnsweaver.Provider.Interface.{Call, System}
use dnsweaver.Reconciler.Cache.{RecordCache}
use dnsweaver.Reconciler.Env.{Env}
use dnsweaver.Reconciler.Orphan.{cleanup_orphans}
use dnsweaver.Reconciler.Orphan.Calls.{Touches, IsOrphan, cleanup_orphans-calls}

-- A listing, or the delete of a record or of the ownership marker of an orphaned hostname.
abbrev pub IsCleanup : List String → List String → Call → Type 0
IsCleanup current known (Call.list n) = Unit
IsCleanup current known (Call.delete n r) = (h : String) × IsOrphan current known h × Touches h r
IsCleanup current known (Call.create n r) = ⊥
IsCleanup current known (Call.update n x y) = ⊥

-- Orphan cleanup creates and updates nothing, and each record that it deletes has as its name a
-- hostname that was known and is no longer there, or the name of that hostname's ownership marker.
pub cleanup_orphans-IsCleanup :
    {W : Type 0} (env : Env W) (cache : Option RecordCache) (current : List String) (s : System W)
    → s.calls ≡ []
    → All (IsCleanup current s.known_hostnames) (cleanup_orphans env cache current s).1.calls
cleanup_orphans-IsCleanup env cache current s empty =
    cleanup_orphans-calls env cache current s (IsCleanup current s.known_hostnames) (λ n. tt)
      (λ d h o n r t. (h, o, t)) (subst (All _) (sym empty) tt)
