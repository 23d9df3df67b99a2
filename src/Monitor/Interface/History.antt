-- ===== src/Monitor/Interface/History.antt =====
-- What the calls of an `IdentityWatcher` (src/monitor/mod.rs) have registered, told by the calls
-- alone. A history holds the calls, the last one first.
use huntkey.Prelude.{Bool, false, ◌||◌, Option, none, some, List, [], ◌∷◌, ◌++◌, if◌then◌else◌}
use huntkey.Prelude.Bytes.{Bytes, bytes_eq}
use huntkey.Prelude.Members.{member}
use huntkey.Monitor.Handlers.Trace.{guardians, delegate}
use huntkey.Monitor.Interface.{Request, handle}

abbrev pub History : Type 0
History = List Request

-- The guardians registered for an identity, in the order of the registrations.
unfoldable pub guardians_of : History → Bytes → List Bytes
guardians_of [] i = []
guardians_of (handle (guardians j gs) ∷ h) i =
    let rest = guardians_of h i in if bytes_eq j i then rest ++ gs else rest
guardians_of (_ ∷ h) i = guardians_of h i

-- The delegate was registered for the identity.
unfoldable pub has_delegate : History → Bytes → Bytes → Bool
has_delegate [] i d = false
has_delegate (handle (delegate j x) ∷ h) i d =
    let rest = has_delegate h i d in if bytes_eq j i then rest || bytes_eq d x else rest
has_delegate (_ ∷ h) i d = has_delegate h i d

-- There is a guardian, and it was registered for the identity.
unfoldable pub has_guardian : History → Bytes → Option Bytes → Bool
has_guardian h i none = false
has_guardian h i (some g) = member g (guardians_of h i)
