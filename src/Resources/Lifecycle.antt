-- ===== src/Resources/Lifecycle.antt =====
-- core/resource_authority/src/lifecycle.ts.
use imip.Base.{Bool, true, ◌||◌, List, [], ◌∷◌, any, Result, ok, err, if◌then◌else◌, decided}
use imip.Resources.Types.{
  ResourceState, discovered, registered, available, reserved, allocated, active, released,
  unavailable, retired, ResourceError, illegal_state_transition,
}

unfoldable pub ResourceState-discrete : Discrete ResourceState
ResourceState-discrete = hlevel

unfoldable pub resource_state_transitions : ResourceState → List ResourceState
resource_state_transitions discovered = registered ∷ unavailable ∷ retired ∷ []
resource_state_transitions registered = available ∷ unavailable ∷ retired ∷ []
resource_state_transitions available = reserved ∷ allocated ∷ unavailable ∷ retired ∷ []
resource_state_transitions reserved = available ∷ allocated ∷ unavailable ∷ retired ∷ []
resource_state_transitions allocated = active ∷ released ∷ unavailable ∷ retired ∷ []
resource_state_transitions active = released ∷ unavailable ∷ retired ∷ []
resource_state_transitions released = available ∷ allocated ∷ unavailable ∷ retired ∷ []
resource_state_transitions unavailable = available ∷ registered ∷ retired ∷ []
resource_state_transitions retired = []

unfoldable pub reentry_edges : ResourceState → List ResourceState
reentry_edges released = available ∷ allocated ∷ []
reentry_edges available = reserved ∷ allocated ∷ []
reentry_edges _ = []

abbrev includes_state : List ResourceState → ResourceState → Bool
includes_state states to = any (λ s. decided (ResourceState-discrete s to)) states

unfoldable pub can_transition : ResourceState → ResourceState → Bool
unfolding resource_state_transitions reentry_edges ResourceState-discrete
can_transition from to =
    if decided (ResourceState-discrete from to)
    then true
    else includes_state (resource_state_transitions from) to
      || includes_state (reentry_edges from) to

unfoldable pub assert_resource_state_transition :
    ResourceState → ResourceState → Result ResourceError (Unit {0})
assert_resource_state_transition from to =
    if can_transition from to then ok tt else err (illegal_state_transition from to)
