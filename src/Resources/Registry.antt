-- ===== src/Resources/Registry.antt =====
-- core/resource_authority/src/registry.ts. The order of `all` is that of `localeCompare`.
use imip.Base.{String, List, filter, includes, ◌===◌, Bool, decided, Result, or_throw}
use imip.Base.Dict.{Dict, get, put, delete, values}
use imip.Resources.Types.{
  ResourceType, ResourceState, ResourceProfile, ResourceError, resource_not_found,
}
use imip.Resources.Lifecycle.{ResourceState-discrete}
use imip.Resources.Candidates.{ResourceType-discrete, sort_candidates_by_resource_id}

abbrev pub Resources : Type 0
Resources = Dict ResourceProfile

unfoldable pub upsert : ResourceProfile → Resources → Resources
upsert profile resources = put profile.resource_id profile resources

unfoldable pub remove : String → Resources → Resources
remove resource_id resources = delete resource_id resources

unfoldable pub require : String → Resources → Result ResourceError ResourceProfile
require resource_id resources =
    or_throw (get resource_id resources) (resource_not_found resource_id)

module _ (precedes : String → String → Bool) (resources : Resources) where
  unfoldable pub all_profiles : List ResourceProfile
  unfolding sort_candidates_by_resource_id
  all_profiles = sort_candidates_by_resource_id precedes (values resources)

  unfoldable pub by_type : ResourceType → List ResourceProfile
  unfolding all_profiles
  by_type t = filter (λ p. decided (ResourceType-discrete p.resource_type t)) all_profiles

  unfoldable pub by_state : ResourceState → List ResourceProfile
  unfolding all_profiles
  by_state s = filter (λ p. decided (ResourceState-discrete p.state s)) all_profiles

  unfoldable pub by_hardware_id : String → List ResourceProfile
  unfolding all_profiles
  by_hardware_id id = filter (λ p. p.hardware_id === id) all_profiles

  unfoldable pub by_capability : String → List ResourceProfile
  unfolding all_profiles
  by_capability ref = filter (λ p. includes p.capability_refs ref) all_profiles
