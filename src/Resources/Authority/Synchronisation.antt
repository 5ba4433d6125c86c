-- ===== src/Resources/Authority/Synchronisation.antt =====
-- core/resource_authority/src/ResourceAuthority.ts: `syncFromHardwareInventory`. The units are what the
-- hardware inventory lists; the default order of `sort` is that of `compare` on texts.
use Prim.Native.Nat.{Ordering}
use Prim.Native.String.{◌++◌, compare}
use imip.Base.{ℕ, ◌-◌, Bool, true, false, String, List, [], ◌∷◌, Option, none, some}
use imip.Base.Dict.{get}
use imip.Base.Actions.{◌>>=◌, ◌>>◌, gets, return}
use imip.Resources.Types.{
  ResourceType, ResourceState, ResourceProfile, HardwareInventoryUnit, capacity_updated,
  sync_from_inventory, resource_registered, resource_available,
}
use imip.Resources.Candidates.{sort}
use imip.Resources.Authority.{
  ResourceAuthorityOptions, Method, upsert, publish, record_audit, transition_state,
}

unfoldable pub type_name : ResourceType → String
type_name ResourceType.cpu = "cpu"
type_name ResourceType.cpu_core = "cpu-core"
type_name ResourceType.cpu_pool = "cpu-pool"
type_name ResourceType.gpu = "gpu"
type_name ResourceType.gpu_memory = "gpu-memory"
type_name ResourceType.gpu_queue = "gpu-queue"
type_name ResourceType.asic = "asic"
type_name ResourceType.asic_hashboard = "asic-hashboard"
type_name ResourceType.memory = "memory"
type_name ResourceType.storage = "storage"
type_name ResourceType.cloud = "cloud"
type_name ResourceType.remote_worker = "remote-worker"
type_name ResourceType.cluster_node = "cluster-node"
type_name ResourceType.fleet = "fleet"

abbrev not_behind : String → String → Bool
not_behind s t = elim (compare s t) [ Ordering.gt ↦ false | _ ↦ true ]

abbrev or_old : Option String → Option String → Option String
or_old none old = old
or_old (some ref) old = some ref

unfoldable pub resource_id_of : HardwareInventoryUnit → String
unfolding type_name
resource_id_of unit = unit.hardware_id ++ ":" ++ type_name unit.resource_type

module _ (now : ℕ) (options : ResourceAuthorityOptions) where
  unfoldable pub discovered_profile : HardwareInventoryUnit → ResourceProfile
  unfolding resource_id_of sort
  discovered_profile unit = record {
    resource_id = resource_id_of unit;
    resource_type = unit.resource_type;
    hardware_id = unit.hardware_id;
    current_owner = none;
    requesting_authority = none;
    state = ResourceState.discovered;
    available_capacity = unit.maximum_capacity;
    reserved_capacity = 0;
    utilized_capacity = 0;
    maximum_capacity = unit.maximum_capacity;
    capability_refs = sort not_behind unit.capability_refs;
    health_status = unit.health_status;
    power_profile_ref = options.power_ref unit.hardware_id;
    thermal_profile_ref = options.thermal_ref unit.hardware_id;
    last_updated = now;
  }

  unfoldable pub updated_profile : HardwareInventoryUnit → ResourceProfile → ResourceProfile
  unfolding sort
  updated_profile unit existing = record existing {
    maximum_capacity = unit.maximum_capacity;
    capability_refs = sort not_behind unit.capability_refs;
    health_status = unit.health_status;
    power_profile_ref = or_old (options.power_ref unit.hardware_id) existing.power_profile_ref;
    thermal_profile_ref =
        or_old (options.thermal_ref unit.hardware_id) existing.thermal_profile_ref;
    available_capacity =
        unit.maximum_capacity - existing.reserved_capacity - existing.utilized_capacity;
    last_updated = now;
  }

  unfoldable pub sync_unit : HardwareInventoryUnit → Option ResourceProfile → Method ResourceProfile
  sync_unit unit none = do
    registered ←
        transition_state now (discovered_profile unit) ResourceState.registered
          "sync-from-inventory" "Resource Authority"
    current ←
        transition_state now registered ResourceState.available "inventory-registered"
          "Resource Authority"
    publish (resource_registered (resource_id_of unit))
    publish (resource_available (resource_id_of unit))
    record_audit now (resource_id_of unit) (sync_from_inventory unit.hardware_id unit.resource_type)
        none (some "Resource Authority")
    return current
  sync_unit unit (some existing) = do
    let updated = updated_profile unit existing
    upsert updated
    record_audit now (resource_id_of unit) (capacity_updated unit.maximum_capacity) none
        (some "Resource Authority")
    return updated

  unfoldable pub sync_units : List HardwareInventoryUnit → Method (List ResourceProfile)
  sync_units [] = return []
  sync_units (unit ∷ units) =
      let rest = sync_units units in
      (do
        existing ← gets (λ s. get (resource_id_of unit) s.registry)
        profile ← sync_unit unit existing
        more ← rest
        return (profile ∷ more))

  unfoldable pub sync_from_hardware_inventory :
      List HardwareInventoryUnit → Method (List ResourceProfile)
  sync_from_hardware_inventory units =
      sync_units (sort (λ a b. options.precedes a.hardware_id b.hardware_id) units)
