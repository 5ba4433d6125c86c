-- ===== src/Resources/Authority/Within/Runs.antt =====
-- No run of the authority overcommits a resource.
use imip.Base.{
  All, ℕ, ◌≤◌, ◌≡◌, ◌∙◌, refl, sym, ap, true, String, [], Option, some, ◌===◌, find, arith,
}
use imip.Base.Dict.{get}
use imip.Base.Keyed.{IsKeyed}
use imip.Resources.Types.{ResourceProfile, ReservationRequest, Allocation, AllocationRequest}
use imip.Resources.Availability.{is_running}
use imip.Resources.Authority.{ResourceAuthority, ResourceAuthorityOptions}
use imip.Resources.Authority.Requests.{request_reservation, request_allocation}
use imip.Resources.Authority.Releases.{activate, release, expire}
use imip.Resources.Authority.Within.{IsWithin, maximum_of}
use imip.Resources.Authority.Within.Taken.{taken_of}
use imip.Resources.Authority.Within.Forecasts.{IsOther, forecast_of, forecast-IsOther}
use imip.Resources.Authority.Within.Methods.{
  reserve-Keeps, allocate-Keeps, release-Keeps, expire-Keeps, activate-IsWithin,
}

-- A call of the authority, whether it returns or throws, other than a synchronisation.
pub data Step (options : ResourceAuthorityOptions) (s : ResourceAuthority)
    : ResourceAuthority → Type 0 where
  reserved :
      (now : ℕ) (fresh : String) (request : ReservationRequest)
      → Step options s (request_reservation now options fresh request s).0
  allocated :
      (now : ℕ) (fresh : String) (request : AllocationRequest)
      → Step options s (request_allocation now options fresh request s).0
  activated : (now : ℕ) (id authority : String) → Step options s (activate now id authority s).0
  released :
      (now : ℕ) (id reason authority : String) (a r : Option String)
      → Step options s (release now id reason authority a r s).0
  expired : (now : ℕ) → Step options s (expire now s).0

pub data Steps (options : ResourceAuthorityOptions) (s : ResourceAuthority)
    : ResourceAuthority → Type 0 where
  here : Steps options s s
  next : {t u : ResourceAuthority} → Steps options s t → Step options t u → Steps options s u

-- The calls that activate an allocation find one that is pending or active.
abbrev pub ActivatesRunning :
    {options : ResourceAuthorityOptions} {s t : ResourceAuthority} → Step options s t → Type 0
ActivatesRunning {s = s} (activated now id authority) =
    (a : Allocation) → find (λ b. b.id === id) s.allocations ≡ some a → is_running a.state ≡ true
ActivatesRunning (reserved now fresh request) = Unit
ActivatesRunning (allocated now fresh request) = Unit
ActivatesRunning (released now id reason authority a r) = Unit
ActivatesRunning (expired now) = Unit

abbrev pub EachActivatesRunning :
    {options : ResourceAuthorityOptions} {s t : ResourceAuthority} → Steps options s t → Type 0
EachActivatesRunning here = Unit
EachActivatesRunning (next steps step) = EachActivatesRunning steps × ActivatesRunning step

module _ (options : ResourceAuthorityOptions) (ceiling : String → Option ℕ) where
  Step-IsWithin :
      {s t : ResourceAuthority} (step : Step options s t)
      → ActivatesRunning step
      → IsWithin ceiling s
      → IsWithin ceiling t
  Step-IsWithin {s = s} (reserved now fresh request) runs w =
      (reserve-Keeps ceiling now options fresh request).keeps s w
  Step-IsWithin {s = s} (allocated now fresh request) runs w =
      (allocate-Keeps ceiling now options fresh request).keeps s w
  Step-IsWithin {s = s} (activated now id authority) runs w =
      activate-IsWithin ceiling now id authority s runs w
  Step-IsWithin {s = s} (released now id reason authority a r) runs w =
      (release-Keeps ceiling now id reason authority a r).keeps s w
  Step-IsWithin {s = s} (expired now) runs w = (expire-Keeps ceiling now).keeps s w

  Steps-IsWithin :
      {s t : ResourceAuthority}
      → IsWithin ceiling s
      → (steps : Steps options s t) → EachActivatesRunning steps
      → IsWithin ceiling t
  Steps-IsWithin w here runs = w
  Steps-IsWithin w (next steps step) runs =
      Step-IsWithin step runs.1 (Steps-IsWithin w steps runs.0)

-- From a registry that holds every profile under its id, with nothing reserved or allocated: whatever
-- calls follow, whether they return or throw, the active reservations and the running allocations of a
-- resource together stay within its maximum capacity, as long as only pending and active allocations are
-- activated. The calls are those for reservations and allocations, activate, release and the expiry of
-- reservations; the inventory is not synchronised again. So no forecast of the resource has the conflict
-- that more than its maximum is reserved and utilized.
pub no_overcommit :
    (options : ResourceAuthorityOptions) (s t : ResourceAuthority)
    → IsKeyed (λ p. p.resource_id) s.registry
    → s.reservations ≡ []
    → s.allocations ≡ []
    → (steps : Steps options s t) → EachActivatesRunning steps
    → (id : String) (p : ResourceProfile) → get id t.registry ≡ some p
    → (now : ℕ)
    → (taken_of t id ≤ p.maximum_capacity) × All IsOther (forecast_of t id p now).conflicts
no_overcommit options s t keyed no_reservations no_allocations steps runs id p e now =
    let w = Steps-IsWithin options (λ i. maximum_of (get i s.registry)) begin steps runs in
    let fits = w.within id p.maximum_capacity (sym (w.ceilings id) ∙ ap maximum_of e) in
    (fits, forecast-IsOther t id p now fits)
  where
    begin : IsWithin (λ i. maximum_of (get i s.registry)) s
    begin = record {
      keyed = keyed;
      ceilings = λ i. refl;
      within = λ i m c. rw (no_reservations, no_allocations) (omega arith);
    }
