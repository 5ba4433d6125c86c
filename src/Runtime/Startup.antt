-- ===== src/Runtime/Startup.antt =====
-- The loops of core/runtime_bootstrap/src/RuntimeOrchestrator.ts over the components: starting them,
-- verifying that they are ready, stopping them, tearing them down for a restart, and checking the
-- instances again for a recovery. `now` reads the clock of the world.
pub mod Order
use imip.Base.{
  ℕ, Bool, true, false, not, String, List, [], ◌∷◌, ◌++◌, Option, none, some, filter, includes,
  length, ltb, if◌then◌else◌, Result, ok, err,
}
use imip.Base.Dict
use imip.Base.Dict.{Dict, get, put}
use imip.Runtime.Types.{ComponentDefinition, ComponentFailure, Message, thrown, blocked_by, unready}
use imip.Runtime.Board.{
  Board, mark_created, mark_initializing, mark_initialized, mark_failed, mark_shutdown,
  record_restart, update_readiness, update_health, update_dependency_status,
}

-- `depMap`: a dependency without an instance is there, undefined.
unfoldable pub dep_map : {I : Type 0} → List String → Dict I → Dict (Option I) → Dict (Option I)
dep_map [] instances found = found
dep_map (dep ∷ deps) instances found = dep_map deps instances (put dep (get dep instances) found)

-- What the start loop works on. `initialized` stands for `componentsInitialized` and for the set
-- `initializedNames`, which hold the same names.
pub record Startup (W I : Type 0) : Type 0 where
  pub board : Board
  pub instances : Dict I
  pub world : W
  pub initialized : List String
  pub failures : List ComponentFailure

-- Before the start loop.
abbrev pub begin : {W I : Type 0} → Board → Dict I → W → Startup W I
begin board instances w = record {
  board = board;
  instances = instances;
  world = w;
  initialized = [];
  failures = [];
}

-- What the readiness loop works on.
pub record Verification : Type 0 where
  pub board : Board
  pub failures : List ComponentFailure

-- What the loops that stop components work on.
pub record Teardown (W : Type 0) : Type 0 where
  pub board : Board
  pub world : W
  pub failures : List ComponentFailure

-- After `shutdown` in the loop of `requestShutdown`.
unfoldable pub after_shutdown :
    {W : Type 0} → (W → ℕ) → String → W × Option String → Teardown W → Teardown W
after_shutdown now name (w, none) t = record t { world = w; board = mark_shutdown name t.board }
after_shutdown now name (w, some message) t = record {
  world = w;
  board = mark_failed name (thrown message) (now w) t.board;
  failures = t.failures ++ record { component = name; message = thrown message } ∷ [];
}

module _ {W I : Type 0} (now : W → ℕ) where
  unfoldable pub failed : String → Message → Startup W I → Startup W I
  failed name message s = record s {
    board = mark_failed name message (now s.world) s.board;
    failures = s.failures ++ record { component = name; message = message } ∷ [];
  }

  -- After `initialize`.
  unfoldable pub after_initialize : String → W × Option String → Startup W I → Startup W I
  unfolding failed
  after_initialize name (w, some message) s = failed name (thrown message) (record s { world = w })
  after_initialize name (w, none) s = record s {
    world = w;
    board = mark_initialized name (now w) s.board;
    initialized = s.initialized ++ name ∷ [];
  }

  -- After `create`.
  unfoldable pub after_create :
      ComponentDefinition W I
      → String
      → Dict (Option I)
      → W × Result String I
      → Startup W I
      → Startup W I
  unfolding failed
  after_create d name deps (w, err message) s =
      failed name (thrown message) (record s { world = w })
  after_create d name deps (w, ok instance_of) s =
      after_initialize name (d.initialize instance_of deps w) (record s {
        world = w;
        instances = put name instance_of s.instances;
        board = mark_initializing name s.board;
      })

  abbrev pub missing_deps : ComponentDefinition W I → Startup W I → List String
  missing_deps d s = filter (λ dep. not (includes s.initialized dep)) d.dependencies

  unfoldable pub start_known : ComponentDefinition W I → String → Startup W I → Startup W I
  unfolding failed after_create
  start_known d name s =
      let missing = missing_deps d s in
      let deps = dep_map d.dependencies s.instances [] in
      if ltb 0 (length missing)
      then failed name (blocked_by missing)
          (record s { board = update_dependency_status name false missing s.board })
      else after_create d name deps (d.create deps s.world) (record s {
        board = mark_created name (update_dependency_status name true missing s.board);
      })

  -- A name of the order is registered; for another nothing happens here.
  unfoldable pub start_one : Dict (ComponentDefinition W I) → String → Startup W I → Startup W I
  unfolding start_known
  start_one graph name s = elim (get name graph) [ none ↦ s | some d ↦ start_known d name s ]

  unfoldable pub start_all :
      Dict (ComponentDefinition W I) → List String → Startup W I → Startup W I
  start_all graph [] s = s
  start_all graph (name ∷ names) s = start_all graph names (start_one graph name s)

  abbrev pub check_one : ComponentDefinition W I → String → I → W → Board → Board
  check_one d name instance_of w board =
      update_health name (d.check_health instance_of w)
        (update_readiness name (d.check_readiness instance_of w) board)

  unfoldable pub verify_one :
      Dict (ComponentDefinition W I) → Dict I → W → String → Verification → Verification
  verify_one graph instances w name v = elim (get name graph) [
    | none ↦ v
    | some d ↦ elim (get name instances) [
      | none ↦ v
      | some instance_of ↦
          let readiness = d.check_readiness instance_of w in
          record {
            board = check_one d name instance_of w v.board;
            failures =
                if readiness.ready
                then v.failures
                else v.failures
                  ++ record { component = name; message = unready readiness.reasons } ∷ [];
          }
    ]
  ]

  unfoldable pub verify_all :
      Dict (ComponentDefinition W I) → Dict I → W → List String → Verification → Verification
  verify_all graph instances w [] v = v
  verify_all graph instances w (name ∷ names) v =
      verify_all graph instances w names (verify_one graph instances w name v)

  unfoldable pub stop_all :
      Dict (ComponentDefinition W I) → Dict I → List String → Teardown W → Teardown W
  stop_all graph instances [] t = t
  stop_all graph instances (name ∷ names) t =
      stop_all graph instances names (elim (get name instances) [
        | none ↦ t
        | some instance_of ↦ elim (get name graph) [
          | none ↦ t
          | some d ↦ after_shutdown now name (d.shutdown instance_of t.world) t
        ]
      ])

  -- The loop of `requestRestart`, which does not look at what `shutdown` throws.
  unfoldable pub tear_down_all :
      Dict (ComponentDefinition W I) → Dict I → List String → Teardown W → Teardown W
  tear_down_all graph instances [] t = t
  tear_down_all graph instances (name ∷ names) t =
      tear_down_all graph instances names (elim (get name instances) [
        | none ↦ t
        | some instance_of ↦ elim (get name graph) [
          | none ↦ t
          | some d ↦ record t {
            world = (d.shutdown instance_of t.world).0;
            board = record_restart name t.board;
          }
        ]
      ])

  -- The loop of `recover`, over the definitions of the instances held.
  unfoldable pub recheck_all : List (ComponentDefinition W I) → Dict I → W → Board → Board
  recheck_all [] instances w board = board
  recheck_all (d ∷ ds) instances w board = recheck_all ds instances w (elim (get d.name instances) [
    | none ↦ board
    | some instance_of ↦ check_one d d.name instance_of w board
  ])
