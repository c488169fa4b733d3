-- ===== src/Runtime/Start.antt =====
-- Start of runtime/runtime.go, with the defaults of Config. `host` is the Host's state; a Start
-- without a Host is an error in the source, and cannot be written here. The Codebase after a Start
-- that fails is left out.
use subsea_cable_runtime.Base.{
  ℕ, zero, suc, Bool, false, Option, none, some, String, List, [], ◌∷◌, ℤ, pos, negsuc,
}
use subsea_cable_runtime.Diag.{diagnostics, Res, ok, err}
use subsea_cable_runtime.Sema.{SourceUnit}
use subsea_cable_runtime.Codebase.{Codebase, new_codebase, Artifact, register_run}
use subsea_cable_runtime.Codebase.Commit.{commit_unit}
use subsea_cable_runtime.Carousel.{new_carousel}
use subsea_cable_runtime.Carousel.Calls
use subsea_cable_runtime.Carousel.Replenish.{open_root}
use subsea_cable_runtime.Host.{HostPort}
use subsea_cable_runtime.Runtime.Policy.{Registry, new_registry}
use subsea_cable_runtime.Runtime.State.{Run, Settings, DemandMode, demand_ready, Gate}
use subsea_cable_runtime.Runtime.Act.{after, Act, skip, ◌▷◌, each, note, tell}
use subsea_cable_runtime.Runtime.Events.{drain_events}
use subsea_cable_runtime.Runtime.Scopes.{settle}
use subsea_cable_runtime.Runtime.Demand.{demand_then}

-- Config as it is given to Start, with a target that is not negative, the digest function and the fuel of the model.
pub record Options (H S : Type 0) : Type 0 where
  pub run_id : String
  pub prefetch : ℕ
  pub concurrency : ℤ
  pub mode : Option DemandMode
  pub policies : Option (Registry S)
  pub withhold : Option (String → ℤ)
  pub reattempt : Option (String → ℕ → Bool)
  pub port : HostPort H Gate
  pub codebase : Option Codebase
  pub max_steps : ℤ
  pub sha256 : String → String
  pub fuel : ℕ
  pub rounds : ℕ

-- A count that is not positive takes its default.
positive_or : ℕ → ℤ → ℕ
positive_or d (pos zero) = d
positive_or d (pos (suc n)) = suc n
positive_or d (negsuc n) = d

or_given {ℓ} : {A : Type ℓ} → A → Option A → A
or_given d none = d
or_given d (some a) = a

module _ {H S : Type 0} where
  -- Config.defaults, for the run that RegisterRun named.
  unfoldable pub defaults : Options H S → String → Settings H S
  unfolding positive_or or_given new_registry
  defaults o id = record {
    car_cfg = record {
      run_id = id;
      primitives = o.port.primitives;
      sha256 = o.sha256;
      fuel = o.fuel;
    };
    concurrency = positive_or 4 o.concurrency;
    mode = or_given demand_ready o.mode;
    registry = or_given new_registry o.policies;
    withhold = o.withhold;
    reattempt = o.reattempt;
    port = o.port;
    max_steps = positive_or 100000 o.max_steps;
    rounds = o.rounds;
  }

  -- The state before the Root is opened.
  unfoldable pub new_run : Codebase → ℕ → H → Run H S
  unfolding new_carousel
  new_run code prefetch host = record {
    car = new_carousel code prefetch;
    scopes = [];
    values = [];
    trace = [];
    now = 0;
    tl = [];
    tl_seq = 0;
    inflight = [];
    result = none;
    steps = 0;
    call_sites = 0;
    host = host;
    exhausted = false;
  }

  module _ (set : Settings H S) where
    -- The events of CommitUnit, and the opening of the Root.
    announce : SourceUnit → List Artifact → Act H S
    unfolding note each tell ◌▷◌
    announce u arts =
        note "SourceValidated" ""
        ▷ each (λ a. note "ArtifactCommitted" "") arts
        ▷ tell set.car_cfg (Calls.opens_root u)

    request_root : String → Act H S
    unfolding note drain_events settle demand_then ◌▷◌
    request_root id =
        note "RunRequested" id ▷ drain_events set (settle set) ▷ demand_then set id (λ res. skip)

    opened : Res String → Run H S → Res (Run H S)
    unfolding request_root
    opened (err e) r = err e
    opened (ok id) r = ok (after (request_root id) r)

    open_run : SourceUnit → List Artifact → Run H S → Res (Run H S)
    unfolding opened announce open_root
    open_run u arts r = opened (open_root set.car_cfg u r.car).0 (after (announce u arts) r)

  after_commit :
      Options H S
      → String
      → SourceUnit
      → H
      → Res (List Artifact × ℕ) × Codebase
      → Res (Settings H S × Run H S)
  after_commit o id u host (err e, code) = err e
  after_commit o id u host (ok (arts, rev), code) =
      elim (open_run (defaults o id) u arts (new_run code o.prefetch host)) [
        | err e ↦ err e
        | ok r ↦ ok (defaults o id, r)
      ]

  after_register :
      Options H S → SourceUnit → H → Res String × Codebase → Res (Settings H S × Run H S)
  unfolding after_commit commit_unit
  after_register o u host (err e, code) = err e
  after_register o u host (ok id, code) = after_commit o id u host (commit_unit o.sha256 code u)

  -- Start
  unfoldable pub start_run : Options H S → SourceUnit → H → Res (Settings H S × Run H S)
  unfolding after_register or_given register_run new_codebase open_run
  start_run o u host = elim u.unsupported [
    | [] ↦ after_register o u host (register_run (or_given new_codebase o.codebase) o.run_id)
    | d ∷ ds ↦ err (diagnostics (d ∷ ds))
  ]
