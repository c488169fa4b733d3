-- ===== src/Runtime.antt =====
-- runtime/runtime.go: the state of a run. The operations are in the modules below: Trace, Policy,
-- Act (the steps they are made of), Actions (of policies), Events (what the Carousel reports),
-- Scopes (outcomes of scopes), Demand, Launch (attempts), Dispatch, Deliver (what the timeline delivers), Reactor (the loops) and
-- Start. The Runtime is generic in the Host's state `H` and in the policies' state `S`.
pub mod Trace
pub mod Policy
pub mod State
pub mod Act
pub mod Actions
pub mod Events
pub mod Scopes
pub mod Demand
pub mod Launch
pub mod Dispatch
pub mod Deliver
pub mod Reactor
pub mod Start
pub mod Moves
pub mod Operations
pub mod Laws
