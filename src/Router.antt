-- ===== src/Router.antt =====
-- internal/router: the decision on a route, the keys of a model, the models that can be called and
-- their calls; and a request as a whole, with what holds of it.
pub mod Decision
pub mod Keys
pub mod Models
pub mod Calls
pub mod Replied
pub mod Served
pub mod World
pub mod Route
pub mod Finish
pub mod Frame
pub mod Money
pub mod Reached
pub mod Inversion
pub mod Answered
pub mod Logged
pub mod Refused
pub mod Alone
pub mod Settled
pub mod Policy
