-- ===== src/Macros.antt =====
-- The procedural macros of actix-send-macros/src: the code that they read and write, as syntax trees.
pub mod Syntax
pub mod Build
pub mod Args
pub mod Info
pub mod HandlerTrait
pub mod HandlerV2
pub mod MessageAttr
pub mod Meaning
pub mod ModMessages
pub mod ModConversions
pub mod ActorMod
pub mod Equal
pub mod Attributes
mod Counter
mod Checks
