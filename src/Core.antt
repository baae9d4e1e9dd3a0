-- ===== src/Core.antt =====
-- The data of `jacquard_core`, `blew` and `uuid` that the crates build and take apart, as far as the
-- source shows their fields and cases. The other cases of such an enum are `other n`, and the parts
-- of a link that the source only carries along are a type parameter.
pub mod Endpoints
pub mod Events
pub mod Routes
