-- ===== src/Api.antt =====
-- internal/httpapi: the sessions of the console, the gates, the handlers and their routes, and the enrolment
-- of clients.
pub mod Sessions
pub mod Enrollments
pub mod Gates
pub mod Keys
pub mod Server
pub mod Account
pub mod Pool
pub mod Import
pub mod Providers
pub mod Clients
pub mod Overview
pub mod Router
pub mod Moves
pub mod Sealed
pub mod Pairing
pub mod Web
