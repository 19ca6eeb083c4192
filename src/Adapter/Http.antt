-- ===== src/Adapter/Http.antt =====
-- core/adapter/http: the handlers, from a user and a decoded body to a status and a body, the pages
-- and the router. The encoding of JSON and the templates are not modelled.
pub mod Response
pub mod Jobs
pub mod Settings
pub mod Lines
pub mod Pages
pub mod Router
