-- ===== src/Routing.antt =====
-- mixapi/routing.py: which candidates can serve a request, and in which order.
pub mod Requirements
pub mod Order
pub mod Laws
