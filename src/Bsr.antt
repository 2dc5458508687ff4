-- ===== src/Bsr.antt =====
-- pkg/bsr: a BrickStor server behind `ProviderInterface`, and the resolver over its nodes.
pub mod Provider
pub mod Read
pub mod Api
pub mod Resolver
