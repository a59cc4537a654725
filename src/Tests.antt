-- ===== src/Tests.antt =====
-- The theorems at concrete inputs, by component.
mod Base
mod ExprIr
mod Wire
mod Blob
mod Cache
mod Resolver
mod Filter
mod Exec
mod Uri
