-- ===== src/Tests.antt =====
-- Evaluations of the definitions on small inputs, and each theorem at such an input.
mod Broker
mod Explorer
mod Parsers
mod Cache
mod Engine
mod Middleware
mod Results
mod Rules
mod Domain
mod Grading
mod Contracts
mod Analysis
mod Coaching
mod Tools
mod Toy
mod Override
mod Castling
mod ActionEvaluation
mod Stability
