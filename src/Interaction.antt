-- ===== src/Interaction.antt =====
-- internal/interaction: the graph of calls between services.
pub mod Target
pub mod Graph
pub mod Calls
mod Examples
