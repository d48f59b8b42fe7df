-- ===== src/Agent/Graph.antt =====
-- agent-service/app/agent/graph.py: the nodes, their edges, and the runs through them.
pub mod Nodes
pub mod Machine
pub mod Diagram
pub mod Inversion
pub mod Attempts
pub mod Approval
pub mod Termination
pub mod Progress
