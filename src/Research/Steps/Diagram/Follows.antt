-- ===== src/Research/Steps/Diagram/Follows.antt =====
-- The status of a run, through the transactions of the executor and of the user, follows the diagram.
