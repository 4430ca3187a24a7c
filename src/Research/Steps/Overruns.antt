-- ===== src/Research/Steps/Overruns.antt =====
-- A run that the time limit of its graph ends, in shared/research_runs/service.py.
