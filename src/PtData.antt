-- ===== src/PtData.antt =====
-- src/pts_set/pt_data.rs: the points-to data of the solver, over any set that implements the
-- trait of points-to sets.
pub mod DiffPtData
pub mod BasePtData
