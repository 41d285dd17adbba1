-- ===== src/Contest/Agreement.antt =====
-- The two ways to the scoreboard agree: row by row during the contest (`update_ranking_on_result`) and
-- from the submissions (`_recompute_rankings`). The children fill in what the rules of ACM and IOI share.
pub mod Fold
pub mod Rules
pub mod Gaps
