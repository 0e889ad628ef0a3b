-- ===== src/Recall.antt =====
-- What packages/pcltm may recall into a prompt: memory objects, their selection, the budget of the
-- context window, and the policy of full-text retrieval.
pub mod Object
pub mod Selection
pub mod Budget
pub mod Policy
mod Tests
