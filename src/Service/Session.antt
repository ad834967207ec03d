-- ===== src/Service/Session.antt =====
-- server/internal/service/support_sessions.go and end_support_session.go: the calls between a user
-- and a family. `Common` holds the helpers, `Pair` the calls that change a request and its session,
-- `End` those that end a session, and `Token` the LiveKit tokens; the other children prove.
pub mod Common
pub mod Held
pub mod Pair
pub mod Call
pub mod End
pub mod Token
pub mod Replay
pub mod Answer
pub mod Change
pub mod Mutate
pub mod Effects
pub mod Rows
pub mod Frame
pub mod Refine
pub mod Changes
pub mod Start
pub mod Finish
pub mod Closing
pub mod Ending
pub mod UseCases
pub mod Reach
