-- ===== src/Consumers.antt =====
-- internal/discord: the handlers of the queues, which change Discord.
pub mod Answers
pub mod Members
pub mod Giving
pub mod MembersAnswers
pub mod RolesAnswers
pub mod Roles
