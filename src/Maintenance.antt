-- ===== src/Maintenance.antt =====
-- The passes that a timer starts: the renewal of Gmail watches, the repair of mailboxes, and the
-- recovery of stuck syncs. Each lists its targets and works on them; the targets are taken one after
-- the other. The dispatcher of syncs is the parameter `accepts`: a mailbox id that it does not
-- accept is a defect that ends the pass.
pub mod Columns
pub mod Mailbox
pub mod Watches
pub mod Renewal
pub mod Repairs
pub mod Stuck
