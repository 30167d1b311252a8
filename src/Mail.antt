-- ===== src/Mail.antt =====
-- The crate getemail (src of the repository): mailboxes, the servers of a domain, filters, and the
-- readers that collect the messages of a mailbox over POP3 or IMAP.
pub mod Crates
pub mod Mailbox
pub mod Filters
pub mod ServerMap
pub mod Pop3
pub mod Imap
pub mod Connect
pub mod Global
pub mod Common
pub mod Whole
