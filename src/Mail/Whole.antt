-- ===== src/Mail/Whole.antt =====
-- The crate as a whole: from a mailbox and the map of servers to the messages, over POP3.
use getemail.Pop2.Env.{Env}
use getemail.Pop2.Nom.{Nom}
use getemail.Mail.Crates.{Crates}
use getemail.Mail.Mailbox.{Mailbox}
use getemail.Mail.ServerMap.{ServerMap}
use getemail.Mail.Imap.{Imap}
use getemail.Mail.Pop3
use getemail.Mail.Pop3.{Pop3}
use getemail.Mail.Pop3.Served.{Mail}
