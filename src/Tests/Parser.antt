-- ===== src/Tests/Parser.antt =====
-- The response parser on concrete answers, among them those of the source's own tests.
use getemail.Base.{◌≡◌, refl, [], ◌∷◌, Bytes, codes, some, lower, starts_with}
use getemail.Pop2.Command.{Command}
use getemail.Pop2.Env.{IResult, done, incomplete, error, size, unknown}
use getemail.Pop2.Response.{Response, Capability, UidlResponse}
use getemail.Pop2.Parser.{parse}
use getemail.Pop2.Response.{time}
use getemail.Pop2.Parser.Core.{eol, end_of_multiline, message_parser}
use getemail.Pop2.Parser.Rfc1939
use getemail.Pop2.Parser.Rfc2449
use getemail.Pop2.Parser.Rfc2449.{new_duration}
use getemail.Pop2.Parser.Rfc1939.{new_text, new_number}
use getemail.Tests.Nom.{nom}

abbrev reading : Bytes → Command → IResult Response
reading input c = parse nom some input c

unfinished_listing_test :
    reading (codes "+OK 2 messages (320 bytes)\r\n1 120\r\n2 200\r\n") Command.list
    ≡ incomplete (size 1)
unfolding parse Rfc1939.status Rfc1939.stat_response Rfc1939.list_response eol end_of_multiline
    message_parser
unfinished_listing_test = refl

-- In front of the last line feed: `nom` of the tests asks for the two bytes of an end of line.
cut_listing_test :
    reading (codes "+OK 2 messages (320 bytes)\r\n1 120\r\n2 200\r\n.\r") Command.list
    ≡ incomplete (size 2)
unfolding parse Rfc1939.status Rfc1939.stat_response Rfc1939.list_response eol end_of_multiline
    message_parser
cut_listing_test = refl

scan_listing_test :
    reading
      (codes "+OK 2 messages (320 bytes)\r\n1 120 more info\r\n2 200 info info\r\n.\r\n")
      Command.list
    ≡ done [] (
        Response.list (record {
          stats =
              some (record {
                message_count = new_number (codes "2");
                size = new_number (codes "320");
              });
          items =
              record { message_count = new_number (codes "1"); size = new_number (codes "120") }
              ∷ record { message_count = new_number (codes "2"); size = new_number (codes "200") }
              ∷ [];
        }))
unfolding parse Rfc1939.status Rfc1939.stat_response Rfc1939.list_response eol end_of_multiline
    message_parser
scan_listing_test = refl

single_scan_test :
    reading (codes "+OK 1 120 test\r\n") Command.list
    ≡ done [] (
        Response.stat
          (record { message_count = new_number (codes "1"); size = new_number (codes "120") }))
unfolding parse Rfc1939.status Rfc1939.stat_response eol message_parser
single_scan_test = refl

no_size_test : reading (codes "+OK 1 \r\n") Command.list ≡ incomplete (size 1)
unfolding parse Rfc1939.status Rfc1939.stat_response Rfc1939.list_response eol end_of_multiline
    message_parser
no_size_test = refl

unique_ids_test :
    reading
      (codes
        "+OK unique-id listing follows\r\n1 whqtswO00WBw418f9t5JxYwZ\r\n2 QhdPYR:00WBw1Ph7x7\r\n.\r\n")
      Command.uidl
    ≡ done [] (
        Response.uidl (
          UidlResponse.multiple (record {
            message = some (new_text (codes "unique-id listing follows"));
            items =
                record {
                  index = new_number (codes "1");
                  id = new_text (codes "whqtswO00WBw418f9t5JxYwZ");
                }
                ∷ record {
                  index = new_number (codes "2");
                  id = new_text (codes "QhdPYR:00WBw1Ph7x7");
                }
                ∷ [];
          })))
unfolding parse Rfc1939.status Rfc1939.uidl_response Rfc1939.uidl_list_response eol end_of_multiline
    message_parser
unique_ids_test = refl

greeting_test :
    reading (codes "+OK maildrop has 2 messages (320 octets)\r\n") Command.greet
    ≡ done [] (Response.message (new_text (codes "maildrop has 2 messages (320 octets)")))
unfolding parse Rfc1939.status Rfc1939.string_response eol message_parser
greeting_test = refl

capabilities_test :
    reading
      (codes
        "+OK\r\nUSER\r\nRESP-CODES\r\nEXPIRE 30\r\nSASL GSSAPI SKEY\r\nGOOGLE-TEST-CAPA\r\n.\r\n")
      Command.capa
    ≡ done [] (
        Response.capability (
          Capability.user
          ∷ Capability.resp_codes
          ∷ Capability.expire (time (new_duration (codes "30") 86400))
          ∷ Capability.sasl (codes "GSSAPI" ∷ codes "SKEY" ∷ [])
          ∷ Capability.other (new_text (codes "GOOGLE-TEST-CAPA"))
          ∷ []))
unfolding parse Rfc1939.status Rfc2449.capability_response eol end_of_multiline message_parser lower
capabilities_test = refl

-- The content of a message is found between the heading and the end, so an empty message never ends.
empty_message_test : reading (codes "+OK\r\n.\r\n") Command.retr ≡ incomplete unknown
unfolding parse Rfc1939.status Rfc1939.rfc822_response eol message_parser starts_with
empty_message_test = refl

-- An unknown mechanism: the line is neither `SASL` nor another capability.
unknown_mechanism_test :
    reading (codes "+OK\r\nUSER\r\nSASL SCRAM-SHA-1 PLAIN\r\n.\r\n") Command.capa ≡ error
unfolding parse Rfc1939.status Rfc2449.capability_response eol end_of_multiline message_parser lower
unknown_mechanism_test = refl

-- A capability that begins like a keyword: cut here, 13 more bytes are asked for, where 5 are missing.
short_name_test : reading (codes "+OK\r\nI") Command.capa ≡ incomplete (size 13)
unfolding parse Rfc1939.status Rfc2449.capability_response eol end_of_multiline message_parser lower
short_name_test = refl

short_name_whole_test :
    reading (codes "+OK\r\nI\r\n.\r\n") Command.capa
    ≡ done [] (Response.capability (Capability.other (new_text (codes "I")) ∷ []))
unfolding parse Rfc1939.status Rfc2449.capability_response eol end_of_multiline message_parser lower
short_name_whole_test = refl

-- A listing of LIST whose heading is two numbers is read as a single item.
heading_of_numbers_test :
    reading (codes "+OK 2 320\r\n1 120\r\n2 200\r\n.\r\n") Command.list
    ≡ done (codes "1 120\r\n2 200\r\n.\r\n") (
        Response.stat
          (record { message_count = new_number (codes "2"); size = new_number (codes "320") }))
unfolding parse Rfc1939.status Rfc1939.stat_response eol
heading_of_numbers_test = refl
