-- ===== src/Ctl/Print.antt =====
-- qdctl.c: what is read from the socket (readreply, recvshowreply, recvcmdreply, testAPIsocket,
-- check_interface) and how it is printed (processSTATUSreply, processTARGETADDreply,
-- processACLLISTreply, processINTLISTreply, processTARGETLISTreply, processAPIreply).
use qaoed.Base.{
  ◌/◌, pos, String, str_eq, List, [], ◌∷◌, Bool, true, false, not, ◌&&◌, ◌||◌, ◌==◌, ltb,
  if◌then◌else◌, length, codes, take, map, done, fault, blocked,
}
use qaoed.Main.{alive}
use qaoed.Api.{api_allok}
use qaoed.Api.Query.{strncpy, sizeof_status, sizeof_target_info, sizeof_acl_info, sizeof_if_info}
use qaoed.Api.Dispatch.{Answers}
use qaoed.Ctl.{
  Line, says, says_number, shows_status, shows_target, shows_details, shows_interface, shows_acl,
  Action, ◌>>=◌, ◌>>◌, pure, exit, waits, breaks, print,
}
use qaoed.Ctl.Serve.{
  Request, get_status, get_interface, Reaction, silent, closed, answers, Answer, Payload,
  status_payload, target_rows, interface_rows, acl_rows, interface_payload, target_payload, serve,
}

-- The sends of a request, with what the daemon does on it. Nothing leaves a socket that is not open.
unfoldable pub exchange : (Request → Answers) → Request → Action Reaction
exchange ans r s = elim s.connected [
  | false ↦ done (alive closed, s)
  | true ↦ elim (serve (ans r) r s.conf) [
    | done (reaction, conf') ↦ done (alive reaction, record s { conf = conf' })
    | fault ↦ fault
    | blocked ↦ blocked
  ]
]

-- The header, then the argument. A length of 2048 passes both tests, but only the smaller ones get
-- memory for the argument.
unfoldable pub readreply : Reaction → Action Answer
readreply silent = waits
readreply closed = print (says "Error recieving api_hdr") >> exit
readreply (answers a) =
    if ltb 2048 a.arg_len
    then print (says "argument lenght has bogus value") >> exit
    else if a.arg_len == 0
    then pure a
    else if a.sent == 0
    then waits
    else if a.arg_len == 2048
    then breaks
    else if ltb a.sent a.arg_len
    then print (says "Bogus lenght recieved from socket") >> exit
    else pure a

unfoldable pub print_all : List Line → Action (Unit {0})
print_all [] = pure tt
print_all (l ∷ ls) = print l >> print_all ls

unfoldable pub status_reply : Answer → Action (Unit {0})
status_reply a = elim a.payload [
  | status_payload st ↦
      if (a.cmd == 0) && (a.arg_len == sizeof_status) then print (shows_status st) else pure tt
  | _ ↦ pure tt
]

-- The heading, and as many rows as the length of the argument holds.
unfoldable pub row_lines : Answer → List Line
row_lines a = elim a.payload [
  | target_rows ts ↦
      says "NAME                                 SHELF    SLOT     INTERFACE"
      ∷ map shows_target (take (a.arg_len / sizeof_target_info) ts)
  | interface_rows is ↦
      says "INTERFACE                   HWADDR      MTU"
      ∷ map shows_interface (take (a.arg_len / sizeof_if_info) is)
  | acl_rows acls ↦ map shows_acl (take (a.arg_len / sizeof_acl_info) acls)
  | _ ↦ []
]

unfoldable pub target_add_reply : Answer → Action (Unit {0})
target_add_reply a = elim a.payload [
  | target_payload t ↦
      if a.arg_len == sizeof_target_info
      then (print (
            says (
              if a.error == api_allok
              then "Successfully added new target"
              else "Failed to add new target"))
          >> print (shows_details t))
      else print (says "Failed to understand reply from server")
  | _ ↦ print (says "Failed to understand reply from server")
]

unfoldable pub process_reply : Answer → Action (Unit {0})
process_reply a =
    if a.cmd == 0
    then status_reply a
    else if a.cmd == 7
    then print (says "API_CMD_TARGET_STATUS - no function")
    else if a.cmd == 8
    then target_add_reply a
    else if a.cmd == 9
    then print
        (says (if a.error == api_allok then "Command completed successfully" else "Command failed"))
    else print (says_number "Unknown cmd" (pos a.cmd))

unfoldable pub recvshowreply : Reaction → Action (Unit {0})
recvshowreply r = do
  a ← readreply r
  if not (a.error == api_allok)
      then print (says "Command failed")
      else if (a.cmd == 1) || ((a.cmd == 6) || (a.cmd == 12))
      then print_all (row_lines a)
      else print (says "Unknown reply from server!")

unfoldable pub recvcmdreply : Reaction → Action (Unit {0})
recvcmdreply r = do
  a ← readreply r
  if not (a.error == api_allok) then print (says "Command failed!") else process_reply a

-- The reply to the request for the status, which is made on each new connection.
unfoldable pub test_reply : Reaction → Action Bool
test_reply silent = waits
test_reply closed = print (says "Status request failed") >> pure false
test_reply (answers a) =
    if (ltb 0 a.arg_len) && (a.sent == 0)
    then waits
    else if not (a.cmd == 0) || not (a.error == api_allok)
    then print (says "Status request failed") >> pure false
    else pure true

unfoldable pub test_api_socket : (Request → Answers) → Action Bool
test_api_socket ans = exchange ans get_status >>= test_reply

-- Of the interface that comes back, as many bytes are read as a status has. A longer name is compared
-- with what the memory holds.
unfoldable pub same_interface : String → Payload → Action Bool
same_interface name (interface_payload info) =
    if ltb (length (codes info.name)) sizeof_status
    then if str_eq info.name name
      then pure true
      else print (says "Status request failed") >> pure false
    else breaks
same_interface name _ = breaks

unfoldable pub check_reply : String → Reaction → Action Bool
check_reply name silent = waits
check_reply name closed = print (says "Status request failed") >> pure false
check_reply name (answers a) =
    if a.arg_len == 0 then breaks else if a.sent == 0 then waits else same_interface name a.payload

unfoldable pub check_interface : (Request → Answers) → String → Action Bool
check_interface ans name = exchange ans (get_interface (strncpy 20 name)) >>= check_reply name
